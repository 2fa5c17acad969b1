-- ===== src/Reassembler/NextMessage/Messages.antt =====
-- Which bytes `get_next_tcp_reassembled` hands back, and which it keeps.
use https_github_com_open_li.Prelude.{
  ℕ, ◌+◌, ◌-◌, ◌≤◌, ◌≡◌, refl, ap, ap₂, sym, ◌∙◌, Bool, some, List, [], ◌∷◌, ◌++◌, arith, ◌==◌,
  done, length, take, drop, drop-of_le, take-append_add, drop-append_add, take-take, drop-take,
  drop-drop, length-append, length-take, length-drop, Bool-cases, inl, inr,
}
use https_github_com_open_li.Prelude.Int.{pos}
use https_github_com_open_li.Uthash.{Sorter}
use https_github_com_open_li.Reassembler.Sip.{find_sip_message_end}
use https_github_com_open_li.Reassembler.Sip.Framing.{Header, find_sip_message_end-Header}
use https_github_com_open_li.Reassembler.Segment.{u16, u32, TcpSegment, TcpStream, ready}
use https_github_com_open_li.Reassembler.Segment.Stored.{IsStored}
use https_github_com_open_li.Reassembler.NextMessage.{
  Output, buffer, unused, message, use_segment, scan, sort_segments, finish,
  get_next_tcp_reassembled,
}
use https_github_com_open_li.Reassembler.NextMessage.Loop.{Plentiful, scan-end}

-- the bytes that the segments still hold, in order
abbrev pub held_bytes : List TcpSegment → List ℕ
held_bytes [] = []
held_bytes (s ∷ l) = unused s ++ held_bytes l

pub length-unused : (s : TcpSegment) → IsStored s → length (unused s) ≡ s.length
length-unused s h =
    omega (
      arith,
      length-take s.length (drop s.offset s.content),
      length-drop s.offset s.content,
      h.held,
    )

-- moving the offset on by `used` bytes drops these from what is unused
unused_behind :
    (s : TcpSegment) (used : ℕ)
    → IsStored s
    → used ≤ s.length
    → take (s.length - used) (drop (u16 (s.offset + used)) s.content) ≡ drop used (unused s)
unused_behind s used h le =
    ap (λ k. take (s.length - used) (drop k s.content))
      (let u : u16 (s.offset + used) ≡ s.offset + used = omega (arith, h.held, h.fits) in u)
    ∙ ap (take (s.length - used)) (sym (drop-drop used s.offset s.content))
    ∙ sym (drop-take used s.length (drop s.offset s.content))

-- the stream that a message leaves, and what it hands back
record Used (stream : TcpStream) (s : TcpSegment) (rest : List TcpSegment) (used : ℕ) (out : Output)
    (after : TcpStream) : Type 0 where
  number : after.expectedseqno ≡ u32 (stream.expectedseqno + used)
  bytes : held_bytes after.segments ≡ drop used (unused s) ++ held_bytes rest
  len : out.len ≡ used

use_segment-Used :
    (stream : TcpStream) (s : TcpSegment) (rest : List TcpSegment) (used : ℕ) (out : Output)
    → IsStored s
    → used ≤ s.length
    → (out' : Output) × (after : TcpStream) × (use_segment stream s rest out 0 used
        ≡ message after out')
      × (out'.content ≡ out.content)
      × Used stream s rest used out' after
unfolding use_segment
use_segment-Used stream s rest used out h le = elim (Bool-cases (s.length == used)) [
  | inl e ↦ (
    record out { len = u16 (0 + s.length) },
    record stream { expectedseqno = u32 (stream.expectedseqno + used); segments = rest },
    rw e,
    refl,
    record {
      number = refl;
      bytes =
          ap (λ t. t ++ held_bytes rest)
            (sym (drop-of_le used (unused s) (ground (arith, e, length-unused s h))));
      len = ground (arith, e, h.held, h.fits);
    },
  )
  | inr e ↦ (
    record out { len = u16 (0 + used) },
    record stream {
      expectedseqno = u32 (stream.expectedseqno + used);
      segments =
          record s {
            seqno = u32 (s.seqno + used);
            offset = u16 (s.offset + used);
            length = s.length - used;
          }
          ∷ rest;
    },
    rw e,
    refl,
    record {
      number = refl;
      bytes = ap (λ t. t ++ held_bytes rest) (unused_behind s used h le);
      len = ground (arith, e, h.held, h.fits);
    },
  )
]

module _ (hash : ℕ → ℕ) (sorter : Sorter TcpSegment) (mem : ℕ → Bool) (stream : TcpStream)
    (out : Output) (big : Plentiful mem) where
  -- When the stored segment that the sort puts first has bytes left, all of them inside a content
  -- of fewer than 65536 bytes, is at the expected number and starts with a whole SIP message, its
  -- Content-Length field shorter than twelve characters, and memory suffices, the call for the next
  -- message returns that message byte for byte; the stream keeps exactly the bytes behind it, in
  -- that segment and in the others, and expects the byte behind the message next.
  pub get_next-whole_message :
      (s : TcpSegment) (rest : List TcpSegment) (head after : List ℕ) (n : ℕ)
      → (sort_segments sorter stream).segments ≡ s ∷ rest
      → s.seqno ≡ stream.expectedseqno
      → IsStored s
      → unused s ≡ head ++ after
      → Header head n
      → n ≤ length after
      → (out' : Output) × (stream' : TcpStream) × (get_next_tcp_reassembled hash sorter mem stream
            out
          ≡ done (ready, out', stream'))
        × (take out'.len (buffer out'.content) ≡ head ++ take n after)
        × (held_bytes stream'.segments ≡ drop n after ++ held_bytes rest)
        × (stream'.expectedseqno ≡ u32 (stream.expectedseqno + (length head + n)))
  unfolding get_next_tcp_reassembled finish
  get_next-whole_message s rest head after n order number h bytes header whole =
      let sorted = sort_segments sorter stream in
      let same : sorted.expectedseqno ≡ stream.expectedseqno =
        unfold sort_segments in ground arith in
      let used = length head + n in
      let found : find_sip_message_end (unused s) ≡ done (some (pos used)) =
        ap find_sip_message_end bytes
        ∙ find_sip_message_end-Header head n after header
        ∙ ground arith in
      let size : length (unused s) ≡ s.length = length-unused s h in
      let le : used ≤ s.length = omega (arith, size, ap length bytes, length-append head after) in
      let (out1, front, step) =
        scan-end mem sorted s rest out [] used big refl size found (omega (arith, header.ends))
          le in
      let (out2, after2, eq, content, u) = use_segment-Used sorted s rest used out1 h le in
      (
        out2,
        after2,
        ap₂ (λ l k. finish hash (scan mem sorted l out 0 k)) order (same ∙ sym number)
            ∙ ap (finish hash) (step ∙ ap done eq),
        ap₂ (λ k c. take k (buffer c)) u.len content
            ∙ sym (take-take used (length (unused s)) (buffer out1.content) (omega (arith, size)))
            ∙ ap (take used) (front ∙ bytes)
            ∙ take-append_add head after n,
        u.bytes
            ∙ ap (λ t. t ++ held_bytes rest) (ap (drop used) bytes ∙ drop-append_add head after n),
        u.number ∙ ap (λ k. u32 (k + used)) same,
      )
