-- ===== src/Reassembler/Segment/Update.antt =====
-- `update_tcp_reassemble_stream`: what it does with new bytes.
use https_github_com_open_li.Prelude.{
  ℕ, zero, suc, ◌+◌, ◌-◌, ◌%◌, ◌≤◌, ◌<◌, ◌≡◌, not, none, some, inl, inr, refl, ap, sym, ◌∙◌, true,
  false, ◌&&◌, Option, List, arith, ltb, ◌==◌, Outcome, done, aborted, out_of_fuel, length, drop,
  length-drop, drop-drop, Option-cases, Bool-cases,
}
use https_github_com_open_li.Prelude.Int.{ℤ, pos, negsuc}
use https_github_com_open_li.Uthash.{hash_add}
use https_github_com_open_li.Reassembler.Seq.{seq_cmp, is_negative, is_zero, seq_cmp-difference}
use https_github_com_open_li.Reassembler.Sip.{find_sip_message_end}
use https_github_com_open_li.Reassembler.Segment.{
  u32, TcpSegment, TcpStream, Ret, failed, pending, ready, ends_at, new_segment, accept,
  add_segment, find_segment, update_tcp_reassemble_stream,
}

-- the stream behind a message that was used on the spot, and with one more segment
abbrev pub taken : TcpStream → List ℕ → TcpStream
taken stream content = record stream { expectedseqno = u32 (stream.expectedseqno + length content) }

abbrev pub with_segment : TcpStream → List ℕ → ℕ → TcpStream
with_segment stream content seqno = record stream {
  segments = hash_add (new_segment content seqno) stream.segments;
  sorted = false;
}

-- how far a number is ahead of the expected one; from half the number space on it is behind
abbrev pub ahead : ℕ → ℕ → ℕ
ahead seqno expected = (seqno + 4294967296 - expected) % 4294967296

-- The first `k` bytes are those of stored segments, each at the number behind the one before.
pub data Skips (hash : ℕ → ℕ) (segments : List TcpSegment) : List ℕ → ℕ → ℕ → Type 0 where
  here : (content : List ℕ) (seqno : ℕ) → Skips hash segments content seqno 0
  next :
      (content : List ℕ) (seqno k : ℕ) (s : TcpSegment)
      → find_segment hash seqno segments ≡ some s
      → s.length < length content
      → Skips hash segments (drop s.length content) (u32 (seqno + s.length)) k
      → Skips hash segments content seqno (s.length + k)

-- What happens to bytes that reach behind no stored segment: a stored one has just these or more, or no
-- stored one has their number, and they are older than the expected number, are the message that is
-- expected, or are stored.
pub data Handled (hash : ℕ → ℕ) (stream : TcpStream) (content : List ℕ) (seqno : ℕ) (r : Ret)
    (after : TcpStream) : Type 0 where
  refused :
      (s : TcpSegment)
      → find_segment hash seqno stream.segments ≡ some s
      → length content ≡ s.length
      → r ≡ failed
      → after ≡ stream
      → Handled hash stream content seqno r after
  known :
      (s : TcpSegment)
      → find_segment hash seqno stream.segments ≡ some s
      → length content < s.length
      → r ≡ pending
      → after ≡ stream
      → Handled hash stream content seqno r after
  old :
      find_segment hash seqno stream.segments ≡ none
      → 2147483648 ≤ ahead seqno stream.expectedseqno
      → r ≡ failed
      → after ≡ stream
      → Handled hash stream content seqno r after
  direct :
      find_segment hash seqno stream.segments ≡ none
      → seqno ≡ stream.expectedseqno
      → find_sip_message_end content ≡ done (some (pos (length content)))
      → r ≡ ready
      → after ≡ taken stream content
      → Handled hash stream content seqno r after
  added :
      find_segment hash seqno stream.segments ≡ none
      → ahead seqno stream.expectedseqno < 2147483648
      → ¬ (
          (seqno ≡ stream.expectedseqno)
          × (find_sip_message_end content ≡ done (some (pos (length content)))))
      → r ≡ pending
      → after ≡ with_segment stream content seqno
      → Handled hash stream content seqno r after

-- The update goes past the first `k` bytes and handles the rest.
abbrev pub Updated : (ℕ → ℕ) → TcpStream → List ℕ → ℕ → Ret → TcpStream → Type 0
Updated hash stream content seqno r after =
    (k : ℕ) × Skips hash stream.segments content seqno k
    × (k < length content)
    × Handled hash stream (drop k content) (u32 (seqno + k)) r after

Updated-here :
    (hash : ℕ → ℕ) (stream : TcpStream) (content : List ℕ) (seqno : ℕ) {r : Ret} {after : TcpStream}
    → 0 < length content
    → seqno < 4294967296
    → Handled hash stream content seqno r after
    → Updated hash stream content seqno r after
Updated-here hash stream content seqno {r} {after} full small h =
    let u : u32 (seqno + 0) ≡ seqno = omega arith in (0, here content seqno, full, rw u h)

-- an update with the bytes behind a stored segment, seen as one with all of them
Updated-next :
    (hash : ℕ → ℕ) (stream : TcpStream) (content : List ℕ) (seqno : ℕ) (s : TcpSegment) {r : Ret}
    {after : TcpStream}
    → find_segment hash seqno stream.segments ≡ some s
    → s.length < length content
    → Updated hash stream (drop s.length content) (u32 (seqno + s.length)) r after
    → Updated hash stream content seqno r after
Updated-next hash stream content seqno s {r} {after} found less (k, skips, inside, handled) =
    let u : u32 (seqno + (s.length + k)) ≡ u32 (u32 (seqno + s.length) + k) = omega arith in
    (
      s.length + k,
      next content seqno k s found less skips,
      omega (arith, length-drop s.length content),
      rw (u, sym (drop-drop k s.length content)) handled,
    )

-- the tests on `seq_cmp`, by how far the number is ahead
is_negative-seq_cmp :
    (a b : ℕ)
    → a < 4294967296
    → b < 4294967296
    → is_negative (seq_cmp a b) ≡ not (ltb (ahead a b) 2147483648)
is_negative-seq_cmp a b ha hb = rw (seq_cmp-difference a b ha hb) ground arith

is_zero-seq_cmp : (a b : ℕ) → a < 4294967296 → b < 4294967296 → is_zero (seq_cmp a b) ≡ (a == b)
unfolding seq_cmp
is_zero-seq_cmp a b ha hb = ground arith

ends_at-pos : (end : Option ℤ) (n : ℕ) → ends_at end n ≡ true → end ≡ some (pos n)
ends_at-pos none n h = cc
ends_at-pos (some (pos e)) n h = ap (λ k. some (pos k)) (ground (arith, h))
ends_at-pos (some (negsuc e)) n h = cc

module _ (hash : ℕ → ℕ) where
  accept-Handled :
      (stream : TcpStream) (content : List ℕ) (seqno : ℕ) (o : Outcome (Option ℤ)) {r : Ret}
      {after : TcpStream}
      → find_sip_message_end content ≡ o
      → seqno < 4294967296
      → stream.expectedseqno < 4294967296
      → find_segment hash seqno stream.segments ≡ none
      → ahead seqno stream.expectedseqno < 2147483648
      → accept stream content seqno o ≡ done (r, after)
      → Handled hash stream content seqno r after
  unfolding accept
  accept-Handled stream content seqno aborted search small room unknown near h = cc
  accept-Handled stream content seqno out_of_fuel search small room unknown near h = cc
  accept-Handled stream content seqno (done endptr) {r} {after} search small room unknown near h =
      let zero_test = is_zero-seq_cmp seqno stream.expectedseqno small room in
      let b = is_zero (seq_cmp seqno stream.expectedseqno) && ends_at endptr (length content) in
      elim (Bool-cases b) [
        | inl e ↦
            let at_end = ends_at-pos endptr (length content) (ground (arith, e)) in
            direct unknown (ground (arith, e, zero_test)) (search ∙ ap done at_end)
              (ground (arith, e, h)) (ground (arith, e, h))
        | inr e ↦
            added unknown near
              (λ (same, at_end). ground (arith, e, zero_test, same, sym search ∙ at_end))
              (ground (arith, e, h)) (ground (arith, e, h))
      ]

  add_segment-Handled :
      (stream : TcpStream) (content : List ℕ) (seqno : ℕ) {r : Ret} {after : TcpStream}
      → seqno < 4294967296
      → stream.expectedseqno < 4294967296
      → find_segment hash seqno stream.segments ≡ none
      → add_segment stream content seqno ≡ done (r, after)
      → Handled hash stream content seqno r after
  unfolding add_segment
  add_segment-Handled stream content seqno {r} {after} small room unknown h =
      let test = is_negative-seq_cmp seqno stream.expectedseqno small room in
      elim (Bool-cases (is_negative (seq_cmp seqno stream.expectedseqno))) [
        | inl e ↦
            old unknown (ground (arith, e, test)) (ground (arith, e, h)) (ground (arith, e, h))
        | inr e ↦
            accept-Handled stream content seqno (find_sip_message_end content) refl small room
              unknown (ground (arith, e, test)) (sym (rw (e, add_segment) refl) ∙ h)
      ]

  -- An update with one byte or more that returns has gone past the bytes that stored segments have,
  -- and has then refused the rest, because a stored segment has just these or because it is older
  -- than the expected number, known it, because a stored segment has more, left it to the caller,
  -- when it is at the expected number and ends exactly where a SIP message ends, or otherwise added
  -- it as one new segment with its own number. Both numbers are below 2 ^ 32.
  pub update_tcp_reassemble_stream-Updated :
      (fuel : ℕ) (stream : TcpStream) (content : List ℕ) (seqno : ℕ) {r : Ret} {after : TcpStream}
      → 0 < length content
      → seqno < 4294967296
      → stream.expectedseqno < 4294967296
      → update_tcp_reassemble_stream hash fuel stream content seqno ≡ done (r, after)
      → Updated hash stream content seqno r after
  unfolding update_tcp_reassemble_stream
  update_tcp_reassemble_stream-Updated zero stream content seqno full small room h = cc
  update_tcp_reassemble_stream-Updated (suc fuel) stream content seqno {r} {after} full small room
        h =
      elim (Option-cases (find_segment hash seqno stream.segments)) [
        | inl e ↦ Updated-here hash stream content seqno full small (
            add_segment-Handled stream content seqno small room e
              (sym (rw (e, update_tcp_reassemble_stream) refl) ∙ h))
        | inr (s, e) ↦ elim (Bool-cases (length content == s.length)) [
          | inl q ↦
              Updated-here hash stream content seqno full small (
                refused s e (ground (arith, q)) (ground (arith, e, q, h)) (ground (arith, e, q, h)))
          | inr q ↦ elim (Bool-cases (ltb s.length (length content))) [
            | inl g ↦ Updated-next hash stream content seqno s e (ground (arith, g)) (
                update_tcp_reassemble_stream-Updated fuel stream (drop s.length content)
                  (u32 (seqno + s.length)) (ground (arith, g, length-drop s.length content))
                  (omega arith) room (ground (arith, e, q, g, h)))
            | inr g ↦ Updated-here hash stream content seqno full small (
                known s e (ground (arith, q, g)) (ground (arith, e, q, g, h))
                  (ground (arith, e, q, g, h)))
          ]
        ]
      ]
