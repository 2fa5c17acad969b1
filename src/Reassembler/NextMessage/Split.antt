-- ===== src/Reassembler/NextMessage/Split.antt =====
-- What becomes of a message that arrives in two segments.
use https_github_com_open_li.Prelude.{
  ℕ, suc, ◌+◌, ◌<◌, ◌≡◌, refl, ap, ap₂, sym, subst, ◌∙◌, Bool, none, List, [], ◌∷◌, ◌++◌,
  append_assoc, arith, done, length, take, length-append,
}
use https_github_com_open_li.Uthash.{Sorter}
use https_github_com_open_li.Reassembler.Sip.{memmem, sip_end_sequence, find_sip_message_end}
use https_github_com_open_li.Reassembler.Sip.Framing.{
  Header, find_sip_message_end-Header, find_sip_message_end-no_blank,
}
use https_github_com_open_li.Reassembler.Segment.{
  u16, u32, TcpSegment, TcpStream, Ret, pending, update_tcp_reassemble_stream,
}
use https_github_com_open_li.Reassembler.Segment.Update.{taken}
use https_github_com_open_li.Reassembler.Segment.Direct.{update_tcp_reassemble_stream-first}
use https_github_com_open_li.Reassembler.Segment.Stored.{IsStored}
use https_github_com_open_li.Reassembler.NextMessage.{
  Output, buffer, unused, waiting, scan, sort_segments, finish, get_next_tcp_reassembled,
}
use https_github_com_open_li.Reassembler.NextMessage.Loop.{Plentiful, Front, scan-on}
use https_github_com_open_li.Reassembler.NextMessage.Messages.{length-unused}

abbrev emptied : TcpStream → TcpStream
emptied stream = record stream { segments = [] }

scan-nil :
    (mem : ℕ → Bool) (stream : TcpStream) (out : Output) (contused expseqno : ℕ)
    → scan mem stream [] out contused expseqno
      ≡ done (waiting (emptied stream) out contused expseqno)
unfolding scan
scan-nil mem stream out contused expseqno = refl

-- Two segments without a message of their own are copied one behind the other.
scan-two :
    (mem : ℕ → Bool) (stream : TcpStream) (s t : TcpSegment) (out : Output)
    → Plentiful mem
    → IsStored s
    → IsStored t
    → t.seqno ≡ u32 (s.seqno + s.length)
    → s.length + t.length < 65536
    → find_sip_message_end (unused s) ≡ done none
    → find_sip_message_end (unused t) ≡ done none
    → (out' : Output) × Front (unused s ++ unused t) out'
      × (scan mem stream (s ∷ t ∷ []) out 0 s.seqno
          ≡ done (
              waiting
                (emptied stream)
                out'
                (length (unused s ++ unused t))
                (u32 (t.seqno + t.length))))
scan-two mem stream s t out big hs ht behind room fs ft =
    let ns = length-unused s hs in
    let nt = length-unused t ht in
    let (out1, front1, step1) = scan-on mem stream s (t ∷ []) out [] big refl ns fs in
    let (out2, front2, step2) = scan-on mem stream t [] out1 (unused s) big front1 nt ft in
    let c : u16 (0 + s.length) ≡ length (unused s) = omega (arith, ns) in
    let d : u16 (length (unused s) + t.length) ≡ length (unused s ++ unused t) =
      omega (arith, ns, nt, length-append (unused s) (unused t)) in
    (
      out2,
      front2,
      step1
          ∙ ap₂ (λ k q. scan mem stream (t ∷ []) out1 k q) c (sym behind)
          ∙ step2
          ∙ ap (λ k. scan mem stream [] out2 k (u32 (t.seqno + t.length))) d
          ∙ scan-nil mem stream out2 (length (unused s ++ unused t)) (u32 (t.seqno + t.length)),
    )

finish-waiting :
    (hash : ℕ → ℕ) (stream : TcpStream) (out : Output) (contused expseqno : ℕ) {r : Ret}
    {after : TcpStream}
    → 0 < contused
    → update_tcp_reassemble_stream hash
        (suc contused)
        stream
        (take contused (buffer out.content))
        stream.expectedseqno
      ≡ done (r, after)
    → finish hash (done (waiting stream out contused expseqno))
      ≡ done (pending, record out { len = 0 }, after)
unfolding finish
finish-waiting hash stream out contused expseqno some_copied e = ground (arith, e)

-- When exactly two segments are stored, each with bytes left, all of them inside a content of fewer
-- than 65536 bytes, and fewer than 65536 together, the first in the sort order is at the expected
-- number and has the whole header of a message, its Content-Length field shorter than twelve
-- characters, and perhaps some of its body, the second is right behind it, ends exactly where the
-- body ends and has no blank line, and memory suffices, the message is lost: the call returns no
-- message, no segment is kept, and the stream expects the byte behind the message.
pub get_next-split_message_lost :
    (hash : ℕ → ℕ) (sorter : Sorter TcpSegment) (mem : ℕ → Bool) (stream : TcpStream) (out : Output)
    (s t : TcpSegment) (head part tail : List ℕ)
    → Plentiful mem
    → (sort_segments sorter stream).segments ≡ s ∷ t ∷ []
    → s.seqno ≡ stream.expectedseqno
    → t.seqno ≡ u32 (s.seqno + s.length)
    → IsStored s
    → IsStored t
    → s.length + t.length < 65536
    → unused s ≡ head ++ part
    → unused t ≡ tail
    → Header head (length part + length tail)
    → memmem tail sip_end_sequence ≡ none
    → (out' : Output) × (stream' : TcpStream) × (get_next_tcp_reassembled hash sorter mem stream out
        ≡ done (pending, out', stream'))
      × (out'.len ≡ 0)
      × (stream'.segments ≡ [])
      × (stream'.expectedseqno ≡ u32 (stream.expectedseqno + length (head ++ part ++ tail)))
unfolding get_next_tcp_reassembled finish
get_next-split_message_lost hash sorter mem stream out s t head part tail big order number behind hs
      ht room bs bt header blank =
    let sorted = sort_segments sorter stream in
    let same : sorted.expectedseqno ≡ stream.expectedseqno = unfold sort_segments in ground arith in
    let ns = length-unused s hs in
    let nt = length-unused t ht in
    let fs : find_sip_message_end (unused s) ≡ done none =
      ap find_sip_message_end bs
      ∙ find_sip_message_end-Header head (length part + length tail) part header
      ∙ ground (arith, nt, ht.some_left, ap length bt) in
    let ft : find_sip_message_end (unused t) ≡ done none =
      ap find_sip_message_end bt ∙ find_sip_message_end-no_blank tail blank in
    let (out2, front, step) = scan-two mem sorted s t out big hs ht behind room fs ft in
    let whole : unused s ++ unused t ≡ head ++ (part ++ tail) =
      ap₂ ◌++◌ bs bt ∙ append_assoc head part tail in
    let stored =
      update_tcp_reassemble_stream-first hash (length (unused s ++ unused t)) (emptied sorted) head
        (part ++ tail) (subst (Header head) (sym (length-append part tail)) header) refl in
    (
      record out2 { len = 0 },
      taken (emptied sorted) (head ++ (part ++ tail)),
      ap₂ (λ l k. finish hash (scan mem sorted l out 0 k)) order (same ∙ sym number)
          ∙ ap (finish hash) step
          ∙ finish-waiting hash (emptied sorted) out2 (length (unused s ++ unused t))
              (u32 (t.seqno + t.length))
              (omega (arith, ns, hs.some_left, length-append (unused s) (unused t)))
              (ap
                  (λ b.
                    update_tcp_reassemble_stream hash (suc (length (unused s ++ unused t)))
                      (emptied sorted) b sorted.expectedseqno)
                  (front ∙ whole)
                ∙ stored),
      refl,
      refl,
      ap₂ (λ k (l : List ℕ). u32 (k + length l)) same (sym (append_assoc head part tail)),
    )
