-- ===== src/Reassembler/NextMessage/Ends.antt =====
-- `get_next_tcp_reassembled` ends: putting bytes back cannot run for ever.
use mathlib.Core.List.{mem-cons_of_mem, not-mem-nil}
use mathlib.Core.List.Perm
use https_github_com_open_li.Prelude.{
  ℕ, suc, ◌+◌, ◌≡◌, ◌≢◌, refl, Bool, none, some, List, [], ◌∷◌, arith, Outcome, done, aborted,
  out_of_fuel, ltb, ◌||◌, take, drop, length-take, Bool-cases, Option-cases, inl, inr, ◌⊎◌,
}
use https_github_com_open_li.Prelude.Int.{ℤ, pos, negsuc}
use https_github_com_open_li.Uthash.{Sorter}
use https_github_com_open_li.Reassembler.Seq.{seq_cmp, is_negative, is_positive}
use https_github_com_open_li.Reassembler.Sip.{find_sip_message_end}
use https_github_com_open_li.Reassembler.Sip.Framing.{find_sip_message_end-ends}
use https_github_com_open_li.Reassembler.Segment.{u16, u32, TcpSegment, TcpStream, Ret, tcpseg_sort}
use https_github_com_open_li.Reassembler.Segment.Stored.{
  AllStored, update_tcp_reassemble_stream-ends,
}
use https_github_com_open_li.Reassembler.NextMessage.{
  Output, buffer, write_at, unused, Scan, message, no_memory, waiting, make_room, copy_segment,
  use_segment, take_message, scan, sort_segments, put_back, finish, get_next_tcp_reassembled,
}

-- the loop ended, and what it has not looked at is still stored properly
abbrev Kept : Outcome Scan → Type 0
Kept aborted = Unit
Kept out_of_fuel = ⊥
Kept (done (message stream out)) = Unit
Kept (done (no_memory stream out)) = Unit
Kept (done (waiting stream out c e)) = AllStored stream.segments

take_message-Kept :
    (stream : TcpStream) (s : TcpSegment) (rest : List TcpSegment) (out : Output) (c : ℕ) (e : ℤ)
    → Kept (take_message stream s rest out c e)
unfolding take_message use_segment
take_message-Kept stream s rest out c (negsuc e) = tt
take_message-Kept stream s rest out c (pos e) = ground arith

Outcome-cases {ℓ} :
    {A : Type ℓ} (o : Outcome A) → (o ≡ aborted) ⊎ ((o ≡ out_of_fuel) ⊎ ((a : A) × (o ≡ done a)))
Outcome-cases (done a) = inr (inr (a, refl))
Outcome-cases aborted = inl refl
Outcome-cases out_of_fuel = inr (inl refl)

scan-Kept :
    (mem : ℕ → Bool) (stream : TcpStream) (l : List TcpSegment) (out : Output) (c e : ℕ)
    → AllStored l
    → Kept (scan mem stream l out c e)
unfolding scan
scan-Kept mem stream [] out c e h = λ s m. absurd (not-mem-nil m)
scan-Kept mem stream (s ∷ rest) out c e h = elim (Bool-cases (is_negative (seq_cmp s.seqno e))) [
  | inl old ↦ rw (old, scan) (scan-Kept mem stream rest out c e (λ x m. h x (mem-cons_of_mem s m)))
  | inr new ↦
      rw (new, scan)
        (elim (Bool-cases (is_positive (seq_cmp s.seqno e))) [
          | inl later ↦ rw (later, scan) h
          | inr now ↦
              rw (now, scan)
                (elim (Option-cases (make_room mem out c s.length)) [
                  | inl full ↦ rw (full, scan) tt
                  | inr (grown, room) ↦
                      let searched =
                        take s.length (drop c (write_at c (unused s) (buffer grown.content))) in
                      rw (room, scan)
                        (elim (Outcome-cases (find_sip_message_end searched)) [
                          | inl bad ↦ rw (bad, scan) tt
                          | inr (inl loops) ↦ absurd (find_sip_message_end-ends searched loops)
                          | inr (inr (none, nothing)) ↦
                              rw (nothing, scan)
                                (scan-Kept mem stream rest (copy_segment grown c s)
                                  (u16 (c + s.length)) (u32 (e + s.length))
                                  (λ x m. h x (mem-cons_of_mem s m)))
                          | inr (inr (some end, found)) ↦
                              rw (found, scan)
                                (take_message-Kept stream s rest (copy_segment grown c s) c end)
                        ])
                ])
        ])
]

sort_segments-AllStored :
    (sorter : Sorter TcpSegment) (stream : TcpStream)
    → AllStored stream.segments
    → AllStored (sort_segments sorter stream).segments
unfolding sort_segments
sort_segments-AllStored sorter stream h = elim (Bool-cases stream.sorted) [
  | inl e ↦ rw e h
  | inr e ↦ rw e (λ s m. h s ((Perm.mem_iff (sorter.sort-perm tcpseg_sort stream.segments)).0 m))
]

put_back-ends :
    (out : Output) (o : Outcome (Ret × TcpStream)) → o ≢ out_of_fuel → put_back out o ≢ out_of_fuel
put_back-ends out (done (r, stream)) h = cc
put_back-ends out aborted h = cc
put_back-ends out out_of_fuel h = absurd (h refl)

finish-ends : (hash : ℕ → ℕ) (o : Outcome Scan) → Kept o → finish hash o ≢ out_of_fuel
unfolding finish
finish-ends hash aborted h = cc
finish-ends hash out_of_fuel h = absurd h
finish-ends hash (done (message stream out)) h = cc
finish-ends hash (done (no_memory stream out)) h = cc
finish-ends hash (done (waiting stream out c e)) h =
    elim (Bool-cases (ltb 0 c || ltb stream.expectedseqno e)) [
      | inl q ↦ rw q (
          put_back-ends out _ (
            update_tcp_reassemble_stream-ends hash (suc c) stream (take c (buffer out.content))
              stream.expectedseqno h (omega (arith, length-take c (buffer out.content)))))
      | inr q ↦ rw q cc
    ]

-- If every stored segment has bytes left, a call for the next message ends: the bytes that it puts
-- back are never matched against a segment of no bytes.
pub get_next_tcp_reassembled-ends :
    (hash : ℕ → ℕ) (sorter : Sorter TcpSegment) (mem : ℕ → Bool) (stream : TcpStream) (out : Output)
    → AllStored stream.segments
    → get_next_tcp_reassembled hash sorter mem stream out ≢ out_of_fuel
unfolding get_next_tcp_reassembled
get_next_tcp_reassembled-ends hash sorter mem stream out h =
    let s = sort_segments sorter stream in
    finish-ends hash (scan mem s s.segments out 0 s.expectedseqno)
      (scan-Kept mem s s.segments out 0 s.expectedseqno (sort_segments-AllStored sorter stream h))
