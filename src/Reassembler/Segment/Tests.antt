-- ===== src/Reassembler/Segment/Tests.antt =====
-- Runs of the TCP updates, and their theorems at a stream with one segment.
use mathlib.Core.List.{mem-cons, not-mem-nil}
use mathlib.Core.Logic.Or
use https_github_com_open_li.Prelude.{
  ℕ, ◌≡◌, ◌≢◌, sym, subst, false, List, [], ◌∷◌, ◌++◌, arith, done, out_of_fuel,
}
use https_github_com_open_li.Uthash.{hash_find}
use https_github_com_open_li.Reassembler.Seq.{seq_cmp}
use https_github_com_open_li.Reassembler.Sip.Example.{body_start, body_end, body_end-no_message}
use https_github_com_open_li.Reassembler.Segment.{
  TcpSegment, TcpStream, pending, established, find_segment, accept, add_segment,
  update_tcp_reassemble_stream,
}
use https_github_com_open_li.Reassembler.Segment.Update.{
  Updated, with_segment, update_tcp_reassemble_stream-Updated,
}
use https_github_com_open_li.Reassembler.Segment.Stored.{
  IsStored, IsStored-prop, AllStored, update_tcp_reassemble_stream-ends,
  update_tcp_reassemble_stream-AllStored,
}

abbrev hash : ℕ → ℕ
hash n = n

abbrev stored : TcpSegment
stored = record { seqno = 100; offset = 0; length = 2; content = body_start; hashed = 100 }

abbrev stream : TcpStream
stream = record {
  streamid = [];
  lastts = 0;
  expectedseqno = 100;
  segments = stored ∷ [];
  sorted = false;
  state = established;
}

-- the stored bytes again, with two more behind them
abbrev longer : List ℕ
longer = body_start ++ body_end

-- the new bytes are added
abbrev after : TcpStream
after = with_segment stream body_end 102

body_end_added : add_segment stream body_end 102 ≡ done (pending, after)
unfolding add_segment accept seq_cmp
body_end_added = ground (arith, body_end-no_message)

longer_added : update_tcp_reassemble_stream hash 5 stream longer 100 ≡ done (pending, after)
unfolding update_tcp_reassemble_stream find_segment hash_find
longer_added = body_end_added

stream-AllStored : AllStored stream.segments
stream-AllStored s m =
    Or.elim (IsStored-prop s) (mem-cons.0 m)
      (λ e. subst IsStored (sym e) (record {
        some_left = omega arith;
        held = omega arith;
        fits = omega arith;
        number = omega arith;
      }))
      (λ n. absurd (not-mem-nil n))

update_tcp_reassemble_stream-Updated_example : Updated hash stream longer 100 pending after
update_tcp_reassemble_stream-Updated_example =
    update_tcp_reassemble_stream-Updated hash 5 stream longer 100 {r = pending} {after = after}
      (omega arith) (omega arith) (omega arith) longer_added

update_tcp_reassemble_stream-ends_example :
    update_tcp_reassemble_stream hash 5 stream longer 100 ≢ out_of_fuel
update_tcp_reassemble_stream-ends_example =
    update_tcp_reassemble_stream-ends hash 5 stream longer 100 stream-AllStored (omega arith)

update_tcp_reassemble_stream-AllStored_example : AllStored after.segments
update_tcp_reassemble_stream-AllStored_example =
    update_tcp_reassemble_stream-AllStored hash 5 stream longer 100 {r = pending} {after = after}
      (omega arith) (omega arith) (omega arith) (omega arith) stream-AllStored longer_added
