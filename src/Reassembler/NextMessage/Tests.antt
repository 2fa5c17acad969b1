-- ===== src/Reassembler/NextMessage/Tests.antt =====
-- The next message of a stream with one segment, and with a message in two segments.
use mathlib.Core.List.{mem-cons, not-mem-nil}
use mathlib.Core.Logic.Or
use https_github_com_open_li.Prelude.{
  ℕ, ◌≡◌, ◌≢◌, refl, sym, subst, true, none, List, [], ◌∷◌, ◌++◌, arith, done, out_of_fuel, take,
}
use https_github_com_open_li.Uthash.{Sorter}
use https_github_com_open_li.Uthash.Insertion.{insertion_sorter}
use https_github_com_open_li.Reassembler.Sip.Example.{
  header, body_start, body_end, header-Header, body_end-no_blank,
}
use https_github_com_open_li.Reassembler.Segment.{
  TcpSegment, TcpStream, pending, ready, established,
}
use https_github_com_open_li.Reassembler.Segment.Stored.{IsStored, IsStored-prop, AllStored}
use https_github_com_open_li.Reassembler.NextMessage.{
  Output, buffer, sort_segments, get_next_tcp_reassembled,
}
use https_github_com_open_li.Reassembler.NextMessage.Messages.{held_bytes, get_next-whole_message}
use https_github_com_open_li.Reassembler.NextMessage.Split.{get_next-split_message_lost}
use https_github_com_open_li.Reassembler.NextMessage.Ends.{get_next_tcp_reassembled-ends}

abbrev hash : ℕ → ℕ
hash n = n

abbrev sorter : Sorter TcpSegment
sorter = insertion_sorter TcpSegment

abbrev nothing : Output
nothing = record { content = none; len = 0 }

-- a message and the first bytes of the next one
abbrev whole : TcpSegment
whole = record {
  seqno = 100;
  offset = 0;
  length = 27;
  content = header ++ body_start ++ body_end ++ 73 ∷ 78 ∷ [];
  hashed = 100;
}

abbrev of_segments : List TcpSegment → TcpStream
of_segments l = record {
  streamid = [];
  lastts = 0;
  expectedseqno = 100;
  segments = l;
  sorted = true;
  state = established;
}

whole-IsStored : IsStored whole
whole-IsStored = record {
  some_left = omega arith;
  held = omega arith;
  fits = omega arith;
  number = omega arith;
}

get_next-whole_message_example :
    (out' : Output) × (stream' : TcpStream) × (get_next_tcp_reassembled hash sorter
        (λ n. true)
        (of_segments (whole ∷ []))
        nothing
      ≡ done (ready, out', stream'))
    × (take out'.len (buffer out'.content) ≡ header ++ body_start ++ body_end)
    × (held_bytes stream'.segments ≡ 73 ∷ 78 ∷ [])
    × (stream'.expectedseqno ≡ 125)
unfolding sort_segments
get_next-whole_message_example =
    get_next-whole_message hash sorter (λ n. true) (of_segments (whole ∷ [])) nothing (λ n. refl)
      whole [] header (body_start ++ body_end ++ 73 ∷ 78 ∷ []) 4 refl refl whole-IsStored refl
      header-Header (omega arith)

whole-AllStored : AllStored (whole ∷ [])
whole-AllStored s m =
    Or.elim (IsStored-prop s) (mem-cons.0 m) (λ e. subst IsStored (sym e) whole-IsStored)
      (λ n. absurd (not-mem-nil n))

get_next_tcp_reassembled-ends_example :
    get_next_tcp_reassembled hash sorter (λ n. true) (of_segments (whole ∷ [])) nothing
    ≢ out_of_fuel
get_next_tcp_reassembled-ends_example =
    get_next_tcp_reassembled-ends hash sorter (λ n. true) (of_segments (whole ∷ [])) nothing
      whole-AllStored

-- the same message, cut inside its body
abbrev front : TcpSegment
front = record {
  seqno = 100;
  offset = 0;
  length = 23;
  content = header ++ body_start;
  hashed = 100;
}

abbrev back : TcpSegment
back = record { seqno = 123; offset = 0; length = 2; content = body_end; hashed = 123 }

front-IsStored : IsStored front
front-IsStored = record {
  some_left = omega arith;
  held = omega arith;
  fits = omega arith;
  number = omega arith;
}

back-IsStored : IsStored back
back-IsStored = record {
  some_left = omega arith;
  held = omega arith;
  fits = omega arith;
  number = omega arith;
}

get_next-split_message_lost_example :
    (out' : Output) × (stream' : TcpStream) × (get_next_tcp_reassembled hash sorter
        (λ n. true)
        (of_segments (front ∷ back ∷ []))
        nothing
      ≡ done (pending, out', stream'))
    × (out'.len ≡ 0)
    × (stream'.segments ≡ [])
    × (stream'.expectedseqno ≡ 125)
unfolding sort_segments
get_next-split_message_lost_example =
    get_next-split_message_lost hash sorter (λ n. true) (of_segments (front ∷ back ∷ [])) nothing
      front back header body_start body_end (λ n. refl) refl refl refl front-IsStored back-IsStored
      (omega arith) refl refl header-Header body_end-no_blank
