-- ===== src/Reassembler/Segment.antt =====
-- The TCP segment reassembly of collector/reassembler.c, over one stream of segments.
-- A segment is hashed under the sequence number that it is added with (`hashed`): uthash compares the
-- stored hash value before the key, so a segment whose `seqno` changes in the table is found by its
-- new number only where `hash` collides. A content of `plen` bytes is the list of these bytes.
pub mod Update
pub mod Stored
pub mod Direct
mod Tests
use https_github_com_open_li.Prelude.{
  ℕ, zero, suc, ◌+◌, ◌%◌, Bool, true, false, ◌&&◌, ◌||◌, Option, none, some, List, [], ◌∷◌, ◌++◌,
  if◌then◌else◌, ltb, ◌==◌, Outcome, done, aborted, out_of_fuel, length, take, drop,
}
use https_github_com_open_li.Prelude.Int.{ℤ, pos, negsuc}
use https_github_com_open_li.Uthash.{hash_find, hash_add}
use https_github_com_open_li.Reassembler.Seq.{seq_cmp, is_negative, is_zero}
use https_github_com_open_li.Reassembler.Sip.{find_sip_message_end}

abbrev pub u16 : ℕ → ℕ
u16 n = n % 65536

abbrev pub u32 : ℕ → ℕ
u32 n = n % 4294967296

-- tcp_reass_segment_t
pub record TcpSegment : Type 0 where
  pub seqno : ℕ
  pub offset : ℕ
  pub length : ℕ
  pub content : List ℕ
  pub hashed : ℕ

-- TCP_STATE_OPENING, TCP_STATE_ESTAB, TCP_STATE_CLOSING
pub data TcpState : Type 0 where
  opening established closing : TcpState

-- tcp_reassemble_stream_t: the stream id is kept as the bytes of the struct
pub record TcpStream : Type 0 where
  pub streamid : List ℕ
  pub lastts : ℕ
  pub expectedseqno : ℕ
  pub segments : List TcpSegment
  pub sorted : Bool
  pub state : TcpState

-- what the functions return: -1, 0, 1
pub data Ret : Type 0 where
  failed pending ready : Ret

-- the comparison function `tcpseg_sort`
pub tcpseg_sort : TcpSegment → TcpSegment → ℤ
tcpseg_sort a b = seq_cmp a.seqno b.seqno

unfoldable pub create_new_tcp_reassemble_stream : List ℕ → ℕ → TcpStream
create_new_tcp_reassemble_stream streamid synseq = record {
  streamid = streamid;
  lastts = 0;
  expectedseqno = u32 (synseq + 1);
  segments = [];
  sorted = false;
  state = opening;
}

-- `endptr == content + plen`
abbrev pub ends_at : Option ℤ → ℕ → Bool
ends_at none n = false
ends_at (some (pos e)) n = e == n
ends_at (some (negsuc e)) n = false

pub new_segment : List ℕ → ℕ → TcpSegment
new_segment content seqno = record {
  seqno = seqno;
  offset = 0;
  length = length content;
  content = content;
  hashed = seqno;
}

-- the part of `update_tcp_reassemble_stream` behind the search for the message's end
pub accept : TcpStream → List ℕ → ℕ → Outcome (Option ℤ) → Outcome (Ret × TcpStream)
unfolding new_segment
accept stream content seqno aborted = aborted
accept stream content seqno out_of_fuel = out_of_fuel
accept stream content seqno (done endptr) =
    if is_zero (seq_cmp seqno stream.expectedseqno) && ends_at endptr (length content)
    then done (ready, record stream { expectedseqno = u32 (stream.expectedseqno + length content) })
    else done (
      pending,
      record stream {
        segments = hash_add (new_segment content seqno) stream.segments;
        sorted = false;
      },
    )

-- a segment that no stored one has the number of
pub add_segment : TcpStream → List ℕ → ℕ → Outcome (Ret × TcpStream)
unfolding accept
add_segment stream content seqno =
    if is_negative (seq_cmp seqno stream.expectedseqno)
    then done (failed, stream)
    else accept stream content seqno (find_sip_message_end content)

module _ (hash : ℕ → ℕ) where
  pub find_segment : ℕ → List TcpSegment → Option TcpSegment
  find_segment seqno = hash_find (λ s. (hash s.hashed == hash seqno) && (s.seqno == seqno))

  pub update_tcp_reassemble_stream : ℕ → TcpStream → List ℕ → ℕ → Outcome (Ret × TcpStream)
  unfolding add_segment find_segment
  update_tcp_reassemble_stream zero stream content seqno = out_of_fuel
  update_tcp_reassemble_stream (suc fuel) stream content seqno =
      elim (find_segment seqno stream.segments) [
        | none ↦ add_segment stream content seqno
        | some existing ↦ elim (length content == existing.length) [
          | true ↦ done (failed, stream)
          | false ↦ elim (ltb existing.length (length content)) [
            | true ↦
                update_tcp_reassemble_stream fuel stream (drop existing.length content)
                  (u32 (seqno + existing.length))
            | false ↦ done (pending, stream)
          ]
        ]
      ]
