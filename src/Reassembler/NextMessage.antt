-- ===== src/Reassembler/NextMessage.antt =====
-- `get_next_tcp_reassembled` of collector/reassembler.c: the next SIP message of a TCP stream.
-- `sorter` is the sort of uthash, and `mem n` says whether a `realloc` of n bytes succeeds.
pub mod Loop
pub mod Messages
pub mod Split
pub mod Ends
mod Tests
use https_github_com_open_li.Prelude.{
  ℕ, suc, ◌+◌, ◌-◌, ◌*◌, Bool, true, false, ◌||◌, Option, none, some, List, [], ◌∷◌, ◌++◌,
  if◌then◌else◌, ltb, ◌==◌, Outcome, done, aborted, out_of_fuel, length, take, drop,
}
use https_github_com_open_li.Prelude.Int.{ℤ, pos, negsuc}
use https_github_com_open_li.Uthash.{Sorter}
use https_github_com_open_li.Reassembler.Seq.{seq_cmp, is_negative, is_positive}
use https_github_com_open_li.Reassembler.Sip.{find_sip_message_end}
use https_github_com_open_li.Reassembler.Segment.{
  u16, u32, TcpSegment, TcpStream, Ret, failed, pending, ready, tcpseg_sort,
  update_tcp_reassemble_stream,
}

-- memcpy of `bytes` to offset `off` of a buffer
abbrev pub write_at : ℕ → List ℕ → List ℕ → List ℕ
write_at off bytes buf = take off buf ++ bytes ++ drop (off + length bytes) buf

-- `*content` (`none` is NULL) and `*len`
pub record Output : Type 0 where
  pub content : Option (List ℕ)
  pub len : ℕ

abbrev pub buffer : Option (List ℕ) → List ℕ
buffer none = []
buffer (some b) = b

-- the test before `realloc`
abbrev pub must_grow : Output → ℕ → ℕ → Bool
must_grow out contused n = elim out.content [ none ↦ true | some _ ↦ ltb out.len (contused + n) ]

-- `realloc` keeps the bytes that fit; `none` when it fails
pub make_room : (ℕ → Bool) → Output → ℕ → ℕ → Option Output
make_room mem out contused n =
    let size = contused + n * 2 in
    let grown : Output = record {
      content = some (take size (buffer out.content));
      len = u16 size;
    } in
    if must_grow out contused n then (if mem size then some grown else none) else some out

-- the bytes of a segment that have not been used
abbrev pub unused : TcpSegment → List ℕ
unused s = take s.length (drop s.offset s.content)

pub copy_segment : Output → ℕ → TcpSegment → Output
copy_segment out contused s = record out {
  content = some (write_at contused (unused s) (buffer out.content));
}

-- How the loop ends: with a message, at a failed `realloc`, or with `contused` bytes copied and no
-- message in them.
pub data Scan : Type 0 where
  message : TcpStream → Output → Scan
  no_memory : TcpStream → Output → Scan
  waiting : TcpStream → Output → ℕ → ℕ → Scan

-- a message that ends `used` bytes into the segment `s`, in front of the segments `rest`
pub use_segment : TcpStream → TcpSegment → List TcpSegment → Output → ℕ → ℕ → Scan
use_segment stream s rest out contused used =
    if s.length == used
    then message
        (record stream { expectedseqno = u32 (stream.expectedseqno + used); segments = rest })
        (record out { len = u16 (contused + s.length) })
    else message
        (record stream {
          expectedseqno = u32 (stream.expectedseqno + used);
          segments =
              record s {
                seqno = u32 (s.seqno + used);
                offset = u16 (s.offset + used);
                length = s.length - used;
              }
              ∷ rest;
        })
        (record out { len = u16 (contused + used) })

-- the assertions on `endfound`, both about the segment that was copied last
pub take_message : TcpStream → TcpSegment → List TcpSegment → Output → ℕ → ℤ → Outcome Scan
unfolding use_segment
take_message stream s rest out contused (negsuc e) = aborted
take_message stream s rest out contused (pos e) =
    if ltb s.length e
    then aborted
    else if e == 0
    then aborted
    else done (use_segment stream s rest out contused e)

module _ (mem : ℕ → Bool) where
  -- The loop over the sorted segments; those in front of the ones left have been deleted.
  pub scan : TcpStream → List TcpSegment → Output → ℕ → ℕ → Outcome Scan
  unfolding make_room copy_segment take_message
  scan stream [] out contused expseqno =
      done (waiting (record stream { segments = [] }) out contused expseqno)
  scan stream (s ∷ rest) out contused expseqno = elim (is_negative (seq_cmp s.seqno expseqno)) [
    | true ↦ scan stream rest out contused expseqno
    | false ↦ elim (is_positive (seq_cmp s.seqno expseqno)) [
      | true ↦ done (waiting (record stream { segments = s ∷ rest }) out contused expseqno)
      | false ↦ elim (make_room mem out contused s.length) [
        | none ↦ done (
            no_memory (record stream { segments = s ∷ rest })
              (record { content = none; len = u16 (contused + s.length * 2) }))
        | some grown ↦
            let out' = copy_segment grown contused s in
            elim (find_sip_message_end (take s.length (drop contused (buffer out'.content)))) [
              | aborted ↦ aborted
              | out_of_fuel ↦ out_of_fuel
              | done found ↦ elim found [
                | some e ↦ take_message stream s rest out' contused e
                | none ↦
                    scan stream rest out' (u16 (contused + s.length)) (u32 (expseqno + s.length))
              ]
            ]
      ]
    ]
  ]

pub sort_segments : Sorter TcpSegment → TcpStream → TcpStream
sort_segments sorter stream =
    if stream.sorted
    then stream
    else record stream { segments = sorter.sort tcpseg_sort stream.segments; sorted = true }

-- the value returned, `*content` with `*len`, and the stream
abbrev pub Next : Type 0
Next = Ret × Output × TcpStream

abbrev pub put_back : Output → Outcome (Ret × TcpStream) → Outcome Next
put_back out aborted = aborted
put_back out out_of_fuel = out_of_fuel
put_back out (done (_, stream)) = done (pending, record out { len = 0 }, stream)

-- what follows the loop: the bytes that were copied go back as one segment
pub finish : (ℕ → ℕ) → Outcome Scan → Outcome Next
finish hash aborted = aborted
finish hash out_of_fuel = out_of_fuel
finish hash (done (message stream out)) = done (ready, out, stream)
finish hash (done (no_memory stream out)) = done (failed, out, stream)
finish hash (done (waiting stream out contused expseqno)) =
    if ltb 0 contused || ltb stream.expectedseqno expseqno
    then put_back out (
        update_tcp_reassemble_stream hash (suc contused) stream (take contused (buffer out.content))
          stream.expectedseqno)
    else done (pending, record out { len = 0 }, stream)

pub get_next_tcp_reassembled :
    (ℕ → ℕ) → Sorter TcpSegment → (ℕ → Bool) → TcpStream → Output → Outcome Next
get_next_tcp_reassembled hash sorter mem stream out =
    let s = sort_segments sorter stream in finish hash (scan mem s s.segments out 0 s.expectedseqno)
