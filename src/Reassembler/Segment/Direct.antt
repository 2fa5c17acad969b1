-- ===== src/Reassembler/Segment/Direct.antt =====
-- The fast path of `update_tcp_reassemble_stream`: a segment that is one whole message.
use https_github_com_open_li.Prelude.{
  ℕ, suc, ◌≡◌, refl, ap, ◌∙◌, none, some, List, [], ◌++◌, arith, done, length, length-append,
}
use https_github_com_open_li.Prelude.Int.{pos}
use https_github_com_open_li.Uthash.{hash_find}
use https_github_com_open_li.Reassembler.Seq.{seq_cmp}
use https_github_com_open_li.Reassembler.Sip.{find_sip_message_end}
use https_github_com_open_li.Reassembler.Sip.Framing.{Header, find_sip_message_end-Header}
use https_github_com_open_li.Reassembler.Segment.{
  TcpStream, ready, accept, add_segment, find_segment, update_tcp_reassemble_stream,
}
use https_github_com_open_li.Reassembler.Segment.Update.{taken}

find_segment-nil : (hash : ℕ → ℕ) (seqno : ℕ) → find_segment hash seqno [] ≡ none
unfolding find_segment hash_find
find_segment-nil hash seqno = refl

add_segment-message :
    (stream : TcpStream) (content : List ℕ)
    → find_sip_message_end content ≡ done (some (pos (length content)))
    → add_segment stream content stream.expectedseqno ≡ done (ready, taken stream content)
unfolding add_segment accept seq_cmp
add_segment-message stream content h = ground (arith, h)

-- A segment at the expected number that no stored one shares, and that is exactly one message, is left
-- to the caller; nothing is stored, and the stream expects the byte behind it next.
pub update_tcp_reassemble_stream-message :
    (hash : ℕ → ℕ) (fuel : ℕ) (stream : TcpStream) (head body : List ℕ)
    → Header head (length body)
    → find_segment hash stream.expectedseqno stream.segments ≡ none
    → update_tcp_reassemble_stream hash (suc fuel) stream (head ++ body) stream.expectedseqno
      ≡ done (ready, taken stream (head ++ body))
unfolding update_tcp_reassemble_stream
update_tcp_reassemble_stream-message hash fuel stream head body header unknown =
    let found : find_sip_message_end (head ++ body) ≡ done (some (pos (length (head ++ body)))) =
      find_sip_message_end-Header head (length body) body header
      ∙ ground (arith, length-append head body) in
    rw (unknown, update_tcp_reassemble_stream) (add_segment-message stream (head ++ body) found)

pub update_tcp_reassemble_stream-first :
    (hash : ℕ → ℕ) (fuel : ℕ) (stream : TcpStream) (head body : List ℕ)
    → Header head (length body)
    → stream.segments ≡ []
    → update_tcp_reassemble_stream hash (suc fuel) stream (head ++ body) stream.expectedseqno
      ≡ done (ready, taken stream (head ++ body))
update_tcp_reassemble_stream-first hash fuel stream head body header empty =
    update_tcp_reassemble_stream-message hash fuel stream head body header (
      ap (find_segment hash stream.expectedseqno) empty
      ∙ find_segment-nil hash stream.expectedseqno)
