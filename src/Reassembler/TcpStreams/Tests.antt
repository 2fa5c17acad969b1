-- ===== src/Reassembler/TcpStreams/Tests.antt =====
-- A second packet of a TCP stream that is in the table.
use https_github_com_open_li.Prelude.{ℕ, ◌≡◌, refl, false, some, List, [], ◌∷◌, arith, replicate}
use https_github_com_open_li.Uthash.{hash_add}
use https_github_com_open_li.Reassembler.Segment.{TcpStream, create_new_tcp_reassemble_stream}
use https_github_com_open_li.Reassembler.TcpStreams.{
  TcpReassembler, TcpHeader, purge_inactive_tcp_streams, get_tcp_reassemble_stream,
}
use https_github_com_open_li.Reassembler.TcpStreams.Forgets.{get_tcp_reassemble_stream-forgets}

abbrev id : List ℕ
id = replicate 40 7

abbrev pointer : List ℕ
pointer = replicate 8 128

abbrev table : TcpReassembler
table = record { knownstreams = create_new_tcp_reassemble_stream id 99 ∷ []; nextpurge = 0 }

abbrev data_packet : TcpHeader
data_packet = record { seq = 150; syn = false; fin = false; rst = false }

get_tcp_reassemble_stream-forgets_example :
    (new : TcpStream) × (get_tcp_reassemble_stream table pointer id data_packet 1000 50 ≡ (
      some new,
      record (purge_inactive_tcp_streams table 1000) {
        knownstreams = hash_add new (purge_inactive_tcp_streams table 1000).knownstreams;
      },
    ))
    × (new.streamid ≡ id)
    × (new.segments ≡ [])
    × (new.expectedseqno ≡ 150)
unfolding create_new_tcp_reassemble_stream
get_tcp_reassemble_stream-forgets_example =
    get_tcp_reassemble_stream-forgets table pointer id data_packet 1000 50 (refl, tt) refl refl
      (omega arith)
