-- ===== src/Reassembler/TcpStreams.antt =====
-- The table of TCP streams of collector/reassembler.c: finding, adding, purging, removing.
-- `id` is the parameter of `get_tcp_reassemble_stream`, a pointer to the stream id: HASH_FIND is given
-- its address `&id` and the size of a pointer, so the key that it looks for is the bytes of the pointer
-- itself; HASH_ADD_KEYPTR takes the bytes of the id.
pub mod Forgets
mod Tests
use https_github_com_open_li.Prelude.{
  ℕ, ◌+◌, ◌-◌, ◌%◌, Bool, true, false, not, ◌&&◌, ◌||◌, Option, none, some, List, [], ◌∷◌,
  if◌then◌else◌, ltb, ◌==◌,
}
use https_github_com_open_li.Uthash.{bytes_eq, hash_find, hash_add, hash_delete}
use https_github_com_open_li.Reassembler.Segment.{
  u32, TcpState, opening, established, closing, TcpStream, create_new_tcp_reassemble_stream,
}

-- tcp_reassembler_t; its only method is OPENLI_REASSEMBLE_SIP
pub record TcpReassembler : Type 0 where
  pub knownstreams : List TcpStream
  pub nextpurge : ℕ

-- the fields of libtrace_tcp_t that the code reads, in host order
pub record TcpHeader : Type 0 where
  pub seq : ℕ
  pub syn : Bool
  pub fin : Bool
  pub rst : Bool

pub create_new_tcp_reassembler : TcpReassembler
create_new_tcp_reassembler = record { knownstreams = []; nextpurge = 0 }

abbrev pub is_established : TcpState → Bool
is_established established = true
is_established _ = false

abbrev pub is_opening : TcpState → Bool
is_opening opening = true
is_opening _ = false

-- the test of the purge's loop, for the planned time `nextpurge`
pub is_idle : ℕ → TcpStream → Bool
is_idle nextpurge s =
    if not (is_established s.state)
    then ltb s.lastts (u32 (nextpurge + 4294967296 - 300))
    else ltb s.lastts (u32 (nextpurge + 4294967296 - 1800))

pub purge_streams : ℕ → List TcpStream → List TcpStream
unfolding is_idle
purge_streams nextpurge [] = []
purge_streams nextpurge (s ∷ ss) =
    let rest = purge_streams nextpurge ss in if is_idle nextpurge s then rest else s ∷ rest

pub purge_inactive_tcp_streams : TcpReassembler → ℕ → TcpReassembler
unfolding purge_streams
purge_inactive_tcp_streams reass ts =
    if reass.nextpurge == 0
    then record reass { nextpurge = u32 (ts + 300) }
    else if ltb ts reass.nextpurge
    then reass
    else record {
      knownstreams = purge_streams reass.nextpurge reass.knownstreams;
      nextpurge = u32 (ts + 300);
    }

-- a stream that is known, at a further packet with `tcprem` bytes
pub follow : TcpStream → TcpHeader → ℕ → ℕ → TcpStream
follow s tcp ts tcprem =
    let opened =
      if ltb 0 tcprem && not tcp.syn && is_opening s.state then established else s.state in
    let closed = if is_established opened && (tcp.fin || tcp.rst) then closing else opened in
    record s { state = closed; lastts = ts }

-- the change of `existing` in the table
pub follow_known : List ℕ → TcpHeader → ℕ → ℕ → List TcpStream → List TcpStream
unfolding follow
follow_known key tcp ts tcprem [] = []
follow_known key tcp ts tcprem (s ∷ ss) =
    if bytes_eq s.streamid key
    then follow s tcp ts tcprem ∷ ss
    else s ∷ follow_known key tcp ts tcprem ss

-- a stream that is not known
pub new_stream : List ℕ → TcpHeader → TcpStream
new_stream streamid tcp =
    if tcp.syn
    then create_new_tcp_reassemble_stream streamid tcp.seq
    else record (create_new_tcp_reassemble_stream streamid (u32 (tcp.seq + 4294967295))) {
      state = if tcp.fin then closing else established;
    }

-- The stream is returned as it stands in the table; `none` is NULL.
pub get_tcp_reassemble_stream :
    TcpReassembler → List ℕ → List ℕ → TcpHeader → ℕ → ℕ → Option TcpStream × TcpReassembler
unfolding follow_known new_stream purge_inactive_tcp_streams
get_tcp_reassemble_stream reass pointer streamid tcp ts tcprem =
    elim (hash_find (λ s. bytes_eq s.streamid pointer) reass.knownstreams) [
      | some existing ↦ (
        some (follow existing tcp ts tcprem),
        purge_inactive_tcp_streams
            (record reass { knownstreams = follow_known pointer tcp ts tcprem reass.knownstreams })
            ts,
      )
      | none ↦
          if tcp.rst
          then (none, reass)
          else (let purged = purge_inactive_tcp_streams reass ts in
              let new = record (new_stream streamid tcp) { lastts = ts } in
              (some new, record purged { knownstreams = hash_add new purged.knownstreams }))
    ]

pub remove_tcp_reassemble_stream : TcpReassembler → TcpStream → TcpReassembler
remove_tcp_reassemble_stream reass stream = record reass {
  knownstreams = hash_delete (λ s. bytes_eq s.streamid stream.streamid) reass.knownstreams;
}
