-- ===== src/Reassembler/TcpStreams/Forgets.antt =====
-- What `get_tcp_reassemble_stream` really returns.
use https_github_com_open_li.Prelude.{
  ℕ, suc, ◌+◌, ◌<◌, ◌≡◌, ◌≢◌, refl, ap, false, none, some, List, [], ◌∷◌, arith, length,
  if◌then◌else◌,
}
use https_github_com_open_li.Uthash.{bytes_eq, hash_find, hash_add}
use https_github_com_open_li.Reassembler.Segment.{u32, TcpStream, create_new_tcp_reassemble_stream}
use https_github_com_open_li.Reassembler.TcpStreams.{
  TcpReassembler, TcpHeader, purge_inactive_tcp_streams, new_stream, get_tcp_reassemble_stream,
}

-- every stream is keyed by the bytes of a tcp_streamid_t: two addresses of 16 bytes, two ports and an
-- int
abbrev pub KeyedByIds : List TcpStream → Type 0
KeyedByIds [] = Unit
KeyedByIds (s ∷ l) = (length s.streamid ≡ 40) × KeyedByIds l

bytes_eq-length : (j k : List ℕ) → length j ≢ length k → bytes_eq j k ≡ false
bytes_eq-length [] [] h = absurd (h refl)
bytes_eq-length [] (y ∷ k) h = refl
bytes_eq-length (x ∷ j) [] h = refl
bytes_eq-length (x ∷ j) (y ∷ k) h = ground (arith, bytes_eq-length j k (λ e. h (ap suc e)))

find-pointer :
    (pointer : List ℕ) (l : List TcpStream)
    → KeyedByIds l
    → length pointer ≡ 8
    → hash_find (λ (s : TcpStream). bytes_eq s.streamid pointer) l ≡ none
unfolding hash_find
find-pointer pointer [] k h = refl
find-pointer pointer (s ∷ l) k h =
    rw (bytes_eq-length s.streamid pointer (omega arith)) (find-pointer pointer l k.1 h)

-- A packet without RST never gets a stream that is in the table, not even its own: it is given a new
-- one, with no segments, that expects the byte behind a SYN or the first byte of the packet, and that
-- is added to the table beside the old ones.
pub get_tcp_reassemble_stream-forgets :
    (reass : TcpReassembler) (pointer streamid : List ℕ) (tcp : TcpHeader) (ts tcprem : ℕ)
    → KeyedByIds reass.knownstreams
    → length pointer ≡ 8
    → tcp.rst ≡ false
    → tcp.seq < 4294967296
    → (new : TcpStream) × (get_tcp_reassemble_stream reass pointer streamid tcp ts tcprem ≡ (
      some new,
      record (purge_inactive_tcp_streams reass ts) {
        knownstreams = hash_add new (purge_inactive_tcp_streams reass ts).knownstreams;
      },
    ))
      × (new.streamid ≡ streamid)
      × (new.segments ≡ [])
      × (new.expectedseqno ≡ (if tcp.syn then u32 (tcp.seq + 1) else tcp.seq))
unfolding get_tcp_reassemble_stream create_new_tcp_reassemble_stream
get_tcp_reassemble_stream-forgets reass pointer streamid tcp ts tcprem keyed address live small =
    let unknown = find-pointer pointer reass.knownstreams keyed address in
    let u : u32 (u32 (tcp.seq + 4294967295) + 1) ≡ tcp.seq = omega arith in
    (
      record (new_stream streamid tcp) { lastts = ts },
      rw (unknown, live, get_tcp_reassemble_stream),
      ground arith,
      ground arith,
      ground (arith, u),
    )
