-- ===== src/Reassembler/IpStreams/Unique.antt =====
-- The table of fragment streams never holds two streams with one id.
use https_github_com_open_li.Prelude.{
  ℕ, ◌+◌, ◌-◌, ◌≡◌, inl, inr, refl, ap, sym, ◌∙◌, false, Option, none, some, List, [], ◌∷◌, ◌++◌,
  arith, Option-cases, Bool-cases,
}
use https_github_com_open_li.Uthash.{bytes_eq, hash_find, hash_delete}
use https_github_com_open_li.Uthash.Keys.{bytes_eq-eq, bytes_eq_comm}
use https_github_com_open_li.Reassembler.Fragment.{IpStream, create_new_ipfrag_reassemble_stream}
use https_github_com_open_li.Reassembler.IpStreams.{
  IpReassembler, u32, has_id, touch, purge_streams, purge_inactive_ip_streams,
  get_ipfrag_reassemble_stream, remove_ipfrag_reassemble_stream,
}
use https_github_com_open_li.Reassembler.IpStreams.Table.{
  find, find-purge_none, find-purge_inactive_none, find-add, get_known, get_unknown, touched,
  new_stream,
}

abbrev pub UniqueIds : List IpStream → Type 0
UniqueIds [] = Unit
UniqueIds (s ∷ l) = (find s.streamid l ≡ none) × UniqueIds l

purge-UniqueIds : (limit : ℕ) (l : List IpStream) → UniqueIds l → UniqueIds (purge_streams limit l)
unfolding purge_streams
purge-UniqueIds limit [] u = tt
purge-UniqueIds limit (s ∷ l) u =
    ground (arith, purge-UniqueIds limit l u.1, find-purge_none s.streamid limit l u.0)

purge_inactive-UniqueIds :
    (reass : IpReassembler) (ts : ℕ)
    → UniqueIds reass.knownstreams
    → UniqueIds (purge_inactive_ip_streams reass ts).knownstreams
unfolding purge_inactive_ip_streams
purge_inactive-UniqueIds reass ts u =
    ground (arith, purge-UniqueIds (u32 (reass.nextpurge + 4294967296 - 300)) reass.knownstreams u)

find-touch-none :
    (id j : List ℕ) (ts : ℕ) (l : List IpStream) → find j l ≡ none → find j (touch id ts l) ≡ none
unfolding hash_find touch has_id
find-touch-none id j ts [] h = refl
find-touch-none id j ts (s ∷ l) h = ground (arith, find-touch-none id j ts l)

touch-UniqueIds :
    (id : List ℕ) (ts : ℕ) (l : List IpStream) → UniqueIds l → UniqueIds (touch id ts l)
unfolding touch
touch-UniqueIds id ts [] u = tt
touch-UniqueIds id ts (s ∷ l) u =
    ground (arith, touch-UniqueIds id ts l u.1, find-touch-none id s.streamid ts l u.0)

append-UniqueIds :
    (l : List IpStream) (s : IpStream)
    → UniqueIds l
    → find s.streamid l ≡ none
    → UniqueIds (l ++ s ∷ [])
unfolding hash_find has_id
append-UniqueIds [] s u h = (refl, tt)
append-UniqueIds (t ∷ l) s u h = ground (
  arith,
  append-UniqueIds l s u.1,
  find-add t.streamid s l,
  u.0,
  bytes_eq_comm s.streamid t.streamid,
)

-- Assigning a fragment to a stream keeps the ids of the streams distinct.
pub get_ipfrag_reassemble_stream-UniqueIds :
    (reass : IpReassembler) (ipid : Option (List ℕ)) (proto ts : ℕ)
    → UniqueIds reass.knownstreams
    → UniqueIds (get_ipfrag_reassemble_stream reass ipid proto ts).1.knownstreams
unfolding get_ipfrag_reassemble_stream create_new_ipfrag_reassemble_stream
get_ipfrag_reassemble_stream-UniqueIds reass none proto ts u = u
get_ipfrag_reassemble_stream-UniqueIds reass (some ipid) proto ts u =
    elim (Option-cases (find ipid reass.knownstreams)) [
      | inl e ↦
          let purged = purge_inactive_ip_streams reass ts in
          rw (get_unknown reass ipid proto ts e) (
            append-UniqueIds purged.knownstreams (new_stream ipid proto ts)
              (purge_inactive-UniqueIds reass ts u) (find-purge_inactive_none reass ts ipid e))
      | inr (s, e) ↦ rw (get_known reass ipid proto ts e) (
          purge_inactive-UniqueIds (touched reass ipid ts) ts
            (touch-UniqueIds ipid ts reass.knownstreams u))
    ]

find-delete :
    (id : List ℕ) (l : List IpStream) → UniqueIds l → find id (hash_delete (has_id id) l) ≡ none
unfolding hash_find hash_delete has_id
find-delete id [] u = refl
find-delete id (s ∷ l) u = elim (Bool-cases (bytes_eq s.streamid id)) [
  | inl e ↦ rw e (ap (λ k. find k l) (sym (bytes_eq-eq s.streamid id e)) ∙ u.0)
  | inr e ↦ rw (e, e) (find-delete id l u.1)
]

find-delete_ne :
    (id j : List ℕ) (l : List IpStream)
    → bytes_eq id j ≡ false
    → find j (hash_delete (has_id id) l) ≡ find j l
unfolding hash_find hash_delete has_id
find-delete_ne id j [] ne = refl
find-delete_ne id j (s ∷ l) ne = elim (Bool-cases (bytes_eq s.streamid id)) [
  | inl e ↦
      let q : bytes_eq s.streamid j ≡ false =
        ap (λ k. bytes_eq k j) (bytes_eq-eq s.streamid id e) ∙ ne in
      rw (e, q)
  | inr e ↦ rw e (ground (arith, find-delete_ne id j l ne))
]

-- Once removed, a stream is not found again, and a stream with another id is found as before.
pub remove_ipfrag_reassemble_stream-found :
    (reass : IpReassembler) (stream : IpStream) (j : List ℕ)
    → UniqueIds reass.knownstreams
    → bytes_eq stream.streamid j ≡ false
    → let left = (remove_ipfrag_reassemble_stream reass stream).knownstreams in
      (hash_find (has_id stream.streamid) left ≡ none)
      × (hash_find (has_id j) left ≡ hash_find (has_id j) reass.knownstreams)
unfolding remove_ipfrag_reassemble_stream
remove_ipfrag_reassemble_stream-found reass stream j u ne = (
  find-delete stream.streamid reass.knownstreams u,
  find-delete_ne stream.streamid j reass.knownstreams ne,
)
