-- ===== src/Reassembler/IpStreams/Tests.antt =====
-- The table of fragment streams at concrete packets.
use https_github_com_open_li.Prelude.{ℕ, refl, some, List, [], ◌∷◌}
use https_github_com_open_li.Uthash.{hash_find}
use https_github_com_open_li.Reassembler.Fragment.{IpStream, create_new_ipfrag_reassemble_stream}
use https_github_com_open_li.Reassembler.IpStreams.{
  IpReassembler, has_id, get_ipfrag_reassemble_stream,
}
use https_github_com_open_li.Reassembler.IpStreams.Unique.{
  UniqueIds, get_ipfrag_reassemble_stream-UniqueIds,
}

abbrev known_id : List ℕ
known_id = 10 ∷ 0 ∷ 0 ∷ 1 ∷ []

abbrev other_id : List ℕ
other_id = 10 ∷ 0 ∷ 0 ∷ 2 ∷ []

abbrev of_id : List ℕ → IpStream
of_id id = record (create_new_ipfrag_reassemble_stream id 17) { lastts = 1000 }

-- the purge is due
abbrev table : IpReassembler
table = record { knownstreams = of_id known_id ∷ of_id other_id ∷ []; nextpurge = 1200 }

table-UniqueIds : UniqueIds table.knownstreams
unfolding has_id hash_find create_new_ipfrag_reassemble_stream
table-UniqueIds = (refl, (refl, tt))

get_ipfrag_reassemble_stream-UniqueIds_example :
    UniqueIds (get_ipfrag_reassemble_stream table (some known_id) 17 1500).1.knownstreams
get_ipfrag_reassemble_stream-UniqueIds_example =
    get_ipfrag_reassemble_stream-UniqueIds table (some known_id) 17 1500 table-UniqueIds
