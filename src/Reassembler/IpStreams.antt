-- ===== src/Reassembler/IpStreams.antt =====
-- The table of IP fragment streams of collector/reassembler.c: finding, adding, purging, removing.
pub mod Table
pub mod Unique
mod Tests
use https_github_com_open_li.Prelude.{
  ℕ, ◌+◌, ◌-◌, ◌%◌, Bool, true, Option, none, some, List, [], ◌∷◌, if◌then◌else◌, ltb, ◌==◌,
}
use https_github_com_open_li.Uthash.{bytes_eq, hash_find, hash_add, hash_delete}
use https_github_com_open_li.Reassembler.Fragment.{IpStream, create_new_ipfrag_reassemble_stream}

-- ipfrag_reassembler_t
pub record IpReassembler : Type 0 where
  pub knownstreams : List IpStream
  pub nextpurge : ℕ

abbrev pub u32 : ℕ → ℕ
u32 n = n % 4294967296

pub create_new_ipfrag_reassembler : IpReassembler
create_new_ipfrag_reassembler = record { knownstreams = []; nextpurge = 0 }

pub has_id : List ℕ → IpStream → Bool
has_id id s = bytes_eq s.streamid id

-- the HASH_ITER of the purge, with `limit` the test's right side
pub purge_streams : ℕ → List IpStream → List IpStream
purge_streams limit [] = []
purge_streams limit (s ∷ ss) =
    let rest = purge_streams limit ss in if ltb s.lastts limit then rest else s ∷ rest

pub purge_inactive_ip_streams : IpReassembler → ℕ → IpReassembler
unfolding purge_streams
purge_inactive_ip_streams reass ts =
    if reass.nextpurge == 0
    then record reass { nextpurge = u32 (ts + 300) }
    else if ltb ts reass.nextpurge
    then reass
    else record reass {
      knownstreams = purge_streams (u32 (reass.nextpurge + 4294967296 - 300)) reass.knownstreams;
      nextpurge = u32 (ts + 300);
    }

-- `existing->lastts = tv.tv_sec` through the pointer that HASH_FIND returned
pub touch : List ℕ → ℕ → List IpStream → List IpStream
touch id ts [] = []
touch id ts (s ∷ ss) =
    if bytes_eq s.streamid id then record s { lastts = ts } ∷ ss else s ∷ touch id ts ss

-- `ipid` is `none` when libtrace finds no addresses or no IP header; `proto` and `ts` come from the
-- packet. The stream is returned by its id: `none` is NULL.
pub get_ipfrag_reassemble_stream :
    IpReassembler → Option (List ℕ) → ℕ → ℕ → Option (List ℕ) × IpReassembler
unfolding purge_inactive_ip_streams create_new_ipfrag_reassemble_stream touch has_id
get_ipfrag_reassemble_stream reass none proto ts = (none, reass)
get_ipfrag_reassemble_stream reass (some ipid) proto ts =
    elim (hash_find (has_id ipid) reass.knownstreams) [
      | some existing ↦ (
        some ipid,
        purge_inactive_ip_streams (record reass { knownstreams = touch ipid ts reass.knownstreams })
            ts,
      )
      | none ↦
          let purged = purge_inactive_ip_streams reass ts in
          let new = record (create_new_ipfrag_reassemble_stream ipid proto) { lastts = ts } in
          (some ipid, record purged { knownstreams = hash_add new purged.knownstreams })
    ]

pub remove_ipfrag_reassemble_stream : IpReassembler → IpStream → IpReassembler
unfolding has_id
remove_ipfrag_reassemble_stream reass stream = record reass {
  knownstreams = hash_delete (has_id stream.streamid) reass.knownstreams;
}
