-- ===== src/Reassembler/IpStreams/Table.antt =====
-- The table of fragment streams: one stream for each id, found again after every packet.
use https_github_com_open_li.Prelude.{
  ℕ, ◌+◌, ◌-◌, ◌≤◌, ◌<◌, ◌≡◌, ◌⊎◌, inl, inr, refl, ap, ◌∙◌, false, Option, none, some, List, [],
  ◌∷◌, ◌++◌, arith, if◌then◌else◌, Option-cases,
}
use https_github_com_open_li.Uthash.{bytes_eq, hash_find}
use https_github_com_open_li.Uthash.Keys.{bytes_eq_refl, bytes_eq-eq}
use https_github_com_open_li.Reassembler.Fragment.{IpStream, create_new_ipfrag_reassemble_stream}
use https_github_com_open_li.Reassembler.IpStreams.{
  IpReassembler, u32, has_id, touch, purge_streams, purge_inactive_ip_streams,
  get_ipfrag_reassemble_stream,
}

abbrev pub find : List ℕ → List IpStream → Option IpStream
find id l = hash_find (has_id id) l

-- A purge keeps a stream that is no older than its limit.
find-purge :
    (id : List ℕ) (limit : ℕ) (l : List IpStream) {s : IpStream}
    → find id l ≡ some s
    → limit ≤ s.lastts
    → find id (purge_streams limit l) ≡ some s
unfolding hash_find purge_streams
find-purge id limit [] h fits = cc
find-purge id limit (t ∷ l) {s} h fits = ground (arith, find-purge id limit l {s = s})

find-touch_self :
    (id : List ℕ) (ts : ℕ) (l : List IpStream) {s : IpStream}
    → find id l ≡ some s
    → find id (touch id ts l) ≡ some (record s { lastts = ts })
unfolding hash_find touch has_id
find-touch_self id ts [] h = cc
find-touch_self id ts (t ∷ l) {s} h = ground (arith, find-touch_self id ts l {s = s})

pub find-touch_ne :
    (id j : List ℕ) (ts : ℕ) (l : List IpStream)
    → bytes_eq id j ≡ false
    → find j (touch id ts l) ≡ find j l
unfolding hash_find touch has_id
find-touch_ne id j ts [] ne = refl
find-touch_ne id j ts (t ∷ l) ne = ground (
  arith,
  find-touch_ne id j ts l ne,
  bytes_eq-eq t.streamid id,
  ap (λ k. bytes_eq k j) {x = t.streamid} {y = id},
)

pub find-add :
    (j : List ℕ) (s : IpStream) (l : List IpStream)
    → find j (l ++ s ∷ [])
      ≡ elim (find j l) [ some t ↦ some t | none ↦ if bytes_eq s.streamid j then some s else none ]
unfolding hash_find has_id
find-add j s [] = ground arith
find-add j s (t ∷ l) = ground (arith, find-add j s l)

-- the next purge is either not planned yet or no earlier than 300 seconds into the epoch
abbrev pub Planned : IpReassembler → Type 0
Planned reass = (reass.nextpurge ≡ 0) ⊎ (300 ≤ reass.nextpurge)

-- A purge at time `ts` keeps every stream that was heard within the 300 seconds before the time the
-- purge was planned for.
find-purge_inactive :
    (reass : IpReassembler) (ts : ℕ) (id : List ℕ) {s : IpStream}
    → Planned reass
    → reass.nextpurge < 4294967296
    → find id reass.knownstreams ≡ some s
    → reass.nextpurge ≤ s.lastts + 300
    → find id (purge_inactive_ip_streams reass ts).knownstreams ≡ some s
unfolding purge_inactive_ip_streams
find-purge_inactive reass ts id {s} plan small h fresh =
    ground
      (arith, find-purge id (u32 (reass.nextpurge + 4294967296 - 300)) reass.knownstreams {s = s} h)

find-purge_inactive_now :
    (reass : IpReassembler) (id : List ℕ) (s : IpStream)
    → Planned reass
    → reass.nextpurge < 4294967296
    → find id reass.knownstreams ≡ some s
    → find id (purge_inactive_ip_streams reass s.lastts).knownstreams ≡ some s
unfolding purge_inactive_ip_streams
find-purge_inactive_now reass id s plan small h =
    ground
      (arith, find-purge id (u32 (reass.nextpurge + 4294967296 - 300)) reass.knownstreams {s = s} h)

pub find-purge_none :
    (id : List ℕ) (limit : ℕ) (l : List IpStream)
    → find id l ≡ none
    → find id (purge_streams limit l) ≡ none
unfolding hash_find purge_streams
find-purge_none id limit [] h = refl
find-purge_none id limit (t ∷ l) h = ground (arith, find-purge_none id limit l)

pub find-purge_inactive_none :
    (reass : IpReassembler) (ts : ℕ) (id : List ℕ)
    → find id reass.knownstreams ≡ none
    → find id (purge_inactive_ip_streams reass ts).knownstreams ≡ none
unfolding purge_inactive_ip_streams
find-purge_inactive_none reass ts id h =
    ground
      (arith, find-purge_none id (u32 (reass.nextpurge + 4294967296 - 300)) reass.knownstreams h)

-- The two ways through `get_ipfrag_reassemble_stream`.
abbrev pub new_stream : List ℕ → ℕ → ℕ → IpStream
new_stream ipid proto ts = record (create_new_ipfrag_reassemble_stream ipid proto) { lastts = ts }

abbrev pub touched : IpReassembler → List ℕ → ℕ → IpReassembler
touched reass ipid ts = record reass { knownstreams = touch ipid ts reass.knownstreams }

pub get_known :
    (reass : IpReassembler) (ipid : List ℕ) (proto ts : ℕ) {s : IpStream}
    → find ipid reass.knownstreams ≡ some s
    → get_ipfrag_reassemble_stream reass (some ipid) proto ts
      ≡ (some ipid, purge_inactive_ip_streams (touched reass ipid ts) ts)
unfolding get_ipfrag_reassemble_stream
get_known reass ipid proto ts h = rw (h, get_ipfrag_reassemble_stream)

pub get_unknown :
    (reass : IpReassembler) (ipid : List ℕ) (proto ts : ℕ)
    → find ipid reass.knownstreams ≡ none
    → let purged = purge_inactive_ip_streams reass ts in
      get_ipfrag_reassemble_stream reass (some ipid) proto ts ≡ (
        some ipid,
        record purged { knownstreams = purged.knownstreams ++ new_stream ipid proto ts ∷ [] },
      )
unfolding get_ipfrag_reassemble_stream
get_unknown reass ipid proto ts h = rw (h, get_ipfrag_reassemble_stream)

-- The stream that a fragment is assigned to is in the table when the call returns, with the time of
-- the packet: the purge that the call makes does not free it.
pub get_ipfrag_reassemble_stream-found :
    (reass : IpReassembler) (ipid : List ℕ) (proto ts : ℕ)
    → Planned reass
    → reass.nextpurge < 4294967296
    → let (got, reass') = get_ipfrag_reassemble_stream reass (some ipid) proto ts in
      (got ≡ some ipid)
      × (s : IpStream) × (hash_find (has_id ipid) reass'.knownstreams ≡ some s)
      × (s.lastts ≡ ts)
unfolding create_new_ipfrag_reassemble_stream
get_ipfrag_reassemble_stream-found reass ipid proto ts plan small =
    elim (Option-cases (find ipid reass.knownstreams)) [
      | inl e ↦
          let purged = purge_inactive_ip_streams reass ts in
          let new = new_stream ipid proto ts in
          rw (get_unknown reass ipid proto ts e) (
            refl,
            new,
            find-add ipid new purged.knownstreams
                ∙ ground (arith, find-purge_inactive_none reass ts ipid e, bytes_eq_refl ipid),
            refl,
          )
      | inr (s, e) ↦ rw (get_known reass ipid proto ts e) (
        refl,
        record s { lastts = ts },
        find-purge_inactive_now (touched reass ipid ts) ipid (record s { lastts = ts }) plan small
            (find-touch_self ipid ts reass.knownstreams e),
        refl,
      )
    ]

-- Assigning a fragment to its stream leaves every other stream as it is, if that was heard no more
-- than 300 seconds before the time for which the next purge is planned.
pub get_ipfrag_reassemble_stream-others :
    (reass : IpReassembler) (ipid j : List ℕ) (proto ts : ℕ) (s : IpStream)
    → Planned reass
    → reass.nextpurge < 4294967296
    → bytes_eq ipid j ≡ false
    → hash_find (has_id j) reass.knownstreams ≡ some s
    → reass.nextpurge ≤ s.lastts + 300
    → hash_find (has_id j) (get_ipfrag_reassemble_stream reass (some ipid) proto ts).1.knownstreams
      ≡ some s
unfolding create_new_ipfrag_reassemble_stream
get_ipfrag_reassemble_stream-others reass ipid j proto ts s plan small ne h fresh =
    elim (Option-cases (find ipid reass.knownstreams)) [
      | inl e ↦
          let purged = purge_inactive_ip_streams reass ts in
          rw (get_unknown reass ipid proto ts e) (
            find-add j (new_stream ipid proto ts) purged.knownstreams
            ∙ ground (arith, find-purge_inactive reass ts j {s = s} plan small h fresh))
      | inr (t, e) ↦ rw (get_known reass ipid proto ts e) (
          find-purge_inactive (touched reass ipid ts) ts j {s = s} plan small
            (find-touch_ne ipid j ts reass.knownstreams ne ∙ h) fresh)
    ]

-- Every purge plans the next one 300 seconds later, so the plan stays sound until 2106.
pub get_ipfrag_reassemble_stream-Planned :
    (reass : IpReassembler) (ipid : Option (List ℕ)) (proto ts : ℕ)
    → Planned reass
    → ts + 300 < 4294967296
    → Planned (get_ipfrag_reassemble_stream reass ipid proto ts).1
unfolding get_ipfrag_reassemble_stream purge_inactive_ip_streams
get_ipfrag_reassemble_stream-Planned reass none proto ts plan small = plan
get_ipfrag_reassemble_stream-Planned reass (some ipid) proto ts plan small = ground arith
