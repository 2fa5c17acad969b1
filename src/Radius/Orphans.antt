-- ===== src/Radius/Orphans.antt =====
-- The responses whose request was not seen yet, create_orphan and search_orphans.
pub mod Queue
pub mod Search
use https_github_com_open_li.Prelude.{
  ℕ, ◌+◌, Bool, true, false, ◌&&◌, Option, none, some, List, [], ◌∷◌, ◌++◌, if◌then◌else◌, ltb, leb,
  ◌==◌,
}
use https_github_com_open_li.Radius.{OrphanedResp, OrphanList, RadiusParsed, orphan_expiry}

-- the list up to the node at an address; behind it, `next` is set to the new node
abbrev pub link_behind : ℕ → OrphanedResp → List OrphanedResp → List OrphanedResp
link_behind tail resp [] = []
link_behind tail resp (o ∷ os) =
    let rest = link_behind tail resp os in if o.address == tail then o ∷ resp ∷ [] else o ∷ rest

-- the loop that peels off expired orphans
abbrev pub peel : ℕ → List OrphanedResp → List OrphanedResp
peel now [] = []
peel now (o ∷ os) =
    let rest = peel now os in if leb now (o.tvsec + orphan_expiry) then o ∷ os else rest

abbrev pub new_orphan : ℕ → RadiusParsed → ℕ → OrphanedResp
new_orphan address raddata reqid = record {
  address = address;
  resptype = raddata.msgtype;
  key = reqid;
  tvsec = raddata.tvsec;
  savedattrs = raddata.attrs;
}

unfoldable pub create_orphan : ℕ → OrphanList → RadiusParsed → ℕ → OrphanList
create_orphan address l raddata reqid =
    let resp = new_orphan address raddata reqid in
    elim l.orphans_tail [
      | none ↦ record { orphans = resp ∷ []; orphans_tail = some address }
      | some tail ↦ record {
        orphans = peel resp.tvsec (link_behind tail resp l.orphans);
        orphans_tail = some address;
      }
    ]

-- whether a pointer has an address
abbrev pub is_at : Option ℕ → ℕ → Bool
is_at none a = false
is_at (some t) a = t == a

-- the first iterations of the search, which free the expired orphans at the head
pub expire : ℕ → List OrphanedResp → Option ℕ → OrphanList
expire now [] tail = record { orphans = []; orphans_tail = tail }
expire now (o ∷ os) tail =
    let rest = expire now os (if is_at tail o.address then none else tail) in
    if ltb (o.tvsec + orphan_expiry) now
    then rest
    else record { orphans = o ∷ os; orphans_tail = tail }

-- what stays behind the orphan that is taken out: nothing behind the tail, if that is not the head
abbrev pub rest_behind : Bool → Option ℕ → List OrphanedResp → List OrphanedResp
rest_behind true (some prev) os = []
rest_behind _ _ os = os

-- the search for a key, and the taking out; `prev` is the node in front
pub take_key : ℕ → Option ℕ → Option ℕ → List OrphanedResp → Option OrphanedResp × OrphanList
take_key reqid prev tail [] = (none, record { orphans = []; orphans_tail = tail })
take_key reqid prev tail (o ∷ os) =
    let rest = take_key reqid (some o.address) tail os in
    if o.key == reqid
    then (
      some o,
      record {
        orphans = rest_behind (is_at tail o.address) prev os;
        orphans_tail = if is_at tail o.address then prev else tail;
      },
    )
    else (rest.0, record { orphans = o ∷ rest.1.orphans; orphans_tail = rest.1.orphans_tail })

unfoldable pub search_orphans : OrphanList → ℕ → ℕ → Option OrphanedResp × OrphanList
unfolding expire take_key
search_orphans l reqid tvsec =
    let l' = expire tvsec l.orphans l.orphans_tail in take_key reqid none l'.orphans_tail l'.orphans
