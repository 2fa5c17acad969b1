-- ===== src/Radius/Orphans/Search.antt =====
-- The search among the orphans takes the first one with the key, once the expired ones are gone.
use https_github_com_open_li.Prelude.{
  ℕ, ◌+◌, ◌≤◌, ◌≡◌, ◌⊎◌, refl, sym, ap, ◌∙◌, Bool, true, false, Option, none, some, List, [], ◌∷◌,
  ◌++◌, if◌then◌else◌, ltb, leb, ◌==◌, arith, Bool-cases, inl, inr, subst,
}
use https_github_com_open_li.Uthash.{hash_find, hash_delete}
use https_github_com_open_li.Radius.{OrphanedResp, OrphanList, RadiusParsed, orphan_expiry}
use https_github_com_open_li.Radius.Orphans.{
  peel, new_orphan, create_orphan, is_at, expire, rest_behind, take_key, search_orphans,
}
use https_github_com_open_li.Radius.Orphans.Queue.{
  has_address, HasDistinct, last_of, last_address, IsQueue, last_of-ne, HasDistinct-peel, peel-snoc,
  create_orphan-IsQueue,
}

abbrev pub has_key : ℕ → OrphanedResp → Bool
has_key reqid o = o.key == reqid

-- the tail is at the first node exactly if no other follows
at_last :
    (o : OrphanedResp) (os : List OrphanedResp)
    → HasDistinct (o ∷ os)
    → (last_address os ≡ none) × (is_at (some (last_of o.address os)) o.address ≡ true)
      ⊎ (last_address os ≡ some (last_of o.address os))
        × (is_at (some (last_of o.address os)) o.address ≡ false)
at_last o [] d = inl (refl, ground arith)
at_last o (p ∷ ps) d = inr (refl, last_of-ne o.address p ps d.0)

expire-queue :
    (now : ℕ) (os : List OrphanedResp) (tail : Option ℕ)
    → tail ≡ last_address os
    → HasDistinct os
    → expire now os tail
      ≡ record { orphans = peel now os; orphans_tail = last_address (peel now os) }
unfolding expire
expire-queue now [] tail e d = rw e refl
expire-queue now (o ∷ os) tail e d = elim (Bool-cases (ltb (o.tvsec + orphan_expiry) now)) [
  | inl old ↦
      let old' : leb now (o.tvsec + orphan_expiry) ≡ false = ground (arith, old) in
      rw (old, old')
        (expire-queue now os (if is_at tail o.address then none else tail)
          (rw e (elim (at_last o os d) [ inl (l, a) ↦ rw a (sym l) | inr (l, a) ↦ rw a (sym l) ]))
          d.1)
  | inr young ↦
      let young' : leb now (o.tvsec + orphan_expiry) ≡ true = ground (arith, young) in
      rw (young, young', e) refl
]

-- the tail behind a node
abbrev tail_of : Option ℕ → List OrphanedResp → Option ℕ
tail_of none os = last_address os
tail_of (some a) os = some (last_of a os)

-- the taking out of a node
taken :
    (prev : Option ℕ) (o : OrphanedResp) (os : List OrphanedResp)
    → HasDistinct (o ∷ os)
    → ◌≡◌ {A = Option OrphanedResp × OrphanList}
        (
          some o,
          record {
            orphans = rest_behind (is_at (tail_of prev (o ∷ os)) o.address) prev os;
            orphans_tail =
                if is_at (tail_of prev (o ∷ os)) o.address then prev else tail_of prev (o ∷ os);
          },
        )
        (some o, record { orphans = os; orphans_tail = tail_of prev os })
taken none o [] d = ground arith
taken (some a) o [] d = ground arith
taken none o (p ∷ ps) d = rw (last_of-ne o.address p ps d.0) refl
taken (some a) o (p ∷ ps) d = rw (last_of-ne o.address p ps d.0) refl

-- a node in front of the rest of the search
behind : OrphanedResp → Option OrphanedResp × OrphanList → Option OrphanedResp × OrphanList
behind o r = (r.0, record { orphans = o ∷ r.1.orphans; orphans_tail = r.1.orphans_tail })

take_key-queue :
    (reqid : ℕ) (prev : Option ℕ) (os : List OrphanedResp)
    → HasDistinct os
    → take_key reqid prev (tail_of prev os) os ≡ (
      hash_find (has_key reqid) os,
      record {
        orphans = hash_delete (has_key reqid) os;
        orphans_tail = tail_of prev (hash_delete (has_key reqid) os);
      },
    )
unfolding take_key hash_find hash_delete behind
take_key-queue reqid none [] d = refl
take_key-queue reqid (some a) [] d = refl
take_key-queue reqid none (o ∷ os) d = elim (Bool-cases (o.key == reqid)) [
  | inl e ↦ rw e (taken none o os d)
  | inr e ↦ rw e (ap (behind o) (take_key-queue reqid (some o.address) os d.1))
]
take_key-queue reqid (some a) (o ∷ os) d = elim (Bool-cases (o.key == reqid)) [
  | inl e ↦ rw e (taken (some a) o os d)
  | inr e ↦ rw e (ap (behind o) (take_key-queue reqid (some o.address) os d.1))
]

has_address-delete :
    (a reqid : ℕ) (os : List OrphanedResp)
    → has_address a os ≡ false
    → has_address a (hash_delete (has_key reqid) os) ≡ false
unfolding hash_delete
has_address-delete a reqid [] h = refl
has_address-delete a reqid (o ∷ os) h = ground (arith, has_address-delete a reqid os)

HasDistinct-delete :
    (reqid : ℕ) (os : List OrphanedResp)
    → HasDistinct os
    → HasDistinct (hash_delete (has_key reqid) os)
unfolding hash_delete
HasDistinct-delete reqid [] d = tt
HasDistinct-delete reqid (o ∷ os) d = elim (Bool-cases (o.key == reqid)) [
  | inl e ↦ rw e d.1
  | inr e ↦ rw e (has_address-delete o.address reqid os d.0, HasDistinct-delete reqid os d.1)
]

searched :
    (l : OrphanList) (reqid tvsec : ℕ)
    → IsQueue l
    → search_orphans l reqid tvsec ≡ (
      hash_find (has_key reqid) (peel tvsec l.orphans),
      record {
        orphans = hash_delete (has_key reqid) (peel tvsec l.orphans);
        orphans_tail = last_address (hash_delete (has_key reqid) (peel tvsec l.orphans));
      },
    )
unfolding search_orphans
searched l reqid tvsec q =
    ap (λ m. take_key reqid none m.orphans_tail m.orphans)
      (expire-queue tvsec l.orphans l.orphans_tail q.tail_last q.distinct)
    ∙ take_key-queue reqid none (peel tvsec l.orphans) (HasDistinct-peel tvsec l.orphans q.distinct)

-- A search hands back the first orphan with the key among those that are left once those at the head
-- that are more than a second older are gone, takes just that one out, and leaves the tail pointer at
-- the last one.
pub search_orphans-IsQueue :
    (l : OrphanList) (reqid tvsec : ℕ)
    → IsQueue l
    → ((search_orphans l reqid tvsec).0 ≡ hash_find (has_key reqid) (peel tvsec l.orphans))
      × ((search_orphans l reqid tvsec).1.orphans
          ≡ hash_delete (has_key reqid) (peel tvsec l.orphans))
      × IsQueue (search_orphans l reqid tvsec).1
search_orphans-IsQueue l reqid tvsec q =
    let e = searched l reqid tvsec q in
    (
      ap (λ x. x.0) e,
      ap (λ x. x.1.orphans) e,
      subst IsQueue (sym (ap (λ x. x.1) e)) (record {
        tail_last = refl;
        distinct =
            HasDistinct-delete reqid (peel tvsec l.orphans)
              (HasDistinct-peel tvsec l.orphans q.distinct);
      }),
    )

find-peel :
    (reqid now : ℕ) (os : List OrphanedResp)
    → hash_find (has_key reqid) os ≡ none
    → hash_find (has_key reqid) (peel now os) ≡ none
unfolding hash_find
find-peel reqid now [] h = refl
find-peel reqid now (o ∷ os) h = ground (arith, h, find-peel reqid now os)

find-snoc :
    (reqid : ℕ) (os : List OrphanedResp) (o : OrphanedResp)
    → hash_find (has_key reqid) os ≡ none
    → o.key ≡ reqid
    → hash_find (has_key reqid) (os ++ o ∷ []) ≡ some o
unfolding hash_find
find-snoc reqid [] o h e = ground arith
find-snoc reqid (p ∷ os) o h e = ground (arith, h, find-snoc reqid os o)

-- A response that becomes an orphan is found by a search for its key at a time at most a second later,
-- if no earlier orphan has the key.
pub search_orphans-create_orphan :
    (address : ℕ) (l : OrphanList) (raddata : RadiusParsed) (reqid tvsec : ℕ)
    → IsQueue l
    → has_address address l.orphans ≡ false
    → hash_find (has_key reqid) l.orphans ≡ none
    → tvsec ≤ raddata.tvsec + orphan_expiry
    → (search_orphans (create_orphan address l raddata reqid) reqid tvsec).0
      ≡ some (new_orphan address raddata reqid)
search_orphans-create_orphan address l raddata reqid tvsec q fresh unknown soon =
    let resp = new_orphan address raddata reqid in
    let (made, q') = create_orphan-IsQueue address l raddata reqid q fresh in
    let os = peel raddata.tvsec l.orphans in
    (search_orphans-IsQueue (create_orphan address l raddata reqid) reqid tvsec q').0
    ∙ ap (λ x. hash_find (has_key reqid) (peel tvsec x)) made
    ∙ ap (hash_find (has_key reqid)) (peel-snoc tvsec os resp soon)
    ∙ find-snoc reqid (peel tvsec os) resp
        (find-peel reqid tvsec os (find-peel reqid raddata.tvsec l.orphans unknown)) refl
