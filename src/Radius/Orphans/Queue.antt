-- ===== src/Radius/Orphans/Queue.antt =====
-- The orphans are a queue: with the tail pointer at the last one, new ones come last.
use https_github_com_open_li.Prelude.{
  ℕ, ◌+◌, ◌≤◌, ◌≡◌, refl, sym, ap, ◌∙◌, Bool, true, false, ◌||◌, Option, none, some, List, [], ◌∷◌,
  ◌++◌, leb, ◌==◌, arith, Bool-cases, Option-cases, subst, inl, inr,
}
use https_github_com_open_li.Radius.{OrphanedResp, OrphanList, RadiusParsed, orphan_expiry}
use https_github_com_open_li.Radius.Orphans.{link_behind, peel, new_orphan, create_orphan}

abbrev pub has_address : ℕ → List OrphanedResp → Bool
has_address a [] = false
has_address a (o ∷ os) = (o.address == a) || has_address a os

abbrev pub HasDistinct : List OrphanedResp → Type 0
HasDistinct [] = Unit {0}
HasDistinct (o ∷ os) = (has_address o.address os ≡ false) × HasDistinct os

-- the address of the last node of the list that starts with `a`
abbrev pub last_of : ℕ → List OrphanedResp → ℕ
last_of a [] = a
last_of a (o ∷ os) = last_of o.address os

abbrev pub last_address : List OrphanedResp → Option ℕ
last_address [] = none
last_address (o ∷ os) = some (last_of o.address os)

-- the tail pointer is at the last node, and no two nodes have one address
pub record IsQueue (l : OrphanList) : Type 0 where
  pub tail_last : l.orphans_tail ≡ last_address l.orphans
  pub distinct : HasDistinct l.orphans

abbrev pub has_key : ℕ → OrphanedResp → Bool
has_key reqid o = o.key == reqid

last_of-has_address :
    (o : OrphanedResp) (os : List OrphanedResp) → has_address (last_of o.address os) (o ∷ os) ≡ true
last_of-has_address o [] = ground arith
last_of-has_address o (p ∷ ps) = ground (arith, last_of-has_address p ps)

-- another node's address is not the last one's
pub last_of-ne :
    (a : ℕ) (o : OrphanedResp) (os : List OrphanedResp)
    → has_address a (o ∷ os) ≡ false
    → (last_of o.address os == a) ≡ false
last_of-ne a o os h = elim (Bool-cases (last_of o.address os == a)) [
  | inl e ↦
      let q : last_of o.address os ≡ a = ground (arith, e) in
      absurd (
        let t : true ≡ false =
          sym (last_of-has_address o os) ∙ ap (λ b. has_address b (o ∷ os)) q ∙ h in
        cc)
  | inr e ↦ e
]

link_behind-last :
    (o : OrphanedResp) (os : List OrphanedResp) (resp : OrphanedResp)
    → HasDistinct (o ∷ os)
    → link_behind (last_of o.address os) resp (o ∷ os) ≡ o ∷ os ++ resp ∷ []
link_behind-last o [] resp h = ground arith
link_behind-last o (p ∷ ps) resp h =
    ground (arith, last_of-ne o.address p ps h.0, link_behind-last p ps resp h.1)

has_address-snoc :
    (a : ℕ) (os : List OrphanedResp) (resp : OrphanedResp)
    → has_address a (os ++ resp ∷ []) ≡ (has_address a os || (resp.address == a))
has_address-snoc a [] resp = ground arith
has_address-snoc a (o ∷ os) resp = ground (arith, has_address-snoc a os resp)

HasDistinct-snoc :
    (os : List OrphanedResp) (resp : OrphanedResp)
    → HasDistinct os
    → has_address resp.address os ≡ false
    → HasDistinct (os ++ resp ∷ [])
HasDistinct-snoc [] resp d h = (refl, tt)
HasDistinct-snoc (o ∷ os) resp d h = (
  ground (arith, has_address-snoc o.address os resp, d.0),
  HasDistinct-snoc os resp d.1 (ground (arith, h)),
)

pub HasDistinct-peel :
    (now : ℕ) (os : List OrphanedResp) → HasDistinct os → HasDistinct (peel now os)
HasDistinct-peel now [] d = tt
HasDistinct-peel now (o ∷ os) d = elim (Bool-cases (leb now (o.tvsec + orphan_expiry))) [
  | inl e ↦ rw e d
  | inr e ↦ rw e (HasDistinct-peel now os d.1)
]

has_address-peel :
    (a now : ℕ) (os : List OrphanedResp)
    → has_address a os ≡ false
    → has_address a (peel now os) ≡ false
has_address-peel a now [] h = refl
has_address-peel a now (o ∷ os) h = ground (arith, has_address-peel a now os)

pub peel-snoc :
    (now : ℕ) (os : List OrphanedResp) (resp : OrphanedResp)
    → now ≤ resp.tvsec + orphan_expiry
    → peel now (os ++ resp ∷ []) ≡ peel now os ++ resp ∷ []
peel-snoc now [] resp h = ground arith
peel-snoc now (o ∷ os) resp h = ground (arith, peel-snoc now os resp h)

last_of-snoc :
    (a : ℕ) (os : List OrphanedResp) (resp : OrphanedResp)
    → last_of a (os ++ resp ∷ []) ≡ resp.address
last_of-snoc a [] resp = refl
last_of-snoc a (o ∷ os) resp = last_of-snoc o.address os resp

last_address-snoc :
    (os : List OrphanedResp) (resp : OrphanedResp)
    → last_address (os ++ resp ∷ []) ≡ some resp.address
last_address-snoc [] resp = refl
last_address-snoc (o ∷ os) resp = ap some (last_of-snoc o.address os resp)

-- What a new orphan makes of the list.
linked :
    (address : ℕ) (l : OrphanList) (raddata : RadiusParsed) (reqid : ℕ)
    → IsQueue l
    → (create_orphan address l raddata reqid).orphans
      ≡ peel raddata.tvsec l.orphans ++ new_orphan address raddata reqid ∷ []
unfolding create_orphan
linked address l raddata reqid q = from l.orphans l.orphans_tail q.tail_last q.distinct
  where
    from :
        (os : List OrphanedResp) (tail : Option ℕ)
        → tail ≡ last_address os
        → HasDistinct os
        → (create_orphan address
            (record { orphans = os; orphans_tail = tail })
            raddata
            reqid).orphans
          ≡ peel raddata.tvsec os ++ new_orphan address raddata reqid ∷ []
    from [] tail e d = rw e
    from (o ∷ os) tail e d = rw e (
        ap (peel raddata.tvsec) (link_behind-last o os (new_orphan address raddata reqid) d)
        ∙ peel-snoc raddata.tvsec (o ∷ os) (new_orphan address raddata reqid) (omega arith))

linked_tail :
    (address : ℕ) (l : OrphanList) (raddata : RadiusParsed) (reqid : ℕ)
    → (create_orphan address l raddata reqid).orphans_tail ≡ some address
unfolding create_orphan
linked_tail address l raddata reqid = elim (Option-cases l.orphans_tail) [
  | inl e ↦ rw e
  | inr (t, e) ↦ rw e
]

-- A new orphan, at an address that no orphan has, comes behind the orphans that are left once those at
-- the head that are a second older are gone, and the tail pointer is at it.
pub create_orphan-IsQueue :
    (address : ℕ) (l : OrphanList) (raddata : RadiusParsed) (reqid : ℕ)
    → IsQueue l
    → has_address address l.orphans ≡ false
    → ((create_orphan address l raddata reqid).orphans
        ≡ peel raddata.tvsec l.orphans ++ new_orphan address raddata reqid ∷ [])
      × IsQueue (create_orphan address l raddata reqid)
create_orphan-IsQueue address l raddata reqid q fresh =
    let resp = new_orphan address raddata reqid in
    let os = peel raddata.tvsec l.orphans in
    let e = linked address l raddata reqid q in
    (
      e,
      record {
        tail_last =
            linked_tail address l raddata reqid
            ∙ sym (last_address-snoc os resp)
            ∙ ap last_address (sym e);
        distinct = subst HasDistinct (sym e) (
            HasDistinct-snoc os resp (HasDistinct-peel raddata.tvsec l.orphans q.distinct)
              (has_address-peel address raddata.tvsec l.orphans fresh));
      },
    )
