-- ===== src/Radius/Users/Places.antt =====
-- The four places for the users of a packet.
use https_github_com_open_li.Prelude.{
  ℕ, ◌+◌, ◌≤◌, ◌<◌, ◌≡◌, ◌⊎◌, refl, sym, ◌∙◌, Option, none, some, List, [], ◌∷◌, ◌++◌, ltb, length,
  arith, Bool-cases, Option-cases, inl, inr, length-append, append_assoc, append-nil,
}
use https_github_com_open_li.Radius.{Attribute, IdMethod, RadiusNas, RadiusParsed, user_ident_max}
use https_github_com_open_li.Radius.Users.{
  userkey, identity_of, Matched, known_user, add_user_identity, process_attribute, process_users,
}

-- the keys of the users that attributes name
abbrev pub keys_of : List Attribute → List (Option (List ℕ))
keys_of [] = []
keys_of (a ∷ attrs) = elim (identity_of a) [
  | none ↦ keys_of attrs
  | some method ↦ some (userkey method a) ∷ keys_of attrs
]

keys_of-none :
    (a : Attribute) (attrs : List Attribute)
    → identity_of a ≡ none
    → keys_of (a ∷ attrs) ≡ keys_of attrs
keys_of-none a attrs e = rw (e, keys_of) refl

keys_of-some :
    (a : Attribute) (attrs : List Attribute) {method : IdMethod}
    → identity_of a ≡ some method
    → keys_of (a ∷ attrs) ≡ some (userkey method a) ∷ keys_of attrs
keys_of-some a attrs e = rw (e, keys_of) refl

-- The two ends of the loop for a number of places.
abbrev pub Placed : List (Option (List ℕ)) → List (Option (List ℕ)) → Option Matched → Type 0
Placed old keys o =
    ((length old + length keys ≤ user_ident_max)
      × ((r : Matched) × (o ≡ some r) × (r.1.matchedusers ≡ old ++ keys)))
    ⊎ ((user_ident_max < length old + length keys) × (o ≡ none))

Placed-cons :
    (old : List (Option (List ℕ))) (k : Option (List ℕ)) (keys : List (Option (List ℕ)))
    (o : Option Matched)
    → Placed (old ++ k ∷ []) keys o
    → Placed old (k ∷ keys) o
Placed-cons old k keys o (inl (le, (r, e, q))) =
    inl (omega (arith, length-append old (k ∷ [])), (r, e, q ∙ append_assoc old (k ∷ []) keys))
Placed-cons old k keys o (inr (lt, e)) = inr (omega (arith, length-append old (k ∷ [])), e)

-- With no more user names and calling stations than there are places left, the users of a message are those
-- it had and theirs, in order; with more, a place behind the four is written.
pub process_users-Placed :
    (attrs : List Attribute) (nas : RadiusNas) (m : RadiusParsed)
    → length m.matchedusers ≤ user_ident_max
    → Placed m.matchedusers (keys_of attrs) (process_users attrs nas m)
unfolding process_users process_attribute add_user_identity
process_users-Placed [] nas m h =
    inl (omega arith, ((nas, m), refl, sym (append-nil m.matchedusers)))
process_users-Placed (a ∷ attrs) nas m h = elim (Option-cases (identity_of a)) [
  | inl e ↦ rw (keys_of-none a attrs e, e, process_attribute) (process_users-Placed attrs nas m h)
  | inr (method, e) ↦ elim (Bool-cases (ltb (length m.matchedusers) user_ident_max)) [
    | inl free ↦
        let key = userkey method a in
        let nas' : RadiusNas = record nas { user_map = known_user method key nas.user_map } in
        let m' : RadiusParsed = record m { matchedusers = m.matchedusers ++ some key ∷ [] } in
        rw (keys_of-some a attrs e, e, process_attribute)
          (rw free (
            Placed-cons m.matchedusers (some key) (keys_of attrs) (process_users attrs nas' m') (
              process_users-Placed attrs nas' m'
                (ground (arith, free, length-append m.matchedusers (some key ∷ []))))))
    | inr full ↦
        rw (keys_of-some a attrs e, e, process_attribute)
          (rw full (inr (ground (arith, full, h), refl)))
  ]
]
