-- ===== src/Intercept/Users.antt =====
-- A table of users under a change of one of them.
use https_github_com_open_li.Prelude.{
  ℕ, ◌≡◌, refl, sym, ap, ◌∙◌, false, Option, none, some, List, [], ◌∷◌, ◌++◌, arith, Bool-cases,
  inl, inr, subst,
}
use https_github_com_open_li.Uthash.{bytes_eq, hash_find, hash_delete}
use https_github_com_open_li.Uthash.Keys.{bytes_eq-eq, bytes_eq_refl}
use https_github_com_open_li.Intercept.{UserList, has_name, change_list, is_nil, found_in}
use https_github_com_open_li.Intercept.Table.{IsDistinct}

abbrev pub name_of : {A : Type 0} → UserList A → List ℕ
name_of u = u.name

-- the intercept of a user with an LIID
abbrev pub lookup : {A : Type 0} → (A → List ℕ) → List ℕ → List ℕ → List (UserList A) → Option A
lookup key name liid ulist = found_in key liid (hash_find (has_name name) ulist)

-- Every user has an intercept, and no LIID twice.
abbrev pub AllUsers : {A : Type 0} → (A → List ℕ) → List (UserList A) → Type 0
AllUsers key [] = Unit {0}
AllUsers key (u ∷ ulist) =
    (is_nil u.intlist ≡ false) × IsDistinct key u.intlist × AllUsers key ulist

-- No user is there twice, or without an intercept, or with an LIID twice.
pub record IsTable {A : Type 0} (key : A → List ℕ) (ulist : List (UserList A)) : Type 0 where
  pub names : IsDistinct name_of ulist
  pub users : AllUsers key ulist

module _ {A : Type 0} (name : List ℕ) (f : List A → List A) where
  pub change_list-own :
      (ulist : List (UserList A)) {u : UserList A}
      → hash_find (has_name name) ulist ≡ some u
      → hash_find (has_name name) (change_list name f ulist)
        ≡ some (record u { intlist = f u.intlist })
  unfolding hash_find change_list
  change_list-own [] h = cc
  change_list-own (u ∷ ulist) h = elim (Bool-cases (bytes_eq u.name name)) [
    | inl e ↦
        rw (e, e)
          (ap (λ o. elim o [ none ↦ none | some v ↦ some (record v { intlist = f v.intlist }) ])
            (rw e at h))
    | inr e ↦ rw (e, e) (change_list-own ulist (rw e at h))
  ]

  pub change_list-other :
      (j : List ℕ) (ulist : List (UserList A))
      → bytes_eq name j ≡ false
      → hash_find (has_name j) (change_list name f ulist) ≡ hash_find (has_name j) ulist
  unfolding hash_find change_list
  change_list-other j [] ne = refl
  change_list-other j (u ∷ ulist) ne = elim (Bool-cases (bytes_eq u.name name)) [
    | inl e ↦
        let q : bytes_eq u.name j ≡ false =
          ap (λ k. bytes_eq k j) (bytes_eq-eq u.name name e) ∙ ne in
        rw e (ground (arith, q))
    | inr e ↦ rw e (ground (arith, change_list-other j ulist ne))
  ]

  change_list-none :
      (j : List ℕ) (ulist : List (UserList A))
      → hash_find (has_name j) ulist ≡ none
      → hash_find (has_name j) (change_list name f ulist) ≡ none
  unfolding hash_find change_list
  change_list-none j [] h = refl
  change_list-none j (u ∷ ulist) h = ground (arith, h, change_list-none j ulist)

  pub change_list-names :
      (ulist : List (UserList A))
      → IsDistinct name_of ulist
      → IsDistinct name_of (change_list name f ulist)
  unfolding change_list
  change_list-names [] d = tt
  change_list-names (u ∷ ulist) d = elim (Bool-cases (bytes_eq u.name name)) [
    | inl e ↦ rw e d
    | inr e ↦ rw e (change_list-none u.name ulist d.0, change_list-names ulist d.1)
  ]

  pub change_list-users :
      (key : A → List ℕ) (ulist : List (UserList A)) {u : UserList A}
      → hash_find (has_name name) ulist ≡ some u
      → is_nil (f u.intlist) ≡ false
      → IsDistinct key (f u.intlist)
      → AllUsers key ulist
      → AllUsers key (change_list name f ulist)
  unfolding hash_find change_list
  change_list-users key [] h s d all = tt
  change_list-users key (v ∷ ulist) {u} h s d all = elim (Bool-cases (bytes_eq v.name name)) [
    | inl e ↦
        let q : v ≡ u = (let g = rw e at h in cc) in
        rw e (
          ap (λ w. is_nil (f w.intlist)) q ∙ s,
          subst (λ w. IsDistinct key (f w.intlist)) (sym q) d,
          all.2,
        )
    | inr e ↦ rw e (all.0, all.1, change_list-users key ulist (rw e at h) s d all.2)
  ]

  -- the change of a user that is new
  pub change_list-new_user :
      (key : A → List ℕ) (ulist : List (UserList A)) (l : List A)
      → hash_find (has_name name) ulist ≡ none
      → is_nil (f l) ≡ false
      → IsDistinct key (f l)
      → AllUsers key ulist
      → AllUsers key (change_list name f (ulist ++ record { name = name; intlist = l } ∷ []))
  unfolding hash_find change_list
  change_list-new_user key [] l h s d all = rw (bytes_eq_refl name) (s, d, tt)
  change_list-new_user key (v ∷ ulist) l h s d all = elim (Bool-cases (bytes_eq v.name name)) [
    | inl e ↦ absurd (let g = rw e at h in cc)
    | inr e ↦ rw e (all.0, all.1, change_list-new_user key ulist l (rw e at h) s d all.2)
  ]

module _ {A : Type 0} (key : A → List ℕ) (name : List ℕ) where
  pub AllUsers-find :
      (ulist : List (UserList A)) {u : UserList A}
      → hash_find (has_name name) ulist ≡ some u
      → AllUsers key ulist
      → IsDistinct key u.intlist
  unfolding hash_find
  AllUsers-find [] h all = absurd (let g = h in cc)
  AllUsers-find (v ∷ ulist) {u} h all = elim (Bool-cases (bytes_eq v.name name)) [
    | inl e ↦
        let q : v ≡ u = (let g = rw e at h in cc) in subst (λ w. IsDistinct key w.intlist) q all.1
    | inr e ↦ AllUsers-find ulist (rw e at h) all.2
  ]

  pub AllUsers-delete :
      (ulist : List (UserList A))
      → AllUsers key ulist
      → AllUsers key (hash_delete (has_name name) ulist)
  unfolding hash_delete
  AllUsers-delete [] all = tt
  AllUsers-delete (v ∷ ulist) all = elim (Bool-cases (bytes_eq v.name name)) [
    | inl e ↦ rw e all.2
    | inr e ↦ rw e (all.0, all.1, AllUsers-delete ulist all.2)
  ]
