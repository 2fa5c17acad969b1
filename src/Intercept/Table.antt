-- ===== src/Intercept/Table.antt =====
-- Lookup in the tables of intercepts, and what adding and removing do to it.
use https_github_com_open_li.Prelude.{
  ℕ, ◌≡◌, refl, sym, ap, ◌∙◌, Bool, false, Option, none, some, List, [], ◌∷◌, ◌++◌, if◌then◌else◌,
  arith, Bool-cases, inl, inr,
}
use https_github_com_open_li.Uthash.{bytes_eq, hash_find, hash_delete}
use https_github_com_open_li.Uthash.Keys.{bytes_eq-eq, bytes_eq_comm}
use https_github_com_open_li.Intercept.{has_liid}

-- the item of the first option, or of the second
abbrev pub or_option : {A : Type 0} → Option A → Option A → Option A
or_option none o = o
or_option (some a) o = some a

-- the item that was added last is found last
pub find-snoc :
    {A : Type 0} (same : A → Bool) (l : List A) (a : A)
    → hash_find same (l ++ a ∷ []) ≡ or_option (hash_find same l) (if same a then some a else none)
unfolding hash_find
find-snoc same [] a = refl
find-snoc same (x ∷ l) a = elim (Bool-cases (same x)) [
  | inl e ↦ rw e refl
  | inr e ↦ rw e (find-snoc same l a)
]

-- no two items have one key
abbrev pub IsDistinct : {A : Type 0} → (A → List ℕ) → List A → Type 0
IsDistinct key [] = Unit {0}
IsDistinct key (x ∷ l) = (hash_find (has_liid key (key x)) l ≡ none) × IsDistinct key l

module _ {A : Type 0} (key : A → List ℕ) where
  pub find-delete :
      (k : List ℕ) (l : List A)
      → IsDistinct key l
      → hash_find (has_liid key k) (hash_delete (has_liid key k) l) ≡ none
  unfolding hash_find hash_delete
  find-delete k [] d = refl
  find-delete k (x ∷ l) d = elim (Bool-cases (bytes_eq (key x) k)) [
    | inl e ↦ rw e (ap (λ j. hash_find (has_liid key j) l) (sym (bytes_eq-eq (key x) k e)) ∙ d.0)
    | inr e ↦ rw (e, e) (find-delete k l d.1)
  ]

  pub find-delete_ne :
      (k j : List ℕ) (l : List A)
      → bytes_eq k j ≡ false
      → hash_find (has_liid key j) (hash_delete (has_liid key k) l) ≡ hash_find (has_liid key j) l
  unfolding hash_find hash_delete
  find-delete_ne k j [] ne = refl
  find-delete_ne k j (x ∷ l) ne = elim (Bool-cases (bytes_eq (key x) k)) [
    | inl e ↦
        let q : bytes_eq (key x) j ≡ false =
          ap (λ i. bytes_eq i j) (bytes_eq-eq (key x) k e) ∙ ne in
        rw (e, q) refl
    | inr e ↦ rw e (ground (arith, find-delete_ne k j l ne))
  ]

  find_none :
      (k j : List ℕ) (l : List A)
      → hash_find (has_liid key j) l ≡ none
      → hash_find (has_liid key j) (hash_delete (has_liid key k) l) ≡ none
  unfolding hash_find hash_delete
  find_none k j [] h = refl
  find_none k j (x ∷ l) h = ground (arith, find_none k j l)

  pub IsDistinct-delete :
      (k : List ℕ) (l : List A) → IsDistinct key l → IsDistinct key (hash_delete (has_liid key k) l)
  unfolding hash_delete
  IsDistinct-delete k [] d = tt
  IsDistinct-delete k (x ∷ l) d = elim (Bool-cases (bytes_eq (key x) k)) [
    | inl e ↦ rw e d.1
    | inr e ↦ rw e (find_none k (key x) l d.0, IsDistinct-delete k l d.1)
  ]

  pub IsDistinct-snoc :
      (l : List A) (a : A)
      → IsDistinct key l
      → hash_find (has_liid key (key a)) l ≡ none
      → IsDistinct key (l ++ a ∷ [])
  unfolding hash_find
  IsDistinct-snoc [] a d h = (refl, tt)
  IsDistinct-snoc (x ∷ l) a d h = elim (Bool-cases (bytes_eq (key x) (key a))) [
    | inl e ↦ absurd (ground (arith, h, e))
    | inr e ↦ (
      find-snoc (has_liid key (key x)) l a ∙ rw (d.0, bytes_eq_comm (key a) (key x), e) refl,
      IsDistinct-snoc l a d.1 (let q = rw e at h in q),
    )
  ]
