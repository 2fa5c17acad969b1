-- ===== src/Uthash/Insertion.antt =====
-- A sort that meets the interface of `Sorter`: insertion by the comparison function.
use native.Mathlib.Bridge.{le_prop}
use mathlib.Core.Logic.Or
use mathlib.Core.List.{Perm, Pairwise, mem-cons, not-mem-nil}
use mathlib.Core.List.Perm
use https_github_com_open_li.Prelude.{
  ℕ, ◌≤◌, ◌≡◌, true, false, Bool-cases, inl, inr, List, [], ◌∷◌, if◌then◌else◌, arith,
}
use https_github_com_open_li.Prelude.Int.{ℤ, pos, ltb_ℤ, ◌-ℤ◌}
use https_github_com_open_li.Uthash.{Sorter}

module _ {A : Type 0} where
  insert : (A → A → ℤ) → A → List A → List A
  insert cmp x [] = x ∷ []
  insert cmp x (y ∷ l) = if ltb_ℤ (cmp y x) (pos 0) then y ∷ insert cmp x l else x ∷ y ∷ l

  pub insertion_sort : (A → A → ℤ) → List A → List A
  insertion_sort cmp [] = []
  insertion_sort cmp (x ∷ l) = insert cmp x (insertion_sort cmp l)

  insert-perm : (cmp : A → A → ℤ) (x : A) (l : List A) → Perm (insert cmp x l) (x ∷ l)
  unfolding insert
  insert-perm cmp x [] = Perm.refl (x ∷ [])
  insert-perm cmp x (y ∷ l) = elim (Bool-cases (ltb_ℤ (cmp y x) (pos 0))) [
    | inl e ↦ rw e (Perm.trans (Perm.cons y (insert-perm cmp x l)) (Perm.swap x y l))
    | inr e ↦ rw e (Perm.refl (x ∷ y ∷ l))
  ]

  pub insertion_sort-perm : (cmp : A → A → ℤ) (l : List A) → Perm (insertion_sort cmp l) l
  unfolding insertion_sort
  insertion_sort-perm cmp [] = Perm.refl []
  insertion_sort-perm cmp (x ∷ l) =
      Perm.trans (insert-perm cmp x (insertion_sort cmp l))
        (Perm.cons x (insertion_sort-perm cmp l))

  module _ (cmp : A → A → ℤ) (key : A → ℕ)
      (by_key : (a b : A) → cmp a b ≡ pos (key a) -ℤ pos (key b)) where
    less : (a b : A) → ltb_ℤ (cmp a b) (pos 0) ≡ true → key a ≤ key b
    unfolding ◌-ℤ◌
    less a b h = ground (arith, by_key a b)

    not_less : (a b : A) → ltb_ℤ (cmp a b) (pos 0) ≡ false → key b ≤ key a
    unfolding ◌-ℤ◌
    not_less a b h = ground (arith, by_key a b)

    insert-ascending :
        (x : A) (l : List A)
        → Pairwise (λ a b. key a ≤ key b) l
        → Pairwise (λ a b. key a ≤ key b) (insert cmp x l)
    unfolding insert
    insert-ascending x [] h = Pairwise.cons (λ b m. absurd (not-mem-nil m)) Pairwise.nil
    insert-ascending x (y ∷ l) (Pairwise.cons below h) =
        elim (Bool-cases (ltb_ℤ (cmp y x) (pos 0))) [
          | inl e ↦ rw e (
              Pairwise.cons
                (λ b m.
                  Or.elim le_prop (mem-cons.0 ((Perm.mem_iff (insert-perm cmp x l)).0 m))
                    (λ q. rw q (less y x e)) (below b))
                (insert-ascending x l h))
          | inr e ↦ rw e (
              Pairwise.cons
                (λ b m.
                  Or.elim le_prop (mem-cons.0 m) (λ q. rw q (not_less y x e))
                    (λ k. omega (arith, below b k, not_less y x e)))
                (Pairwise.cons below h))
        ]

    pub insertion_sort-ascending :
        (l : List A) → Pairwise (λ a b. key a ≤ key b) (insertion_sort cmp l)
    unfolding insertion_sort
    insertion_sort-ascending [] = Pairwise.nil
    insertion_sort-ascending (x ∷ l) =
        insert-ascending x (insertion_sort cmp l) (insertion_sort-ascending l)

unfoldable pub insertion_sorter : (A : Type 0) → Sorter A
unfolding insertion_sort insert
insertion_sorter A = record {
  sort = insertion_sort;
  sort-perm = insertion_sort-perm;
  sort-ascending = λ cmp key l h. insertion_sort-ascending cmp key h l;
}
