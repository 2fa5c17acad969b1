-- ===== src/Uthash/Unique.antt =====
-- A list with strictly ascending keys is the only ascending permutation of itself.
use native.Mathlib.Bridge.{le_prop}
use mathlib.Core.Logic.Or
use mathlib.Core.List.{Perm, Pairwise, Mem, mem-cons, mem-cons_self}
use mathlib.Core.List.Pairwise
use mathlib.Core.List.Perm
use https_github_com_open_li.Prelude.{ℕ, ◌≤◌, ◌<◌, ◌≡◌, ap, ap₂, sym, List, [], ◌∷◌, arith}

module _ {A : Type 0} (set : IsSet A) (key : A → ℕ) where
  head_le :
      {b : A} {r : List A} (c : A)
      → Pairwise (λ x y. key x ≤ key y) (b ∷ r)
      → Mem c (b ∷ r)
      → key b ≤ key c
  head_le {b} c (Pairwise.cons h _) m =
      Or.elim le_prop (mem-cons.0 m) (λ e. let e' : key c ≡ key b = ap key e in omega arith) (h c)

  head_eq :
      {b c : A} {cs : List A}
      → key b ≤ key c
      → Mem b (c ∷ cs)
      → Pairwise (λ x y. key x < key y) (c ∷ cs)
      → b ≡ c
  head_eq {b} {c} le m (Pairwise.cons h _) =
      Or.elim (set b c) (mem-cons.0 m) (λ e. e) (λ k. absurd (let lt = h b k in omega arith))

  -- An ascending permutation of a strictly ascending list is that list.
  pub sorted_unique :
      (s l : List A)
      → Pairwise (λ x y. key x ≤ key y) s
      → Pairwise (λ x y. key x < key y) l
      → Perm s l
      → s ≡ l
  sorted_unique [] l _ _ p = sym (Perm.eq-nil (Perm.symm p))
  sorted_unique (b ∷ r) [] _ _ p = Perm.eq-nil p
  sorted_unique (b ∷ r) (c ∷ cs) hs hl p =
      let e : b ≡ c =
        head_eq (head_le c hs ((Perm.mem_iff p).1 mem-cons_self)) ((Perm.mem_iff p).0 mem-cons_self)
          hl in
      ap₂ ◌∷◌ e (
        sorted_unique r cs (Pairwise.of_cons hs) (Pairwise.of_cons hl)
          (Perm.cons_inv (Perm.trans p (Perm.symm (Perm.cons' e Perm.rfl)))))
