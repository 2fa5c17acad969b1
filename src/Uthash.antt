-- ===== src/Uthash.antt =====
-- What the program uses of the header library uthash, whose code is not in the repository.
-- A table is the list of its items in the order in which they were added, which is the order that
-- HASH_ITER follows. HASH_SORT is an interface: any sort that keeps the items and follows the
-- comparison function that it is given.
mod Unique
pub mod Insertion
pub mod Keys
pub use Unique.{sorted_unique}
use mathlib.Core.List.{Perm, Pairwise}
use https_github_com_open_li.Prelude.{
  ℕ, ◌≤◌, ◌≡◌, Bool, Option, none, some, List, [], ◌∷◌, ◌++◌, if◌then◌else◌, ◌==◌, ◌&&◌, true,
  false,
}
use https_github_com_open_li.Prelude.Int.{ℤ, pos, ◌-ℤ◌}

-- HASH_SORT(hh, table, cmp)
pub record Sorter (A : Type 0) : Type 0 where
  pub sort : (A → A → ℤ) → List A → List A
  pub sort-perm : (cmp : A → A → ℤ) (l : List A) → Perm (sort cmp l) l
  -- a comparison function that is the difference of two keys sorts by that key
  pub sort-ascending :
      (cmp : A → A → ℤ) (key : A → ℕ) (l : List A)
      → ((a b : A) → cmp a b ≡ pos (key a) -ℤ pos (key b))
      → Pairwise (λ a b. key a ≤ key b) (sort cmp l)

-- memcmp of two keys of any lengths: uthash compares the lengths first
abbrev pub bytes_eq : List ℕ → List ℕ → Bool
bytes_eq [] [] = true
bytes_eq (x ∷ xs) (y ∷ ys) = (x == y) && bytes_eq xs ys
bytes_eq _ _ = false

-- HASH_FIND, where an item's key is what `same` recognises
unfoldable pub hash_find {ℓ} : {A : Type ℓ} → (A → Bool) → List A → Option A
hash_find same [] = none
hash_find same (x ∷ xs) = if same x then some x else hash_find same xs

-- HASH_ADD_KEYPTR
abbrev pub hash_add {ℓ} : {A : Type ℓ} → A → List A → List A
hash_add x xs = xs ++ x ∷ []

-- HASH_DELETE of the item that HASH_FIND gives
unfoldable pub hash_delete {ℓ} : {A : Type ℓ} → (A → Bool) → List A → List A
hash_delete same [] = []
hash_delete same (x ∷ xs) = if same x then xs else x ∷ hash_delete same xs
