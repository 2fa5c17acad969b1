-- ===== src/Uthash/Keys.antt =====
-- Keys compared as uthash compares them are equal exactly when they are the same bytes.
use https_github_com_open_li.Prelude.{ℕ, ◌≡◌, refl, true, List, [], ◌∷◌, arith}
use https_github_com_open_li.Uthash.{bytes_eq}

pub bytes_eq_refl : (k : List ℕ) → bytes_eq k k ≡ true
bytes_eq_refl [] = refl
bytes_eq_refl (x ∷ k) = ground (arith, bytes_eq_refl k)

-- equal keys are the same list
pub bytes_eq-eq : (j k : List ℕ) → bytes_eq j k ≡ true → j ≡ k
bytes_eq-eq [] [] h = refl
bytes_eq-eq [] (x ∷ k) h = cc
bytes_eq-eq (x ∷ j) [] h = cc
bytes_eq-eq (x ∷ j) (y ∷ k) h = ground (arith, bytes_eq-eq j k)

pub bytes_eq_comm : (j k : List ℕ) → bytes_eq j k ≡ bytes_eq k j
bytes_eq_comm [] [] = refl
bytes_eq_comm [] (y ∷ k) = refl
bytes_eq_comm (x ∷ j) [] = refl
bytes_eq_comm (x ∷ j) (y ∷ k) = ground (arith, bytes_eq_comm j k)
