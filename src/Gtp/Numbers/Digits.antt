-- ===== src/Gtp/Numbers/Digits.antt =====
-- Digits are read back as they were written, if there are at most fifteen.
use https_github_com_open_li.Prelude.{
  ℕ, suc, ◌+◌, ◌*◌, ◌<◌, ◌≡◌, refl, ap, ◌∙◌, none, some, List, [], ◌∷◌, ◌++◌, if◌then◌else◌, leb,
  length, drop, arith, drop-append,
}
use https_github_com_open_li.Gtp.{InfoElem}
use https_github_com_open_li.Gtp.Numbers.{digits_of, get_gtpnum_from_ie}

-- digits in bytes
abbrev pub bcd : List ℕ → List ℕ
bcd [] = []
bcd (d ∷ []) = (240 + d) ∷ []
bcd (d ∷ e ∷ ds) = (e * 16 + d) ∷ bcd ds

abbrev pub AllDigits : List ℕ → Type 0
AllDigits [] = Unit {0}
AllDigits (d ∷ ds) = (d < 10) × AllDigits ds

abbrev pub text : List ℕ → List ℕ
text [] = []
text (d ∷ ds) = (b'0' + d) ∷ text ds

digits_of-bcd : (ds : List ℕ) → AllDigits ds → digits_of (bcd ds) ≡ text ds
unfolding digits_of
digits_of-bcd [] h = refl
digits_of-bcd (d ∷ []) (h, _) = ground arith
digits_of-bcd (d ∷ e ∷ ds) (h, (k, r)) = ground (arith, digits_of-bcd ds r)

length-text : (ds : List ℕ) → length (text ds) ≡ length ds
length-text [] = refl
length-text (d ∷ ds) = ap suc (length-text ds)

-- A number written as digits in pairs behind `skip` other bytes is read back, digit for digit, if it has at
-- most fifteen digits; a longer one is written over the end of the field.
pub get_gtpnum_from_ie-bcd :
    (gtpel : InfoElem) (skip ds : List ℕ)
    → AllDigits ds
    → gtpel.iecontent ≡ skip ++ bcd ds
    → get_gtpnum_from_ie gtpel (length skip) ≡ (if leb (length ds) 15 then some (text ds) else none)
unfolding get_gtpnum_from_ie
get_gtpnum_from_ie-bcd gtpel skip ds h e =
    let q : digits_of (drop (length skip) gtpel.iecontent) ≡ text ds =
      ap (λ c. digits_of (drop (length skip) c)) e
      ∙ ap digits_of (drop-append skip (bcd ds) (length skip) refl)
      ∙ digits_of-bcd ds h in
    rw (q, length-text ds) (ap (λ b. if b then some (text ds) else none) (ground arith))
