-- ===== src/Gtp/Numbers.antt =====
-- The numbers of a subscriber in collector/accessplugins/gtp.c: two digits in a byte, the lower four bits
-- first, and 1111 where an odd number of digits ends.
pub mod Digits
use https_github_com_open_li.Prelude.{
  ℕ, ◌+◌, ◌/◌, ◌%◌, Option, none, some, List, [], ◌∷◌, if◌then◌else◌, ltb, ◌==◌, drop, length,
}
use https_github_com_open_li.Gtp.{InfoElem}

-- the size of the fields imsi and msisdn
abbrev pub field_size : ℕ
field_size = 16

-- the characters that are written, without the NUL behind them
unfoldable pub digits_of : List ℕ → List ℕ
digits_of [] = []
digits_of (num ∷ nums) =
    let rest = digits_of nums in
    if num / 16 == 15 then (b'0' + num % 16) ∷ [] else (b'0' + num % 16) ∷ (b'0' + num / 16) ∷ rest

-- the string in the field; `none` is a write behind its end
unfoldable pub get_gtpnum_from_ie : InfoElem → ℕ → Option (List ℕ)
unfolding digits_of
get_gtpnum_from_ie gtpel skipfront =
    let field = digits_of (drop skipfront gtpel.iecontent) in
    if ltb (length field) field_size then some field else none
