-- ===== src/Reassembler/Sip.antt =====
-- `find_sip_message_end` of collector/reassembler.c: where the first SIP message of a buffer ends.
-- The buffer is the list of its bytes, and pointers into it are offsets from its start. The pointer
-- sum `crlf + clenval` is an integer offset: the number is read from eleven characters at most, so it
-- is far from wrapping round the address space, and `strtoul` reads a minus sign as the same step back.
pub mod Framing
pub mod Example
mod Tests
use https_github_com_open_li.Prelude.{
  ℕ, ◌+◌, ◌-◌, ◌*◌, Bool, true, false, ◌&&◌, ◌||◌, Option, none, some, List, [], ◌∷◌, if◌then◌else◌,
  ltb, leb, ◌==◌, Outcome, done, aborted, length, take, drop,
}
use https_github_com_open_li.Prelude.Int.{ℤ, pos, ◌+ℤ◌, ◌-ℤ◌, ltb_ℤ}

-- SIP_END_SEQUENCE, SIP_CONTENT_LENGTH_FIELD and SINGLE_CRLF
abbrev pub sip_end_sequence : List ℕ
sip_end_sequence = 13 ∷ 10 ∷ 13 ∷ 10 ∷ []

abbrev pub sip_content_length_field : List ℕ
sip_content_length_field =
    b'C' ∷ b'o' ∷ b'n' ∷ b't' ∷ b'e' ∷ b'n' ∷ b't' ∷ b'-' ∷ b'L' ∷ b'e' ∷ b'n' ∷ b'g' ∷ b't' ∷ b'h'
    ∷ b':' ∷ 32 ∷ []

abbrev pub single_crlf : List ℕ
single_crlf = 13 ∷ 10 ∷ []

pub starts_with : List ℕ → List ℕ → Bool
starts_with xs [] = true
starts_with [] (y ∷ ys) = false
starts_with (x ∷ xs) (y ∷ ys) = (x == y) && starts_with xs ys

abbrev pub next : Option ℕ → Option ℕ
next none = none
next (some n) = some (n + 1)

-- `memmem`, for a needle that is not empty
pub memmem : List ℕ → List ℕ → Option ℕ
unfolding starts_with
memmem [] needle = none
memmem (x ∷ xs) needle = if starts_with (x ∷ xs) needle then some 0 else next (memmem xs needle)

unfoldable pub is_space : ℕ → Bool
is_space c = (c == 32) || (leb 9 c && leb c 13)

unfoldable pub is_digit : ℕ → Bool
is_digit c = leb 48 c && leb c 57

unfoldable pub digits : ℕ → List ℕ → ℕ
unfolding is_digit
digits acc [] = acc
digits acc (c ∷ cs) = let rest = digits (acc * 10 + (c - 48)) cs in if is_digit c then rest else acc

-- what follows the white space: a sign and the digits
pub signed : List ℕ → ℤ
unfolding digits
signed [] = pos 0
signed (c ∷ cs) =
    if c == b'-'
    then pos 0 -ℤ pos (digits 0 cs)
    else if c == b'+'
    then pos (digits 0 cs)
    else pos (digits 0 (c ∷ cs))

-- `strtoul(s, NULL, 10)` of a string too short to overflow, as a step for a pointer
pub strtoul : List ℕ → ℤ
unfolding signed is_space
strtoul [] = signed []
strtoul (c ∷ cs) = let rest = strtoul cs in if is_space c then rest else signed (c ∷ cs)

-- the last test, against the end of the buffer
pub within : List ℕ → ℤ → Option ℤ
within content end = if ltb_ℤ (pos (length content)) end then none else some end

-- from `clengthstart`, with the value in front of `clengthend`
pub read_length : List ℕ → ℕ → List ℕ → Outcome (Option ℤ)
unfolding strtoul within
read_length content crlf field = elim (memmem field single_crlf) [
  | none ↦ done none
  | some k ↦
      if ltb k 12 then done (within content (pos crlf +ℤ strtoul (take k field))) else aborted
]

pub find_sip_message_end : List ℕ → Outcome (Option ℤ)
unfolding memmem read_length
find_sip_message_end content = elim (memmem content sip_end_sequence) [
  | none ↦ done none
  | some i ↦ elim (memmem content sip_content_length_field) [
    | none ↦ done none
    | some j ↦ read_length content (i + 4) (drop (j + 16) content)
  ]
]
