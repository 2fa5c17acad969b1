-- ===== src/Reassembler/Seq.antt =====
-- `seq_cmp` of collector/reassembler.c: comparing TCP sequence numbers that wrap at 2 ^ 32.
mod Tests
use https_github_com_open_li.Prelude.{
  ℕ, ◌+◌, ◌-◌, ◌%◌, ◌<◌, ◌≡◌, Bool, true, false, arith, if◌then◌else◌, ltb, ◌==◌,
}
use https_github_com_open_li.Prelude.Int.{ℤ, pos, negsuc, to_int, ◌-ℤ◌}

unfoldable pub seq_cmp : ℕ → ℕ → ℤ
seq_cmp seq_a seq_b =
    if seq_a == seq_b
    then pos 0
    else if ltb seq_b seq_a
    then to_int (seq_a - seq_b)
    else to_int (4294967295 - (seq_b - seq_a - 1))

-- tests on the value returned
abbrev pub is_negative : ℤ → Bool
is_negative (pos n) = false
is_negative (negsuc n) = true

abbrev pub is_zero : ℤ → Bool
is_zero (pos n) = n == 0
is_zero (negsuc n) = false

abbrev pub is_positive : ℤ → Bool
is_positive (pos n) = ltb 0 n
is_positive (negsuc n) = false

-- The result is the difference modulo 2 ^ 32, read as a signed number.
pub seq_cmp-difference :
    (a b : ℕ)
    → a < 4294967296
    → b < 4294967296
    → seq_cmp a b ≡ to_int ((a + 4294967296 - b) % 4294967296)
unfolding seq_cmp
seq_cmp-difference a b ha hb = ground arith

-- A sequence number that is `d` bytes ahead, less than half the space, compares as `d` ahead, and the
-- other way round as `d` behind, also where it has wrapped.
pub seq_cmp-ahead :
    (a d : ℕ)
    → a < 4294967296
    → d < 2147483648
    → (seq_cmp ((a + d) % 4294967296) a ≡ pos d)
      × (seq_cmp a ((a + d) % 4294967296) ≡ pos 0 -ℤ pos d)
unfolding seq_cmp ◌-ℤ◌
seq_cmp-ahead a d ha hd = ground arith
