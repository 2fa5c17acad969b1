-- ===== src/Reassembler/Sip/Framing.antt =====
-- A SIP message is found exactly when all of it is in the buffer, whatever follows it.
use https_github_com_open_li.Prelude.{
  ℕ, ◌+◌, ◌≤◌, ◌<◌, ◌≡◌, ◌≢◌, refl, ap, true, ◌&&◌, none, some, List, [], ◌∷◌, ◌++◌, arith,
  if◌then◌else◌, ltb, ◌==◌, Bool-cases, Option-cases, inl, inr, done, aborted, out_of_fuel, length,
  take, drop, length-append, drop-append_le, take-append_le,
}
use https_github_com_open_li.Prelude.Int.{pos, ◌+ℤ◌}
use https_github_com_open_li.Reassembler.Sip.{
  sip_end_sequence, sip_content_length_field, single_crlf, starts_with, memmem, strtoul, within,
  read_length, find_sip_message_end,
}

starts_with-append :
    (xs ys needle : List ℕ)
    → length needle ≤ length xs
    → starts_with (xs ++ ys) needle ≡ starts_with xs needle
unfolding starts_with
starts_with-append xs ys [] h = refl
starts_with-append [] ys (n ∷ ns) h = absurd (omega arith)
starts_with-append (x ∷ xs) ys (n ∷ ns) h =
    ap (λ b. (x == n) && b) (starts_with-append xs ys ns (omega arith))

starts_with-le : (xs needle : List ℕ) → starts_with xs needle ≡ true → length needle ≤ length xs
unfolding starts_with
starts_with-le xs [] h = omega arith
starts_with-le [] (n ∷ ns) h = cc
starts_with-le (x ∷ xs) (n ∷ ns) h = ground (arith, starts_with-le xs ns)

pub memmem-bound :
    (xs needle : List ℕ) {i : ℕ} → memmem xs needle ≡ some i → i + length needle ≤ length xs
unfolding memmem
memmem-bound [] needle h = cc
memmem-bound (x ∷ xs) needle {i} h = elim (Bool-cases (starts_with (x ∷ xs) needle)) [
  | inl e ↦ ground (arith, starts_with-le (x ∷ xs) needle e, e)
  | inr e ↦ elim (Option-cases (memmem xs needle)) [
    | inl q ↦ ground (arith, e, q)
    | inr (k, q) ↦ ground (arith, e, q, memmem-bound xs needle q)
  ]
]

-- The first occurrence stays the first one when bytes are added behind.
pub memmem-append :
    (xs ys needle : List ℕ) {i : ℕ} → memmem xs needle ≡ some i → memmem (xs ++ ys) needle ≡ some i
unfolding memmem
memmem-append [] ys needle h = cc
memmem-append (x ∷ xs) ys needle {i} h =
    let bound = memmem-bound (x ∷ xs) needle h in
    let same : starts_with (x ∷ xs ++ ys) needle ≡ starts_with (x ∷ xs) needle =
      starts_with-append (x ∷ xs) ys needle (omega arith) in
    elim (Option-cases (memmem xs needle)) [
      | inl q ↦ ground (arith, same, q)
      | inr (k, q) ↦ ground (arith, same, q, memmem-append xs ys needle {i = k} q)
    ]

-- A message header: it ends with its blank line, and its Content-Length field, of fewer than twelve
-- characters, says `n`.
pub record Header (head : List ℕ) (n : ℕ) : Type 0 where
  pub blank_at : ℕ
  pub blank : memmem head sip_end_sequence ≡ some blank_at
  pub ends : blank_at + 4 ≡ length head
  pub field_at : ℕ
  pub field : memmem head sip_content_length_field ≡ some field_at
  pub line_at : ℕ
  pub line : memmem (drop (field_at + 16) head) single_crlf ≡ some line_at
  pub short : line_at < 12
  pub value : strtoul (take line_at (drop (field_at + 16) head)) ≡ pos n

-- With a whole header in the buffer the end is that of the body, once the body is there.
pub find_sip_message_end-Header :
    (head : List ℕ) (n : ℕ) (after : List ℕ)
    → Header head n
    → find_sip_message_end (head ++ after)
      ≡ done (if ltb (length after) n then none else some (pos (length head + n)))
unfolding find_sip_message_end read_length within ◌+ℤ◌
find_sip_message_end-Header head n after h =
    let rest = drop (h.field_at + 16) head in
    let bound = memmem-bound head sip_content_length_field h.field in
    let line_bound = memmem-bound rest single_crlf h.line in
    let tail : drop (h.field_at + 16) (head ++ after) ≡ rest ++ after =
      drop-append_le head after (h.field_at + 16) (omega arith) in
    let number : take h.line_at (rest ++ after) ≡ take h.line_at rest =
      take-append_le rest after h.line_at (omega arith) in
    ground (
      arith,
      memmem-append head after sip_end_sequence h.blank,
      memmem-append head after sip_content_length_field h.field,
      tail,
      memmem-append rest after single_crlf h.line,
      number,
      h.value,
      length-append head after,
      h.ends,
      h.short,
    )

-- Without a blank line there is no message yet.
pub find_sip_message_end-no_blank :
    (content : List ℕ)
    → memmem content sip_end_sequence ≡ none
    → find_sip_message_end content ≡ done none
unfolding find_sip_message_end
find_sip_message_end-no_blank content h = rw (h, find_sip_message_end)

-- A Content-Length line of twelve characters or more behind a blank line fails the assertion.
pub find_sip_message_end-long_aborts :
    (content : List ℕ) (blank_at field_at line_at : ℕ)
    → memmem content sip_end_sequence ≡ some blank_at
    → memmem content sip_content_length_field ≡ some field_at
    → memmem (drop (field_at + 16) content) single_crlf ≡ some line_at
    → 12 ≤ line_at
    → find_sip_message_end content ≡ aborted
unfolding find_sip_message_end read_length
find_sip_message_end-long_aborts content b f l hb hf hl long = ground (arith, hb, hf, hl)

-- The search ends: it is no loop on fuel.
pub find_sip_message_end-ends : (content : List ℕ) → find_sip_message_end content ≢ out_of_fuel
unfolding find_sip_message_end read_length
find_sip_message_end-ends content = ground arith
