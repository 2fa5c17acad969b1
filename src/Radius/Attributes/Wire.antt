-- ===== src/Radius/Attributes/Wire.antt =====
-- The attributes of a packet are read back as they were written, and the loop over them ends.
use https_github_com_open_li.Prelude.{
  ℕ, zero, suc, ◌+◌, ◌-◌, ◌≤◌, ◌<◌, ◌≡◌, refl, sym, ap, ◌∙◌, true, false, List, [], ◌∷◌, ◌++◌,
  if◌then◌else◌, leb, ltb, take, drop, length, get_or, done, arith, Bool-cases, inl, inr,
  take-append, drop-append, take-of_le, length-append, length-drop, append_assoc,
}
use https_github_com_open_li.Radius.{Attribute, RadiusParsed}
use https_github_com_open_li.Radius.Attributes.{
  interesting_attribute, buffer_of, written, create_new_attribute, with_attribute, parse_attribute,
  parse_attributes,
}

-- The loop ends: fuel above the number of bytes is enough.
pub parse_attributes-ends :
    (fuel : ℕ) (freeattrs : List (List ℕ)) (m : RadiusParsed) (ptr : List ℕ)
    → length ptr < fuel
    → (r : RadiusParsed × List (List ℕ)) × (parse_attributes fuel freeattrs m ptr ≡ done r)
unfolding parse_attributes
parse_attributes-ends zero freeattrs m ptr h = absurd (omega arith)
parse_attributes-ends (suc fuel) freeattrs m ptr h =
    let next = parse_attribute freeattrs m ptr in
    elim (Bool-cases (leb (length ptr) 2)) [
      | inl e ↦ ((m, freeattrs), rw e refl)
      | inr e ↦ elim (Bool-cases (leb (get_or ptr 1 0) 2)) [
        | inl f ↦ ((m, freeattrs), rw (e, f) refl)
        | inr f ↦ elim (Bool-cases (ltb (length ptr) (get_or ptr 1 0))) [
          | inl g ↦ ((m, freeattrs), rw (e, f, g) refl)
          | inr g ↦
              let (r, q) = parse_attributes-ends fuel next.1 next.0 (drop (get_or ptr 1 0) ptr) (
                omega (
                  arith,
                  length-drop (get_or ptr 1 0) ptr,
                  longer (length ptr) (get_or ptr 1 0) e f,
                )) in
              (r, rw (e, f, g) q)
        ]
      ]
    ]
  where
    longer : (n k : ℕ) → leb n 2 ≡ false → leb k 2 ≡ false → (2 < n) × (2 < k)
    longer n k e f = ground (arith, e, f)

-- attributes as they stand in a packet: type, length with these two bytes, value
abbrev pub encode : List (ℕ × List ℕ) → List ℕ
encode [] = []
encode ((type, value) ∷ l) = type ∷ (length value + 2) ∷ value ++ encode l

-- a value has at least one byte, and its length and two fit into a byte
abbrev pub IsEncodable : List (ℕ × List ℕ) → Type 0
IsEncodable [] = Unit {0}
IsEncodable ((type, value) ∷ l) = (0 < length value) × (length value ≤ 253) × IsEncodable l

-- the type and the value of each attribute
abbrev pub wire : List Attribute → List (ℕ × List ℕ)
wire [] = []
wire (a ∷ attrs) = (a.att_type, take a.att_len a.att_val) ∷ wire attrs

-- the interesting ones, each in front of those before it
abbrev pub onto : List (ℕ × List ℕ) → List (ℕ × List ℕ) → List (ℕ × List ℕ)
onto [] attrs = attrs
onto ((type, value) ∷ l) attrs =
    onto l (if interesting_attribute type then (type, value) ∷ attrs else attrs)

take-written :
    (value buffer : List ℕ) (n : ℕ) → n ≡ length value → take n (written value buffer) ≡ value
take-written value buffer n h = elim (Bool-cases (ltb 64 (length value))) [
  | inl e ↦ rw e (take-of_le n value (omega arith))
  | inr e ↦ rw e (take-append value (drop (length value) buffer) n h)
]

wire-with_attribute :
    (a : Attribute) (m : RadiusParsed)
    → wire (with_attribute a m).attrs ≡ (a.att_type, take a.att_len a.att_val) ∷ wire m.attrs
wire-with_attribute a m = ground arith

-- reading one attribute
wire-parse_attribute :
    (freeattrs : List (List ℕ)) (m : RadiusParsed) (type : ℕ) (value rest : List ℕ)
    → wire (parse_attribute freeattrs m (type ∷ (length value + 2) ∷ value ++ rest)).0.attrs
      ≡ (if interesting_attribute type then (type, value) ∷ wire m.attrs else wire m.attrs)
unfolding parse_attribute create_new_attribute
wire-parse_attribute freeattrs m type value rest =
    let a : Attribute =
      (create_new_attribute freeattrs type (length value + 2) (value ++ rest)).0 in
    let same : length value + 2 - 2 ≡ length value = omega arith in
    let q = take-append value rest (length value + 2 - 2) same in
    elim (Bool-cases (interesting_attribute type)) [
      | inl e ↦ rw e (
          wire-with_attribute a m
          ∙ ap (λ (v : List ℕ). (type, v) ∷ wire m.attrs)
              (take-written (take (length value + 2 - 2) (value ++ rest)) (buffer_of freeattrs).0
                  (length value + 2 - 2) (same ∙ sym (ap length q))
                ∙ q))
      | inr e ↦ rw e refl
    ]

-- one round of the loop
parse_attributes-step :
    (fuel : ℕ) (freeattrs : List (List ℕ)) (m : RadiusParsed) (type : ℕ) (value rest : List ℕ)
    → 0 < length value
    → let next = parse_attribute freeattrs m (type ∷ (length value + 2) ∷ value ++ rest) in
      parse_attributes (suc fuel) freeattrs m (type ∷ (length value + 2) ∷ value ++ rest)
      ≡ parse_attributes fuel next.1 next.0 rest
unfolding parse_attributes
parse_attributes-step fuel freeattrs m type value rest h =
    let next = parse_attribute freeattrs m (type ∷ (length value + 2) ∷ value ++ rest) in
    let long : leb (length (type ∷ (length value + 2) ∷ value ++ rest)) 2 ≡ false =
      ground (arith, length-append value rest) in
    let wide : leb (length value + 2) 2 ≡ false = ground arith in
    let whole : ltb (length (type ∷ (length value + 2) ∷ value ++ rest)) (length value + 2)
        ≡ false =
      ground (arith, length-append value rest) in
    rw (long, wide, whole)
      (ap (parse_attributes fuel next.1 next.0)
        (drop-append (type ∷ (length value + 2) ∷ value) rest (length value + 2) (omega arith)))

-- Attributes whose values have between 1 and 253 bytes, followed by at most two bytes, are read back: with
-- fuel above the number of bytes the loop ends, and the types and values of the interesting ones stand in
-- front of the attributes that were there, the last one first, whatever the buffers on the free list hold.
pub parse_attributes-encode :
    (l : List (ℕ × List ℕ)) (behind : List ℕ) (fuel : ℕ) (freeattrs : List (List ℕ))
    (m : RadiusParsed)
    → IsEncodable l
    → length behind ≤ 2
    → length (encode l ++ behind) < fuel
    → (r : RadiusParsed × List (List ℕ)) × (parse_attributes fuel freeattrs m (encode l ++ behind)
        ≡ done r)
      × (wire r.0.attrs ≡ onto l (wire m.attrs))
unfolding parse_attributes
parse_attributes-encode l behind zero freeattrs m e s h = absurd (omega arith)
parse_attributes-encode [] behind (suc fuel) freeattrs m e s h =
    ((m, freeattrs), rw (let q : leb (length behind) 2 ≡ true = ground arith in q) refl, refl)
parse_attributes-encode ((type, value) ∷ l) behind (suc fuel) freeattrs m e s h =
    let bytes = type ∷ (length value + 2) ∷ value ++ (encode l ++ behind) in
    let next = parse_attribute freeattrs m bytes in
    let (r, run, read) = parse_attributes-encode l behind fuel next.1 next.0 e.2 s (
      omega (
        arith,
        length-append value (encode l ++ behind),
        ap length (append_assoc value (encode l) behind),
      )) in
    (
      r,
      ap (λ b. parse_attributes (suc fuel) freeattrs m (type ∷ (length value + 2) ∷ b))
            (append_assoc value (encode l) behind)
          ∙ parse_attributes-step fuel freeattrs m type value (encode l ++ behind) e.0
          ∙ run,
      read ∙ ap (onto l) (wire-parse_attribute freeattrs m type value (encode l ++ behind)),
    )
