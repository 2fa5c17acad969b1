-- ===== src/Gtp/TvElements/Walk.antt =====
-- The elements of a GTPv1 packet are read back as they were written.
use https_github_com_open_li.Prelude.{
  ℕ, zero, suc, ◌+◌, ◌/◌, ◌%◌, ◌<◌, ◌≡◌, refl, ◌∙◌, ap₂, sym, subst, get_or, Bool, true, false,
  ◌||◌, none, some, List, [], ◌∷◌, ◌++◌, if◌then◌else◌, ltb, leb, ◌==◌, drop, length, arith,
  take-append, drop-append, length-append, Outcome, done, aborted, Option-cases, Bool-cases, inl,
  inr,
}
use https_github_com_open_li.Gtp.{InfoElem, GtpParsed}
use https_github_com_open_li.Gtp.Ie
use https_github_com_open_li.Gtp.TvElements.{
  head_size, create_new_gtpv1_infoel, with_gtpv1, length_of, walk_gtpv1_ies,
}

-- the bytes in front of the content
abbrev pub head_of : InfoElem → List ℕ
head_of ie =
    if ltb 127 ie.ietype
    then ie.ietype ∷ ie.ielength / 256 ∷ ie.ielength % 256 ∷ []
    else ie.ietype ∷ []

-- the elements as they stand in a packet, in front of other bytes
abbrev pub encode : List InfoElem → List ℕ → List ℕ
encode [] behind = behind
encode (ie ∷ l) behind = head_of ie ++ (ie.iecontent ++ encode l behind)

-- the number of their bytes
abbrev pub size : List InfoElem → ℕ
size [] = 0
size (ie ∷ l) = ie.ielength + head_size ie.ietype + size l

-- every element has some content, of the length that it says or that its type has, and no flags
abbrev pub IsEncodable : List InfoElem → Type 0
IsEncodable [] = Unit {0}
IsEncodable (ie ∷ l) =
    (ie.ielength ≡ length ie.iecontent)
    × (0 < ie.ielength)
    × (ie.ieflags ≡ 0)
    × ((if ltb 127 ie.ietype then ie.ielength else Ie.gtpv1_lookup_ielen ie.ietype) ≡ ie.ielength)
    × IsEncodable l

-- the packet with the elements, one after the other
abbrev pub with_all : List InfoElem → GtpParsed → Outcome (Bool × GtpParsed)
with_all [] m = done (true, m)
with_all (ie ∷ l) m = elim (with_gtpv1 ie m) [ none ↦ aborted | some m' ↦ with_all l m' ]

-- what the loop computes from the bytes of an element
record IsRead (ie : InfoElem) (ptr rest : List ℕ) : Type 0 where
  first : get_or ptr 0 0 ≡ ie.ietype
  said : length_of ie.ietype ptr ≡ ie.ielength
  made : create_new_gtpv1_infoel ie.ietype ie.ielength ptr ≡ ie
  left : drop (ie.ielength + head_size ie.ietype) ptr ≡ rest
  wide : length ptr ≡ ie.ielength + head_size ie.ietype + length rest

encode-IsRead :
    (ie : InfoElem) (rest : List ℕ)
    → ie.ielength ≡ length ie.iecontent
    → ie.ieflags ≡ 0
    → (if ltb 127 ie.ietype then ie.ielength else Ie.gtpv1_lookup_ielen ie.ietype) ≡ ie.ielength
    → IsRead ie (head_of ie ++ (ie.iecontent ++ rest)) rest
encode-IsRead ie rest e f n = elim (Bool-cases (ltb 127 ie.ietype)) [
  | inl tlv ↦
      let known : head_of ie ≡ ie.ietype ∷ ie.ielength / 256 ∷ ie.ielength % 256 ∷ [] =
        rw tlv refl in
      subst (λ h. IsRead ie (h ++ (ie.iecontent ++ rest)) rest) (sym known)
        (record {
          first = refl;
          said = rw tlv (omega arith);
          made = rw tlv (
              ap₂
                (λ c g. record {
                  ietype = ie.ietype;
                  ielength = ie.ielength;
                  ieflags = g;
                  iecontent = c;
                })
                (take-append ie.iecontent rest ie.ielength e) (sym f));
          left = rw tlv (
              drop-append (ie.ietype ∷ ie.ielength / 256 ∷ ie.ielength % 256 ∷ ie.iecontent) rest
                (ie.ielength + 3) (omega arith));
          wide = rw tlv (omega (arith, length-append ie.iecontent rest));
        })
  | inr tv ↦
      let known : head_of ie ≡ ie.ietype ∷ [] = rw tv refl in
      subst (λ h. IsRead ie (h ++ (ie.iecontent ++ rest)) rest) (sym known)
        (record {
          first = refl;
          said = rw tv (rw tv at n);
          made = rw tv (
              ap₂
                (λ c g. record {
                  ietype = ie.ietype;
                  ielength = ie.ielength;
                  ieflags = g;
                  iecontent = c;
                })
                (take-append ie.iecontent rest ie.ielength e) (sym f));
          left =
              rw tv (drop-append (ie.ietype ∷ ie.iecontent) rest (ie.ielength + 1) (omega arith));
          wide = rw tv (omega (arith, length-append ie.iecontent rest));
        })
]

-- whatever elements are in front, some byte stays
encode-longer :
    (l : List InfoElem) (behind : List ℕ) → 0 < length behind → 0 < length (encode l behind)
encode-longer [] behind b = b
encode-longer (ie ∷ l) behind b = omega (
  arith,
  length-append (head_of ie) (ie.iecontent ++ encode l behind),
  length-append ie.iecontent (encode l behind),
  encode-longer l behind b,
)

-- one round of the loop over a whole element
walk-step :
    (ie : InfoElem) (ptr rest : List ℕ) (fuel used gtplen : ℕ) (m : GtpParsed)
    → IsRead ie ptr rest
    → 0 < ie.ielength
    → 0 < length rest
    → used + (ie.ielength + head_size ie.ietype) < 65536
    → used < gtplen
    → walk_gtpv1_ies (suc fuel) m ptr used gtplen
      ≡ (elim (with_gtpv1 ie m) as (λ _. Outcome (Bool × GtpParsed)) [
        | none ↦ aborted
        | some m' ↦ walk_gtpv1_ies fuel m' rest (used + (ie.ielength + head_size ie.ietype)) gtplen
      ])
unfolding walk_gtpv1_ies
walk-step ie ptr rest fuel used gtplen m r n b s u =
    let more : (leb (length ptr) 2 || leb gtplen used) ≡ false = ground (arith, r.wide, size_pos) in
    let some_length : (ie.ielength == 0) ≡ false = ground arith in
    let whole : leb (ie.ielength + head_size ie.ietype) (length ptr) ≡ true =
      ground (arith, r.wide) in
    let used' : (used + (ie.ielength + head_size ie.ietype)) % 65536
        ≡ used + (ie.ielength + head_size ie.ietype) =
      omega arith in
    rw (r.first, r.said, r.made, more, some_length, whole)
      (elim (Option-cases (with_gtpv1 ie m)) [
        | inl o ↦ rw o refl
        | inr (m', o) ↦ rw (o, r.first, r.said, r.left, used') refl
      ])
  where
    size_pos : 0 < head_size ie.ietype
    size_pos = ground arith

-- The elements of GTPv1 that a packet has, of its length and with at least one byte behind them, are taken
-- into it one after the other, in their order: fuel above the number of their bytes is enough, and no byte
-- behind them and none of another element is read as theirs. Each has content, of the length that it
-- says or that its type has, and together they have fewer than 65536 bytes.
pub walk_gtpv1_ies-encode :
    (l : List InfoElem) (behind : List ℕ) (fuel used : ℕ) (m : GtpParsed)
    → IsEncodable l
    → 0 < length behind
    → used + size l < 65536
    → size l < fuel
    → walk_gtpv1_ies fuel m (encode l behind) used (used + size l) ≡ with_all l m
unfolding walk_gtpv1_ies
walk_gtpv1_ies-encode l behind zero used m w b s h = absurd (omega arith)
walk_gtpv1_ies-encode [] behind (suc fuel) used m w b s h =
    let q : (leb (length behind) 2 || leb (used + 0) used) ≡ true = ground arith in rw q refl
walk_gtpv1_ies-encode (ie ∷ l) behind (suc fuel) used m (e, n, f, k, w) b s h =
    let all = ie.ielength + head_size ie.ietype in
    let end : used + size (ie ∷ l) ≡ (used + all) + size l = omega arith in
    walk-step ie (encode (ie ∷ l) behind) (encode l behind) fuel used (used + size (ie ∷ l)) m
      (encode-IsRead ie (encode l behind) e f k) n (encode-longer l behind b) (omega arith)
      (omega arith)
    ∙ elim (Option-cases (with_gtpv1 ie m)) [
      | inl o ↦ rw o (rw (o, with_all) refl)
      | inr (m', o) ↦
          rw (o, end)
            (rw (o, with_all)
              (walk_gtpv1_ies-encode l behind fuel (used + all) m' w b (omega arith) (omega arith)))
    ]
