-- ===== src/Gtp/Elements/Walk.antt =====
-- The elements of a GTPv2 packet are read back as they were written.
use https_github_com_open_li.Prelude.{
  ℕ, zero, suc, ◌+◌, ◌*◌, ◌/◌, ◌%◌, ◌<◌, ◌≡◌, refl, ap, true, false, ◌||◌, none, some, List, [],
  ◌∷◌, ◌++◌, leb, drop, length, arith, take-append, drop-append, length-append, Outcome, done,
  aborted, Option-cases, inl, inr,
}
use https_github_com_open_li.Gtp.{InfoElem, GtpParsed}
use https_github_com_open_li.Gtp.Elements.{create_new_gtpv2_infoel, with_gtpv2, walk_gtpv2_ies}

-- the elements as they stand in a packet, in front of other bytes
abbrev pub encode : List InfoElem → List ℕ → List ℕ
encode [] behind = behind
encode (ie ∷ l) behind =
    ie.ietype ∷ ie.ielength / 256 ∷ ie.ielength % 256 ∷ ie.ieflags ∷ ie.iecontent ++ encode l behind

-- the number of their bytes
abbrev pub size : List InfoElem → ℕ
size [] = 0
size (ie ∷ l) = ie.ielength + 4 + size l

-- every element has the content that it says, and some
abbrev pub IsEncodable : List InfoElem → Type 0
IsEncodable [] = Unit {0}
IsEncodable (ie ∷ l) = (ie.ielength ≡ length ie.iecontent) × (0 < ie.ielength) × IsEncodable l

-- the packet with the elements, one after the other
abbrev pub with_all : List InfoElem → GtpParsed → Outcome GtpParsed
with_all [] m = done m
with_all (ie ∷ l) m = elim (with_gtpv2 ie m) [ none ↦ aborted | some m' ↦ with_all l m' ]

head_lem :
    (ie : InfoElem) (rest : List ℕ)
    → ie.ielength ≡ length ie.iecontent
    → create_new_gtpv2_infoel ie.ietype ie.ielength
        (ie.ietype ∷ ie.ielength / 256 ∷ ie.ielength % 256 ∷ ie.ieflags ∷ ie.iecontent ++ rest)
      ≡ ie
head_lem ie rest e =
    ap
      (λ c. record {
        ietype = ie.ietype;
        ielength = ie.ielength;
        ieflags = ie.ieflags;
        iecontent = c;
      })
      (take-append ie.iecontent rest ie.ielength e)

-- The elements that a packet has, of its length and with any bytes behind them, are taken into it one after
-- the other, in their order: fuel above the number of their bytes is enough, and no byte behind them and
-- none of another element is read as theirs. Each has content, of the length that it says, and together
-- they have fewer than 65536 bytes.
pub walk_gtpv2_ies-encode :
    (l : List InfoElem) (behind : List ℕ) (fuel used : ℕ) (m : GtpParsed)
    → IsEncodable l
    → used + size l < 65536
    → size l < fuel
    → walk_gtpv2_ies fuel m (encode l behind) used (used + size l) ≡ with_all l m
unfolding walk_gtpv2_ies
walk_gtpv2_ies-encode l behind zero used m w s h = absurd (omega arith)
walk_gtpv2_ies-encode [] behind (suc fuel) used m w s h =
    let q : (leb (length behind) 4 || leb (used + 0) used) ≡ true = ground arith in rw q refl
walk_gtpv2_ies-encode (ie ∷ l) behind (suc fuel) used m (e, n, w) s h =
    let n0 : (ie.ielength / 256) * 256 + ie.ielength % 256 ≡ ie.ielength = omega arith in
    let more : (leb (length (encode (ie ∷ l) behind)) 4 || leb (used + size (ie ∷ l)) used)
        ≡ false =
      ground (arith, length-append ie.iecontent (encode l behind)) in
    let whole : leb (ie.ielength + 4) (length (encode (ie ∷ l) behind)) ≡ true =
      ground (arith, length-append ie.iecontent (encode l behind)) in
    let left : drop (ie.ielength + 4) (encode (ie ∷ l) behind) ≡ encode l behind =
      drop-append (ie.ietype ∷ ie.ielength / 256 ∷ ie.ielength % 256 ∷ ie.ieflags ∷ ie.iecontent)
        (encode l behind) (ie.ielength + 4) (omega arith) in
    let used' : (used + (ie.ielength + 4)) % 65536 ≡ used + (ie.ielength + 4) = omega arith in
    let end : used + size (ie ∷ l) ≡ (used + (ie.ielength + 4)) + size l = omega arith in
    rw (n0, head_lem ie (encode l behind) e, more, whole)
      (elim (Option-cases (with_gtpv2 ie m)) [
        | inl o ↦ rw o (rw (o, with_all) refl)
        | inr (m', o) ↦
            rw (o, n0, left, used', end)
              (rw (o, with_all)
                (walk_gtpv2_ies-encode l behind fuel (used + (ie.ielength + 4)) m' w (omega arith)
                  (omega arith)))
      ])
