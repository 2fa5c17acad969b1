-- ===== src/Gtp/TvElements.antt =====
-- The loop over the information elements of GTPv1 in collector/accessplugins/gtp.c: those with a type of
-- 128 or more say their length, the others have the one that their type gives. The bytes, `rem` and
-- `aborted` are as in Gtp.Elements.
pub mod Walk
use https_github_com_open_li.Prelude.{
  ℕ, zero, suc, ◌+◌, ◌%◌, Bool, true, false, ◌&&◌, ◌||◌, Option, none, some, List, [], ◌∷◌,
  if◌then◌else◌, ltb, leb, ◌==◌, take, drop, length, get_or, Outcome, done, aborted, out_of_fuel,
}
use https_github_com_open_li.Netcomms.{load16}
use https_github_com_open_li.Gtp.{InfoElem, GtpParsed, create_pdp_context_request}
use https_github_com_open_li.Gtp.Ie
use https_github_com_open_li.Gtp.Numbers.{get_gtpnum_from_ie}
use https_github_com_open_li.Gtp.Elements.{get_teid_from_teidctl, get_cause_from_ie, set_if}

-- the bytes in front of the content
abbrev pub head_size : ℕ → ℕ
head_size ietype = if ltb 127 ietype then 3 else 1

abbrev pub create_new_gtpv1_infoel : ℕ → ℕ → List ℕ → InfoElem
create_new_gtpv1_infoel ietype ielen ieptr = record {
  ietype = ietype;
  ielength = ielen;
  ieflags = 0;
  iecontent = take ielen (drop (head_size ietype) ieptr);
}

-- what an interesting element changes in the packet
unfoldable pub note_gtpv1 : InfoElem → GtpParsed → Option GtpParsed
unfolding get_gtpnum_from_ie
note_gtpv1 gtpel m =
    let creates = m.msgtype == create_pdp_context_request in
    let is_teid = gtpel.ietype == Ie.v1_teid_ctrl in
    set_if (gtpel.ietype == Ie.v1_cause) (get_cause_from_ie gtpel)
      (λ c m. record m { response_cause = c })
      (set_if is_teid (get_teid_from_teidctl gtpel) (λ t m. record m { teid_ctl = t })
        (set_if (creates && (gtpel.ietype == Ie.v1_msisdn)) (get_gtpnum_from_ie gtpel 1)
          (λ s m. record m { msisdn = s })
          (set_if (creates && (gtpel.ietype == Ie.v1_imsi)) (get_gtpnum_from_ie gtpel 0)
            (λ s m. record m { imsi = s })
            (set_if (creates && is_teid) (get_teid_from_teidctl gtpel)
              (λ t m. record m { teid = t }) (some (record m { ies = gtpel ∷ m.ies }))))))

-- the same for an element that may not be interesting
unfoldable pub with_gtpv1 : InfoElem → GtpParsed → Option GtpParsed
unfolding note_gtpv1 Ie.interesting_info_element
with_gtpv1 gtpel m =
    if Ie.interesting_info_element m.version gtpel.ietype then note_gtpv1 gtpel m else some m

abbrev pub length_of : ℕ → List ℕ → ℕ
length_of ietype ptr = if ltb 127 ietype then load16 (drop 1 ptr) else Ie.gtpv1_lookup_ielen ietype

-- the loop, on fuel; 0 is true and -1 false
pub walk_gtpv1_ies : ℕ → GtpParsed → List ℕ → ℕ → ℕ → Outcome (Bool × GtpParsed)
walk_gtpv1_ies zero m ptr used gtplen = out_of_fuel
walk_gtpv1_ies (suc fuel) m ptr used gtplen =
    let ietype = get_or ptr 0 0 in
    let ielen = length_of ietype ptr in
    let all = ielen + head_size ietype in
    let used' = (used + all) % 65536 in
    let rest =
      elim (with_gtpv1 (create_new_gtpv1_infoel ietype ielen ptr) m)
        as (λ _. Outcome (Bool × GtpParsed)) [
          | none ↦ aborted
          | some m' ↦ walk_gtpv1_ies fuel m' (drop all ptr) used' gtplen
        ] in
    if leb (length ptr) 2 || leb gtplen used
    then done (true, m)
    else if ielen == 0
    then done (false, m)
    else if leb all (length ptr)
    then rest
    else if Ie.interesting_info_element m.version ietype || ltb used' gtplen
    then aborted
    else done (true, m)
