-- ===== src/Gtp/Elements.antt =====
-- The loops over the information elements of a packet in collector/accessplugins/gtp.c. `ptr` holds the
-- captured bytes, whose number `rem` is; `aborted` is a read behind them, behind the content of an
-- element, or a write behind a field. `rem` wraps below 0, so the loop goes on behind the bytes, where
-- the next read is one.
pub mod Walk
use https_github_com_open_li.Prelude.{
  ℕ, zero, suc, ◌+◌, ◌%◌, ◌/◌, Bool, true, false, not, ◌&&◌, ◌||◌, Option, none, some, List, [],
  ◌∷◌, if◌then◌else◌, ltb, leb, ◌==◌, take, drop, length, get_or, Outcome, done, aborted,
  out_of_fuel,
}
use https_github_com_open_li.Netcomms.{load16, load32}
use https_github_com_open_li.Gtp.{
  InfoElem, GtpParsed, create_session_request, delete_session_request, create_pdp_context_request,
}
use https_github_com_open_li.Gtp.Ie
use https_github_com_open_li.Gtp.Numbers.{get_gtpnum_from_ie}

abbrev pub create_new_gtpv2_infoel : ℕ → ℕ → List ℕ → InfoElem
create_new_gtpv2_infoel ietype ielen ieptr = record {
  ietype = ietype;
  ielength = ielen;
  ieflags = get_or ieptr 3 0;
  iecontent = take ielen (drop 4 ieptr);
}

-- the TEID in the content, whose first byte has flags
abbrev pub get_teid_from_fteid : InfoElem → Option ℕ
get_teid_from_fteid gtpel =
    if ltb (length gtpel.iecontent) 5 then none else some (load32 (drop 1 gtpel.iecontent))

abbrev pub get_teid_from_teidctl : InfoElem → Option ℕ
get_teid_from_teidctl gtpel =
    if ltb (length gtpel.iecontent) 4 then none else some (load32 gtpel.iecontent)

abbrev pub get_cause_from_ie : InfoElem → Option ℕ
get_cause_from_ie gtpel =
    if ltb (length gtpel.iecontent) 1 then none else some (get_or gtpel.iecontent 0 0)

-- a field is set to what was read, if the test says so
abbrev pub set_if {ℓ} :
    {A : Type ℓ}
    → Bool
    → Option A
    → (A → GtpParsed → GtpParsed)
    → Option GtpParsed
    → Option GtpParsed
set_if false o f m = m
set_if true (some a) f (some m) = some (f a m)
set_if true _ f _ = none

-- what an interesting element of GTPv2 changes in the packet
unfoldable pub note_gtpv2 : InfoElem → GtpParsed → Option GtpParsed
unfolding get_gtpnum_from_ie
note_gtpv2 gtpel m =
    let creates = m.msgtype == create_session_request in
    let deletes = m.msgtype == delete_session_request in
    let is_fteid = gtpel.ietype == Ie.v2_fteid in
    set_if (gtpel.ietype == Ie.v2_cause) (get_cause_from_ie gtpel)
      (λ c m. record m { response_cause = c })
      (set_if (deletes && is_fteid) (get_teid_from_fteid gtpel) (λ t m. record m { teid = t })
        (set_if (creates && (gtpel.ietype == Ie.v2_msisdn)) (get_gtpnum_from_ie gtpel 0)
          (λ s m. record m { msisdn = s })
          (set_if (creates && (gtpel.ietype == Ie.v2_imsi)) (get_gtpnum_from_ie gtpel 0)
            (λ s m. record m { imsi = s })
            (set_if (creates && is_fteid) (get_teid_from_fteid gtpel) (λ t m. record m { teid = t })
              (some (record m { ies = gtpel ∷ m.ies }))))))

-- the same for an element that may not be interesting
unfoldable pub with_gtpv2 : InfoElem → GtpParsed → Option GtpParsed
unfolding note_gtpv2 Ie.interesting_info_element
with_gtpv2 gtpel m =
    if Ie.interesting_info_element m.version gtpel.ietype then note_gtpv2 gtpel m else some m

-- the loop, on fuel; `used` and `gtplen` have 16 bits
pub walk_gtpv2_ies : ℕ → GtpParsed → List ℕ → ℕ → ℕ → Outcome GtpParsed
walk_gtpv2_ies zero m ptr used gtplen = out_of_fuel
walk_gtpv2_ies (suc fuel) m ptr used gtplen =
    let ietype = get_or ptr 0 0 in
    let ielen = load16 (drop 1 ptr) in
    let gtpel = create_new_gtpv2_infoel ietype ielen ptr in
    let used' = (used + (ielen + 4)) % 65536 in
    let rest = elim (with_gtpv2 gtpel m) as (λ _. Outcome GtpParsed) [
      | none ↦ aborted
      | some m' ↦ walk_gtpv2_ies fuel m' (drop (ielen + 4) ptr) used' gtplen
    ] in
    if leb (length ptr) 4 || leb gtplen used
    then done m
    else if leb (ielen + 4) (length ptr)
    then rest
    else if Ie.interesting_info_element m.version ietype || ltb used' gtplen
    then aborted
    else done m
