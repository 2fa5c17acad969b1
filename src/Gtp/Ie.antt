-- ===== src/Gtp/Ie.antt =====
-- The types of information elements that collector/accessplugins/gtp.c names, of both versions of GTP.
use https_github_com_open_li.Prelude.{ℕ, Bool, ◌||◌, false, List, [], ◌∷◌, if◌then◌else◌, ◌==◌}

abbrev pub v1_cause : ℕ
v1_cause = 1

abbrev pub v1_imsi : ℕ
v1_imsi = 2

abbrev pub v1_teid_ctrl : ℕ
v1_teid_ctrl = 17

abbrev pub v1_end_user_address : ℕ
v1_end_user_address = 128

abbrev pub v1_apname : ℕ
v1_apname = 131

abbrev pub v1_msisdn : ℕ
v1_msisdn = 134

abbrev pub v1_uli : ℕ
v1_uli = 152

abbrev pub v1_mei : ℕ
v1_mei = 154

abbrev pub v2_imsi : ℕ
v2_imsi = 1

abbrev pub v2_cause : ℕ
v2_cause = 2

abbrev pub v2_apname : ℕ
v2_apname = 71

abbrev pub v2_mei : ℕ
v2_mei = 75

abbrev pub v2_msisdn : ℕ
v2_msisdn = 76

abbrev pub v2_pdn_alloc : ℕ
v2_pdn_alloc = 79

abbrev pub v2_uli : ℕ
v2_uli = 86

abbrev pub v2_fteid : ℕ
v2_fteid = 87

unfoldable pub interesting_info_element : ℕ → ℕ → Bool
interesting_info_element gtpv ietype =
    if gtpv == 2
    then (ietype == v2_imsi)
      || ((ietype == v2_fteid)
          || ((ietype == v2_msisdn)
              || ((ietype == v2_pdn_alloc)
                  || ((ietype == v2_cause)
                      || ((ietype == v2_mei) || ((ietype == v2_apname) || (ietype == v2_uli)))))))
    else if gtpv == 1
    then (ietype == v1_cause)
      || ((ietype == v1_imsi)
          || ((ietype == v1_teid_ctrl)
              || ((ietype == v1_end_user_address)
                  || ((ietype == v1_apname)
                      || ((ietype == v1_msisdn) || ((ietype == v1_uli) || (ietype == v1_mei)))))))
    else false

-- the lengths of the elements of GTPv1 that do not say theirs
abbrev pub tv_lengths : List (ℕ × ℕ)
tv_lengths =
    (1, 1)
    ∷ (2, 8)
    ∷ (3, 6)
    ∷ (4, 4)
    ∷ (5, 4)
    ∷ (8, 1)
    ∷ (9, 28)
    ∷ (11, 1)
    ∷ (12, 3)
    ∷ (13, 1)
    ∷ (14, 1)
    ∷ (15, 1)
    ∷ (16, 4)
    ∷ (17, 4)
    ∷ (18, 5)
    ∷ (19, 1)
    ∷ (20, 1)
    ∷ (21, 1)
    ∷ (22, 9)
    ∷ (23, 1)
    ∷ (24, 1)
    ∷ (25, 2)
    ∷ (26, 2)
    ∷ (27, 2)
    ∷ (28, 2)
    ∷ (29, 1)
    ∷ (127, 4)
    ∷ []

unfoldable pub length_in : List (ℕ × ℕ) → ℕ → ℕ
length_in [] ietype = 0
length_in ((t, l) ∷ table) ietype =
    let rest = length_in table ietype in if t == ietype then l else rest

-- 0 for an unknown one
abbrev pub gtpv1_lookup_ielen : ℕ → ℕ
gtpv1_lookup_ielen = length_in tv_lengths
