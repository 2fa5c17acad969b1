-- ===== src/LiidMap/Tests.antt =====
-- Three LIIDs over a reconnect of the provisioner.
use https_github_com_open_li.Prelude.{ℕ, ◌≡◌, refl, true, List, [], ◌∷◌}
use https_github_com_open_li.LiidMap.{LiidMap, new_entry, lookup_liid_agency_mapping}
use https_github_com_open_li.LiidMap.Reconnect.{
  IsActive, map_option, reconnected, reconnected-IsActive, reconnected-withdrawn,
}

abbrev old : List ℕ
old = 111 ∷ 108 ∷ 100 ∷ []

abbrev lost : List ℕ
lost = 108 ∷ []

abbrev map : LiidMap
map = record (new_entry old) { withdrawn = true } ∷ new_entry lost ∷ []

reconnected-IsActive_example :
    IsActive (lookup_liid_agency_mapping (reconnected map ((110 ∷ []) ∷ old ∷ [])) old)
reconnected-IsActive_example = reconnected-IsActive map ((110 ∷ []) ∷ old ∷ []) old refl

reconnected-withdrawn_example :
    lookup_liid_agency_mapping (reconnected map (old ∷ [])) lost
    ≡ map_option
        (λ m. record m { unconfirmed = true; withdrawn = true })
        (lookup_liid_agency_mapping map lost)
reconnected-withdrawn_example = reconnected-withdrawn map (old ∷ []) lost refl
