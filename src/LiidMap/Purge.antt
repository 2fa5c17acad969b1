-- ===== src/LiidMap/Purge.antt =====
-- What the periodic check of the queues removes from the LIIDs of an agency.
use https_github_com_open_li.Prelude.{ℕ, ◌≡◌, ◌⊎◌, Bool, false, ◌&&◌, some, List, [], ◌∷◌, arith}
use https_github_com_open_li.LiidMap.{
  LiidMapEntry, LiidMap, lookup_liid_agency_mapping, foreach_liid_agency_mapping,
  purge_empty_withdrawn_liid_queues, agency_thread_action_rmqcheck_timer,
}

-- an entry that the check leaves: it is in use, or one of its queues is left
abbrev pub Remaining : LiidMap → Type 0
Remaining [] = Unit
Remaining (m ∷ map) =
    ((m.withdrawn ≡ false) ⊎ ((m.ccqueue_deleted && m.iriqueue_deleted) ≡ false)) × Remaining map

module _ (iri_empty cc_empty : List ℕ → Bool) where
  -- An LIID that is not withdrawn stays as it is, whatever its queues hold.
  pub rmqcheck_timer-active :
      (map : LiidMap) (liid : List ℕ) {m : LiidMapEntry}
      → lookup_liid_agency_mapping map liid ≡ some m
      → m.withdrawn ≡ false
      → lookup_liid_agency_mapping (agency_thread_action_rmqcheck_timer iri_empty cc_empty map) liid
        ≡ some m
  unfolding agency_thread_action_rmqcheck_timer foreach_liid_agency_mapping
      lookup_liid_agency_mapping purge_empty_withdrawn_liid_queues
  rmqcheck_timer-active [] liid h active = cc
  rmqcheck_timer-active (x ∷ map) liid {m} h active =
      ground (arith, rmqcheck_timer-active map liid {m = m})

  -- Behind the check, a withdrawn LIID is only left while one of its queues is.
  pub rmqcheck_timer-Remaining :
      (map : LiidMap) → Remaining (agency_thread_action_rmqcheck_timer iri_empty cc_empty map)
  unfolding agency_thread_action_rmqcheck_timer foreach_liid_agency_mapping
      purge_empty_withdrawn_liid_queues
  rmqcheck_timer-Remaining [] = tt
  rmqcheck_timer-Remaining (m ∷ map) = ground (arith, rmqcheck_timer-Remaining map)
