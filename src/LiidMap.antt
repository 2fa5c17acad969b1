-- ===== src/LiidMap.antt =====
-- The LIIDs that an agency's thread of the mediator handles: mediator/liidmapping.c, with the callbacks
-- and timers of mediator/lea_send_thread.c that change their flags. The Judy array is the list of its
-- entries, a string is the list of its bytes; allocations are taken to succeed, and the calls that
-- register with RabbitMQ, which change no flag, are left out.
pub mod Reconnect
pub mod Purge
mod Tests
use https_github_com_open_li.Prelude.{
  ℕ, Bool, true, false, not, ◌&&◌, ◌||◌, Option, none, some, List, [], ◌∷◌, ◌++◌, if◌then◌else◌,
}
use https_github_com_open_li.Uthash.{bytes_eq}

-- liid_map_entry_t
pub record LiidMapEntry : Type 0 where
  pub liid : List ℕ
  pub unconfirmed : Bool
  pub withdrawn : Bool
  pub ccqueue_deleted : Bool
  pub iriqueue_deleted : Bool

-- liid_map_t
abbrev pub LiidMap : Type 0
LiidMap = List LiidMapEntry

pub lookup_liid_agency_mapping : LiidMap → List ℕ → Option LiidMapEntry
lookup_liid_agency_mapping [] liidstr = none
lookup_liid_agency_mapping (m ∷ map) liidstr =
    if bytes_eq m.liid liidstr then some m else lookup_liid_agency_mapping map liidstr

-- a change through the pointer that the lookup gives
pub change_entry : LiidMap → List ℕ → (LiidMapEntry → LiidMapEntry) → LiidMap
change_entry [] liidstr f = []
change_entry (m ∷ map) liidstr f =
    if bytes_eq m.liid liidstr then f m ∷ map else m ∷ change_entry map liidstr f

pub remove_liid_agency_mapping : LiidMap → LiidMapEntry → LiidMap
remove_liid_agency_mapping [] m = []
remove_liid_agency_mapping (x ∷ map) m =
    if bytes_eq x.liid m.liid then map else x ∷ remove_liid_agency_mapping map m

pub withdraw_liid_agency_mapping : LiidMap → List ℕ → LiidMap
unfolding change_entry
withdraw_liid_agency_mapping map liidstr =
    change_entry map liidstr (λ m. record m { withdrawn = true })

-- what an announcement does to an entry, and the entry of a new LIID
abbrev pub announced : LiidMapEntry → LiidMapEntry
announced m = record m {
  unconfirmed = false;
  withdrawn = false;
  ccqueue_deleted = false;
  iriqueue_deleted = false;
}

abbrev pub new_entry : List ℕ → LiidMapEntry
new_entry liidstr = record {
  liid = liidstr;
  unconfirmed = false;
  withdrawn = false;
  ccqueue_deleted = false;
  iriqueue_deleted = false;
}

-- whether the LIID is to be registered (the value 1), and the map
pub add_liid_agency_mapping : LiidMap → List ℕ → Bool × LiidMap
unfolding change_entry
add_liid_agency_mapping map liidstr = elim (lookup_liid_agency_mapping map liidstr) [
  | some m ↦ (m.withdrawn, change_entry map liidstr announced)
  | none ↦ (true, map ++ new_entry liidstr ∷ [])
]

-- what a callback returns: 0, 1 or -1
pub data Torun : Type 0 where
  keep delete error : Torun

-- whether a callback returned -1, and the map
pub foreach_liid_agency_mapping : LiidMap → (LiidMapEntry → Torun × LiidMapEntry) → Bool × LiidMap
foreach_liid_agency_mapping [] torun = (false, [])
foreach_liid_agency_mapping (m ∷ map) torun =
    let rest = foreach_liid_agency_mapping map torun in
    elim (torun m).0 [
      | keep ↦ (rest.0, (torun m).1 ∷ rest.1)
      | delete ↦ rest
      | error ↦ (true, (torun m).1 ∷ rest.1)
    ]

pub set_liid_as_unconfirmed : LiidMapEntry → Torun × LiidMapEntry
set_liid_as_unconfirmed m = (keep, record m { unconfirmed = true })

pub set_unconfirmed_liid_as_withdrawn : LiidMapEntry → Torun × LiidMapEntry
set_unconfirmed_liid_as_withdrawn m =
    if not m.unconfirmed then (keep, m) else (keep, record m { withdrawn = true })

-- the two flags with what RabbitMQ says of the queues
abbrev pub checked_queues : Bool → Bool → LiidMapEntry → LiidMapEntry
checked_queues iri_empty cc_empty m = record m {
  iriqueue_deleted = m.iriqueue_deleted || iri_empty;
  ccqueue_deleted = m.ccqueue_deleted || cc_empty;
}

module _ (iri_empty cc_empty : List ℕ → Bool) where
  pub purge_empty_withdrawn_liid_queues : LiidMapEntry → Torun × LiidMapEntry
  purge_empty_withdrawn_liid_queues m =
      if not m.withdrawn
      then (keep, m)
      else (let checked = checked_queues (iri_empty m.liid) (cc_empty m.liid) m in
          (if checked.ccqueue_deleted && checked.iriqueue_deleted then delete else keep, checked))

  -- the map after `agency_thread_action_rmqcheck_timer`
  pub agency_thread_action_rmqcheck_timer : LiidMap → LiidMap
  unfolding foreach_liid_agency_mapping purge_empty_withdrawn_liid_queues
  agency_thread_action_rmqcheck_timer map =
      (foreach_liid_agency_mapping map purge_empty_withdrawn_liid_queues).1

-- the maps after `start_shutdown_timer` and `agency_thread_action_cease_liid_timer`
pub start_shutdown_timer : LiidMap → LiidMap
unfolding foreach_liid_agency_mapping set_liid_as_unconfirmed
start_shutdown_timer map = (foreach_liid_agency_mapping map set_liid_as_unconfirmed).1

pub agency_thread_action_cease_liid_timer : LiidMap → LiidMap
unfolding foreach_liid_agency_mapping set_unconfirmed_liid_as_withdrawn
agency_thread_action_cease_liid_timer map =
    (foreach_liid_agency_mapping map set_unconfirmed_liid_as_withdrawn).1
