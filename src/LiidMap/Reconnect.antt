-- ===== src/LiidMap/Reconnect.antt =====
-- What a provisioner that comes back leaves of the LIIDs: those that it announces again.
use https_github_com_open_li.Prelude.{
  ℕ, ◌≡◌, refl, sym, ap, subst, ◌∙◌, Bool, true, false, not, ◌||◌, Option, none, some, List, [],
  ◌∷◌, ◌++◌, arith, if◌then◌else◌, Bool-cases, Option-cases, inl, inr,
}
use https_github_com_open_li.Uthash.{bytes_eq}
use https_github_com_open_li.Uthash.Keys.{bytes_eq_refl, bytes_eq-eq}
use https_github_com_open_li.LiidMap.{
  LiidMapEntry, LiidMap, lookup_liid_agency_mapping, change_entry, announced, new_entry,
  add_liid_agency_mapping, Torun, keep, foreach_liid_agency_mapping, set_liid_as_unconfirmed,
  set_unconfirmed_liid_as_withdrawn, start_shutdown_timer, agency_thread_action_cease_liid_timer,
}

abbrev pub map_option : (LiidMapEntry → LiidMapEntry) → Option LiidMapEntry → Option LiidMapEntry
map_option f none = none
map_option f (some m) = some (f m)

foreach-keep :
    (m : LiidMapEntry) (map : LiidMap) (torun : LiidMapEntry → Torun × LiidMapEntry)
    → (torun m).0 ≡ keep
    → (foreach_liid_agency_mapping (m ∷ map) torun).1
      ≡ (torun m).1 ∷ (foreach_liid_agency_mapping map torun).1
unfolding foreach_liid_agency_mapping
foreach-keep m map torun kept = rw (kept, foreach_liid_agency_mapping)

-- A callback that keeps every entry, under its LIID, changes what is found and no more.
lookup-foreach :
    (map : LiidMap) (torun : LiidMapEntry → Torun × LiidMapEntry) (liid : List ℕ)
    → ((m : LiidMapEntry) → (torun m).0 ≡ keep)
    → ((m : LiidMapEntry) → (torun m).1.liid ≡ m.liid)
    → lookup_liid_agency_mapping (foreach_liid_agency_mapping map torun).1 liid
      ≡ map_option (λ m. (torun m).1) (lookup_liid_agency_mapping map liid)
unfolding lookup_liid_agency_mapping foreach_liid_agency_mapping
lookup-foreach [] torun liid kept same = refl
lookup-foreach (m ∷ map) torun liid kept same =
    ap (λ l. lookup_liid_agency_mapping l liid) (foreach-keep m map torun (kept m))
    ∙ ground (arith, ap (λ k. bytes_eq k liid) (same m), lookup-foreach map torun liid kept same)

lookup-change_self :
    (map : LiidMap) (liid : List ℕ) (f : LiidMapEntry → LiidMapEntry)
    → ((m : LiidMapEntry) → (f m).liid ≡ m.liid)
    → lookup_liid_agency_mapping (change_entry map liid f) liid
      ≡ map_option f (lookup_liid_agency_mapping map liid)
unfolding lookup_liid_agency_mapping change_entry
lookup-change_self [] liid f same = refl
lookup-change_self (m ∷ map) liid f same =
    ground (arith, ap (λ k. bytes_eq k liid) (same m), lookup-change_self map liid f same)

lookup-change_ne :
    (map : LiidMap) (a liid : List ℕ) (f : LiidMapEntry → LiidMapEntry)
    → ((m : LiidMapEntry) → (f m).liid ≡ m.liid)
    → bytes_eq a liid ≡ false
    → lookup_liid_agency_mapping (change_entry map a f) liid ≡ lookup_liid_agency_mapping map liid
unfolding lookup_liid_agency_mapping change_entry
lookup-change_ne [] a liid f same ne = refl
lookup-change_ne (m ∷ map) a liid f same ne = elim (Bool-cases (bytes_eq m.liid a)) [
  | inl e ↦
      let other : bytes_eq m.liid liid ≡ false =
        ap (λ k. bytes_eq k liid) (bytes_eq-eq m.liid a e) ∙ ne in
      rw (e, other) (ground (arith, ap (λ k. bytes_eq k liid) (same m), other))
  | inr e ↦ rw e (ground (arith, lookup-change_ne map a liid f same ne))
]

lookup-append :
    (map : LiidMap) (m : LiidMapEntry) (liid : List ℕ)
    → lookup_liid_agency_mapping (map ++ m ∷ []) liid ≡ elim (lookup_liid_agency_mapping map liid) [
      | some x ↦ some x
      | none ↦ if bytes_eq m.liid liid then some m else none
    ]
unfolding lookup_liid_agency_mapping
lookup-append [] m liid = ground arith
lookup-append (x ∷ map) m liid = ground (arith, lookup-append map m liid)

-- active, and confirmed by the provisioner
pub record IsActive (found : Option LiidMapEntry) : Type 0 where
  pub entry : LiidMapEntry
  pub present : found ≡ some entry
  pub confirmed : entry.unconfirmed ≡ false
  pub in_use : entry.withdrawn ≡ false

-- An announced LIID is in the map, active and confirmed.
pub add_liid_agency_mapping-IsActive :
    (map : LiidMap) (liid : List ℕ)
    → IsActive (lookup_liid_agency_mapping (add_liid_agency_mapping map liid).1 liid)
unfolding add_liid_agency_mapping
add_liid_agency_mapping-IsActive map liid =
    elim (Option-cases (lookup_liid_agency_mapping map liid)) [
      | inl e ↦ record {
        entry = new_entry liid;
        present =
            rw (e, add_liid_agency_mapping)
              (lookup-append map (new_entry liid) liid ∙ ground (arith, e, bytes_eq_refl liid));
        confirmed = refl;
        in_use = refl;
      }
      | inr (m, e) ↦ record {
        entry = announced m;
        present =
            rw (e, add_liid_agency_mapping)
              (lookup-change_self map liid announced (λ x. refl) ∙ ap (map_option announced) e);
        confirmed = refl;
        in_use = refl;
      }
    ]

lookup-add_ne :
    (map : LiidMap) (a liid : List ℕ)
    → bytes_eq a liid ≡ false
    → lookup_liid_agency_mapping (add_liid_agency_mapping map a).1 liid
      ≡ lookup_liid_agency_mapping map liid
unfolding add_liid_agency_mapping
lookup-add_ne map a liid ne = elim (Option-cases (lookup_liid_agency_mapping map a)) [
  | inl e ↦
      rw (e, add_liid_agency_mapping) (lookup-append map (new_entry a) liid ∙ ground (arith, ne))
  | inr (m, e) ↦
      rw (e, add_liid_agency_mapping) (lookup-change_ne map a liid announced (λ x. refl) ne)
]

-- the announcements that follow a reconnect
abbrev pub announce : LiidMap → List (List ℕ) → LiidMap
announce map [] = map
announce map (a ∷ liids) = announce (add_liid_agency_mapping map a).1 liids

abbrev pub is_among : List ℕ → List (List ℕ) → Bool
is_among liid [] = false
is_among liid (a ∷ liids) = bytes_eq a liid || is_among liid liids

announce-IsActive_kept :
    (liids : List (List ℕ)) (map : LiidMap) (liid : List ℕ)
    → IsActive (lookup_liid_agency_mapping map liid)
    → IsActive (lookup_liid_agency_mapping (announce map liids) liid)
announce-IsActive_kept [] map liid h = h
announce-IsActive_kept (a ∷ liids) map liid h =
    announce-IsActive_kept liids (add_liid_agency_mapping map a).1 liid
      (elim (Bool-cases (bytes_eq a liid)) [
        | inl e ↦
            subst
              (λ k. IsActive (lookup_liid_agency_mapping (add_liid_agency_mapping map k).1 liid))
              (sym (bytes_eq-eq a liid e)) (add_liid_agency_mapping-IsActive map liid)
        | inr e ↦ subst IsActive (sym (lookup-add_ne map a liid e)) h
      ])

announce-IsActive :
    (liids : List (List ℕ)) (map : LiidMap) (liid : List ℕ)
    → is_among liid liids ≡ true
    → IsActive (lookup_liid_agency_mapping (announce map liids) liid)
announce-IsActive [] map liid h = cc
announce-IsActive (a ∷ liids) map liid h = elim (Bool-cases (bytes_eq a liid)) [
  | inl e ↦ announce-IsActive_kept liids (add_liid_agency_mapping map a).1 liid (
      subst (λ k. IsActive (lookup_liid_agency_mapping (add_liid_agency_mapping map k).1 liid))
        (sym (bytes_eq-eq a liid e)) (add_liid_agency_mapping-IsActive map liid))
  | inr e ↦ announce-IsActive liids (add_liid_agency_mapping map a).1 liid (ground (arith, e, h))
]

announce-others :
    (liids : List (List ℕ)) (map : LiidMap) (liid : List ℕ)
    → is_among liid liids ≡ false
    → lookup_liid_agency_mapping (announce map liids) liid ≡ lookup_liid_agency_mapping map liid
announce-others [] map liid h = refl
announce-others (a ∷ liids) map liid h =
    announce-others liids (add_liid_agency_mapping map a).1 liid (ground (arith, h))
    ∙ lookup-add_ne map a liid (ground (arith, h))

lookup-mark :
    (map : LiidMap) (liid : List ℕ)
    → lookup_liid_agency_mapping (start_shutdown_timer map) liid
      ≡ map_option (λ m. record m { unconfirmed = true }) (lookup_liid_agency_mapping map liid)
unfolding start_shutdown_timer set_liid_as_unconfirmed
lookup-mark map liid = lookup-foreach map set_liid_as_unconfirmed liid (λ m. refl) (λ m. refl)

abbrev ceased : LiidMapEntry → LiidMapEntry
ceased m = if not m.unconfirmed then m else record m { withdrawn = true }

lookup-cease :
    (map : LiidMap) (liid : List ℕ)
    → lookup_liid_agency_mapping (agency_thread_action_cease_liid_timer map) liid
      ≡ map_option ceased (lookup_liid_agency_mapping map liid)
unfolding agency_thread_action_cease_liid_timer set_unconfirmed_liid_as_withdrawn
lookup-cease map liid =
    lookup-foreach map set_unconfirmed_liid_as_withdrawn liid (λ m. ground arith)
      (λ m. ground arith)
    ∙ ground arith

-- the map after a disconnect, the announcements and the timer that ends the wait for them
abbrev pub reconnected : LiidMap → List (List ℕ) → LiidMap
reconnected map liids =
    agency_thread_action_cease_liid_timer (announce (start_shutdown_timer map) liids)

-- After a reconnect, an LIID that was announced again is active and confirmed, whatever it was before.
pub reconnected-IsActive :
    (map : LiidMap) (liids : List (List ℕ)) (liid : List ℕ)
    → is_among liid liids ≡ true
    → IsActive (lookup_liid_agency_mapping (reconnected map liids) liid)
reconnected-IsActive map liids liid h =
    let a = announce-IsActive liids (start_shutdown_timer map) liid h in
    record {
      entry = a.entry;
      present =
          lookup-cease (announce (start_shutdown_timer map) liids) liid
          ∙ ap (map_option ceased) a.present
          ∙ ground (arith, a.confirmed);
      confirmed = a.confirmed;
      in_use = a.in_use;
    }

-- After a reconnect, an LIID that was not announced again is withdrawn if it was known, with its queue
-- flags as they were, and is still unknown otherwise.
pub reconnected-withdrawn :
    (map : LiidMap) (liids : List (List ℕ)) (liid : List ℕ)
    → is_among liid liids ≡ false
    → lookup_liid_agency_mapping (reconnected map liids) liid
      ≡ map_option
          (λ m. record m { unconfirmed = true; withdrawn = true })
          (lookup_liid_agency_mapping map liid)
reconnected-withdrawn map liids liid h =
    lookup-cease (announce (start_shutdown_timer map) liids) liid
    ∙ ap (map_option ceased)
        (announce-others liids (start_shutdown_timer map) liid h ∙ lookup-mark map liid)
    ∙ ground arith
