-- ===== src/Radius/Update/UserSessions.antt =====
-- The sessions of a user under the changes of the users of a NAS.
use https_github_com_open_li.Prelude.{
  ℕ, ◌≡◌, refl, sym, ap, ◌∙◌, true, false, Option, none, some, List, [], ◌∷◌, Bool-cases,
  Option-cases, inl, inr,
}
use https_github_com_open_li.Uthash.{bytes_eq, hash_find}
use https_github_com_open_li.Uthash.Keys.{bytes_eq-eq}
use https_github_com_open_li.Radius.{
  UserSession, RadiusUser, RadiusNas, RadiusParsed, derive_request_id, is_request,
}
use https_github_com_open_li.Radius.Sessions.{and_then}
use https_github_com_open_li.Radius.Orphans.{search_orphans}
use https_github_com_open_li.Radius.Requests.{
  has_userid, change_user, change_users, save_request, insert_request, has_reqid, forget_request,
  note_request, is_same,
}
use https_github_com_open_li.Radius.Update.{has_session}

-- the sessions of a user, and one of them
abbrev pub sessions_of : List ℕ → List RadiusUser → Option (List UserSession)
sessions_of key users = and_then (hash_find (has_userid key) users) (λ u. some u.sessions)

abbrev pub session_of : List ℕ → ℕ → List RadiusUser → Option UserSession
session_of key k users = and_then (sessions_of key users) (λ l. hash_find (has_session k) l)

no_user : (key : List ℕ) → sessions_of key [] ≡ none
unfolding hash_find
no_user key = refl

found_user :
    (key : List ℕ) (u : RadiusUser) (us : List RadiusUser)
    → bytes_eq u.userid key ≡ true
    → sessions_of key (u ∷ us) ≡ some u.sessions
unfolding hash_find has_userid
found_user key u us e = rw e refl

skipped_user :
    (key : List ℕ) (u : RadiusUser) (us : List RadiusUser)
    → bytes_eq u.userid key ≡ false
    → sessions_of key (u ∷ us) ≡ sessions_of key us
unfolding hash_find has_userid
skipped_user key u us e = rw e refl

-- a change that keeps the user's name and sessions
change_user-sessions_of :
    (key j : List ℕ) (f : RadiusUser → RadiusUser) (us : List RadiusUser)
    → ((u : RadiusUser) → (f u).userid ≡ u.userid)
    → ((u : RadiusUser) → (f u).sessions ≡ u.sessions)
    → sessions_of j (change_user key f us) ≡ sessions_of j us
unfolding change_user has_userid
change_user-sessions_of key j f [] same keep = refl
change_user-sessions_of key j f (u ∷ us) same keep = elim (Bool-cases (bytes_eq u.userid key)) [
  | inl e ↦ rw e (elim (Bool-cases (bytes_eq u.userid j)) [
    | inl g ↦
        found_user j (f u) us (ap (λ i. bytes_eq i j) (same u) ∙ g)
        ∙ ap some (keep u)
        ∙ sym (found_user j u us g)
    | inr g ↦
        skipped_user j (f u) us (ap (λ i. bytes_eq i j) (same u) ∙ g) ∙ sym (skipped_user j u us g)
  ])
  | inr e ↦ rw e (elim (Bool-cases (bytes_eq u.userid j)) [
    | inl g ↦ found_user j u (change_user key f us) g ∙ sym (found_user j u us g)
    | inr g ↦
        skipped_user j u (change_user key f us) g
        ∙ change_user-sessions_of key j f us same keep
        ∙ sym (skipped_user j u us g)
  ])
]

-- a change of another user
pub change_user-other :
    (key j : List ℕ) (f : RadiusUser → RadiusUser) (us : List RadiusUser)
    → ((u : RadiusUser) → (f u).userid ≡ u.userid)
    → bytes_eq key j ≡ false
    → sessions_of j (change_user key f us) ≡ sessions_of j us
unfolding change_user has_userid
change_user-other key j f [] same ne = refl
change_user-other key j f (u ∷ us) same ne = elim (Bool-cases (bytes_eq u.userid key)) [
  | inl e ↦
      let other : bytes_eq u.userid j ≡ false =
        ap (λ i. bytes_eq i j) (bytes_eq-eq u.userid key e) ∙ ne in
      rw e (
        skipped_user j (f u) us (ap (λ i. bytes_eq i j) (same u) ∙ other)
        ∙ sym (skipped_user j u us other))
  | inr e ↦ rw e (elim (Bool-cases (bytes_eq u.userid j)) [
    | inl g ↦ found_user j u (change_user key f us) g ∙ sym (found_user j u us g)
    | inr g ↦
        skipped_user j u (change_user key f us) g
        ∙ change_user-other key j f us same ne
        ∙ sym (skipped_user j u us g)
  ])
]

-- a change of the sessions of the user
pub change_user-own :
    (key : List ℕ) (f : RadiusUser → RadiusUser) (g : List UserSession → List UserSession)
    (us : List RadiusUser)
    → ((u : RadiusUser) → (f u).userid ≡ u.userid)
    → ((u : RadiusUser) → (f u).sessions ≡ g u.sessions)
    → sessions_of key (change_user key f us) ≡ and_then (sessions_of key us) (λ l. some (g l))
unfolding change_user has_userid
change_user-own key f g [] same acts =
    no_user key ∙ sym (ap (λ o. and_then o (λ l. some (g l))) (no_user key))
change_user-own key f g (u ∷ us) same acts = elim (Bool-cases (bytes_eq u.userid key)) [
  | inl e ↦ rw e (
      found_user key (f u) us (ap (λ i. bytes_eq i key) (same u) ∙ e)
      ∙ ap some (acts u)
      ∙ sym (ap (λ o. and_then o (λ l. some (g l))) (found_user key u us e)))
  | inr e ↦ rw e (
      skipped_user key u (change_user key f us) e
      ∙ change_user-own key f g us same acts
      ∙ sym (ap (λ o. and_then o (λ l. some (g l))) (skipped_user key u us e)))
]

change_users-sessions_of :
    (targets : List (Option (List ℕ))) (j : List ℕ) (f : RadiusUser → RadiusUser)
    (us : List RadiusUser)
    → ((u : RadiusUser) → (f u).userid ≡ u.userid)
    → ((u : RadiusUser) → (f u).sessions ≡ u.sessions)
    → sessions_of j (change_users targets f us) ≡ sessions_of j us
unfolding change_users
change_users-sessions_of [] j f us same keep = refl
change_users-sessions_of (none ∷ targets) j f us same keep =
    change_users-sessions_of targets j f us same keep
change_users-sessions_of (some key ∷ targets) j f us same keep =
    change_users-sessions_of targets j f (change_user key f us) same keep
    ∙ change_user-sessions_of key j f us same keep

insert_request-sessions_of :
    (raddata : RadiusParsed) (reqid : ℕ) (nas : RadiusNas) (j : List ℕ)
    → sessions_of j (insert_request raddata reqid nas).user_map ≡ sessions_of j nas.user_map
unfolding insert_request
insert_request-sessions_of raddata reqid nas j =
    elim (Option-cases (hash_find (has_reqid reqid) nas.request_map)) [
      | inl e ↦ rw (e, insert_request) (noted nas.user_map)
      | inr (check, e) ↦
          rw (e, insert_request)
            (elim (Bool-cases (is_same raddata check)) [
              | inl same ↦ rw same refl
              | inr other ↦ rw other (
                  noted (change_users check.targetusers (forget_request reqid) nas.user_map)
                  ∙ change_users-sessions_of check.targetusers j (forget_request reqid) nas.user_map
                      (λ u. refl) (λ u. refl))
            ])
    ]
  where
    noted :
        (us : List RadiusUser)
        → sessions_of j (change_users raddata.matchedusers (note_request reqid) us)
          ≡ sessions_of j us
    noted us =
        change_users-sessions_of raddata.matchedusers j (note_request reqid) us (λ u. refl)
          (λ u. refl)

-- saving a request changes no session
pub save_request-sessions_of :
    (nas : RadiusNas) (raddata : RadiusParsed) (j : List ℕ)
    → sessions_of j (save_request nas raddata).0.user_map ≡ sessions_of j nas.user_map
unfolding save_request
save_request-sessions_of nas raddata j = elim (Bool-cases (is_request raddata.msgtype)) [
  | inr e ↦ rw e refl
  | inl e ↦
      rw e
        (elim (Option-cases
          (search_orphans nas.orphaned (derive_request_id raddata raddata.msgtype)
            raddata.tvsec).0) [
              | inr (o, q) ↦ rw q refl
              | inl q ↦ rw q (elim (Option-cases raddata.savedresp) [
                | inr (o, k) ↦ rw k refl
                | inl k ↦ rw k (
                    insert_request-sessions_of raddata (derive_request_id raddata raddata.msgtype)
                      (record nas {
                        orphaned =
                            (search_orphans nas.orphaned (derive_request_id raddata raddata.msgtype)
                              raddata.tvsec).1;
                      })
                      j)
              ])
            ])
]
