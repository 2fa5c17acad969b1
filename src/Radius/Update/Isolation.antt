-- ===== src/Radius/Update/Isolation.antt =====
-- A message changes the session that it belongs to, and no other session of the plugin.
use https_github_com_open_li.Prelude.{
  ℕ, ◌≡◌, refl, sym, ap, ◌∙◌, Bool, true, false, ◌&&◌, Option, some, List, [], ◌∷◌, ◌==◌, arith,
  Bool-cases, Option-cases, inl, inr, done, subst,
}
use https_github_com_open_li.Uthash.{bytes_eq, hash_find}
use https_github_com_open_li.Uthash.Keys.{bytes_eq-eq}
use https_github_com_open_li.AccessSession.{SessionIp, AccessSession}
use https_github_com_open_li.Radius.{UserSession, RadiusUser, RadiusNas, RadiusParsed}
use https_github_com_open_li.Radius.Sessions.{and_then, is_nil}
use https_github_com_open_li.Radius.Requests.{has_userid, change_user, save_request}
use https_github_com_open_li.Radius.Sessions.Sound.{IsSound}
use https_github_com_open_li.Radius.Collector.Handled.{update_actions-IsSome}
use https_github_com_open_li.Radius.Update.{
  has_name, access_session, with_statedata, or_new, new_user_session, put, has_session, put_session,
  Updated, update_sessions, radius_update_session_state, session_name,
}
use https_github_com_open_li.Radius.Update.UserSessions.{
  sessions_of, session_of, change_user-other, change_user-own, save_request-sessions_of,
}

hash_find-same :
    {A : Type 0} (same : A → Bool) (l : List A) {x : A} → hash_find same l ≡ some x → same x ≡ true
unfolding hash_find
hash_find-same same [] h = cc
hash_find-same same (y ∷ l) {x} h = elim (Bool-cases (same y)) [
  | inl e ↦ let q : y ≡ x = (let k = rw e at h in cc) in ap same (sym q) ∙ e
  | inr e ↦ hash_find-same same l (rw e at h)
]

find-put :
    (k : ℕ) (s : UserSession) (l : List UserSession)
    → has_session k s ≡ true
    → hash_find (has_session k) (put (has_session k) s l) ≡ some s
unfolding hash_find put
find-put k s [] h = rw h refl
find-put k s (x ∷ l) h = elim (Bool-cases (has_session k x)) [
  | inl e ↦ rw e (rw h refl)
  | inr e ↦ rw e (rw e (find-put k s l h))
]

find-put_other :
    (k j : ℕ) (s : UserSession) (l : List UserSession)
    → has_session k s ≡ true
    → (k == j) ≡ false
    → hash_find (has_session j) (put (has_session k) s l) ≡ hash_find (has_session j) l
unfolding hash_find put has_session
find-put_other k j s [] h ne = ground (arith, h, ne)
find-put_other k j s (x ∷ l) h ne = ground (arith, h, ne, find-put_other k j s l h ne)

-- the session that a message finds, or a new one, has the message's number
or_new-session :
    (k : ℕ) (l : List UserSession)
    → has_session k (or_new (hash_find (has_session k) l) (new_user_session k)) ≡ true
unfolding has_session
or_new-session k l = elim (Option-cases (hash_find (has_session k) l)) [
  | inl e ↦ rw e (ground arith)
  | inr (s, e) ↦ rw e (hash_find-same (has_session k) l e)
]

has_number :
    (k : ℕ) (s t : UserSession)
    → s.session_id ≡ t.session_id
    → has_session k t ≡ true
    → has_session k s ≡ true
unfolding has_session
has_number k s t e h = ap (λ n. n == k) e ∙ h

userid_of :
    (key : List ℕ) (users : List RadiusUser) {u : RadiusUser}
    → hash_find (has_userid key) users ≡ some u
    → u.userid ≡ key
unfolding has_userid
userid_of key users {u} e = bytes_eq-eq u.userid key (hash_find-same (has_userid key) users e)

module _ (key : List ℕ) (k : ℕ) (s : UserSession) (users : List RadiusUser)
    (h : has_session k s ≡ true) where
  -- the sessions of the user behind a message
  sessions_of-put :
      {l : List UserSession}
      → sessions_of key users ≡ some l
      → sessions_of key (change_user key (put_session k s) users) ≡ some (put (has_session k) s l)
  sessions_of-put known =
      change_user-own key (put_session k s) (put (has_session k) s) users (λ u. refl) (λ u. refl)
      ∙ ap (λ o. and_then o (λ l. some (put (has_session k) s l))) known

  session_of-put :
      {l : List UserSession}
      → sessions_of key users ≡ some l
      → session_of key k (change_user key (put_session k s) users) ≡ some s
  session_of-put {l} known =
      ap (λ o. and_then o (λ l. hash_find (has_session k) l)) (sessions_of-put known)
      ∙ find-put k s l h

  session_of-put_other :
      (j : List ℕ) (i : ℕ) {l : List UserSession}
      → sessions_of key users ≡ some l
      → (bytes_eq key j && (k == i)) ≡ false
      → session_of j i (change_user key (put_session k s) users) ≡ session_of j i users
  session_of-put_other j i {l} known ne = elim (Bool-cases (bytes_eq key j)) [
    | inl e ↦
        let find =
          λ (o : Option (List UserSession)). and_then o (λ l. hash_find (has_session i) l) in
        let same : key ≡ j = bytes_eq-eq key j e in
        subst (λ j. session_of j i (change_user key (put_session k s) users) ≡ session_of j i users)
          same
          (ap find (sessions_of-put known)
            ∙ find-put_other k i s l h (ground (arith, e, ne))
            ∙ sym (ap find known))
    | inr e ↦
        ap (λ o. and_then o (λ l. hash_find (has_session i) l))
          (change_user-other key j (put_session k s) users (λ u. refl) e)
  ]

-- A sound message for a known user whose NAS has an identifier is handled: behind it, the session of that
-- user with the message's number is the one that the message left, and any other session, of this user
-- or of another one, is as it was.
pub radius_update_session_state-isolated :
    (junk : SessionIp) (hash : List ℕ → ℕ) (now : ℕ) (nas : RadiusNas) (raddata : RadiusParsed)
    (u : RadiusUser) (nasid key j : List ℕ) (i : ℕ) (sesslist : List AccessSession)
    → is_nil raddata.matchedusers ≡ false
    → hash_find (has_userid key) nas.user_map ≡ some u
    → u.nasidentifier ≡ some nasid
    → IsSound (save_request nas raddata).1
    → (bytes_eq key j && (raddata.acctsess == i)) ≡ false
    → (r : Updated) × (radius_update_session_state junk hash now nas raddata key sesslist
        ≡ done (some r))
      × (session_of key raddata.acctsess r.nas.user_map ≡ some r.progress.usess)
      × (session_of j i r.nas.user_map ≡ session_of j i nas.user_map)
unfolding radius_update_session_state update_sessions
radius_update_session_state-isolated junk hash now nas raddata u nasid key j i sesslist some_user
      known named sound ne =
    let k = raddata.acctsess in
    let id = session_name u.userid nasid k in
    let found = hash_find (has_session k) u.sessions in
    let users = (save_request nas raddata).0.user_map in
    let (p, run, number) =
      update_actions-IsSome junk (save_request nas raddata).1 (or_new found (new_user_session k))
        (with_statedata found k (access_session hash now raddata id sesslist)) sound in
    let h : has_session k p.usess ≡ true =
      has_number k p.usess (or_new found (new_user_session k)) number
        (or_new-session k u.sessions) in
    let name : u.userid ≡ key = userid_of key nas.user_map known in
    let r : Updated = record {
      nas = record (save_request nas raddata).0 {
        user_map = change_user u.userid (put_session k p.usess) users;
      };
      sesslist = put (has_name id) p.thissess sesslist;
      progress = p;
    } in
    let listed : sessions_of key users ≡ some u.sessions =
      save_request-sessions_of nas raddata key
      ∙ ap (λ o. and_then o (λ u. some u.sessions)) known in
    (
      r,
      rw (some_user, known) (rw named (rw run refl)),
      ap (λ n. session_of key k (change_user n (put_session k p.usess) users)) name
          ∙ session_of-put key k p.usess users h listed,
      ap (λ n. session_of j i (change_user n (put_session k p.usess) users)) name
          ∙ session_of-put_other key k p.usess users h j i listed ne
          ∙ ap (λ o. and_then o (λ l. hash_find (has_session i) l))
              (save_request-sessions_of nas raddata j),
    )
