-- ===== src/Radius/Collector/Handled.antt =====
-- What one message makes of a session, and its records.
use https_github_com_open_li.Prelude.{
  ℕ, ◌≡◌, ◌⊎◌, refl, sym, ap, ◌∙◌, true, false, Option, none, some, List, [], ◌∷◌, map,
  if◌then◌else◌, arith, Bool-cases, Option-cases, inl, inr, done,
}
use https_github_com_open_li.AccessSession.{
  AccessSession, SessionIp, SessionState, new, authing, active, active_no_ip, renew, ending, over,
  AccessAction, no_action,
}
use https_github_com_open_li.Radius.{Attribute, RadiusParsed, UserSession, OrphanedResp, is_request}
use https_github_com_open_li.Radius.Fsm.{is_active, apply_fsm_logic}
use https_github_com_open_li.Radius.Sessions.{
  and_then, is_none, Progress, update_actions, second_logic, without_ip, chosen,
  update_user_session_data, note_attribute, update_second_action,
}
use https_github_com_open_li.Radius.Sessions.Sound.{
  IsSound, IsSome, needs_request, needs_response, update_first_action-IsFirst,
  update_second_action-IsSecond,
}
use https_github_com_open_li.Radius.Iri.{Iri}
use https_github_com_open_li.Radius.Iri.Brackets.{
  follow, kinds, kind_of, listed, has_kind, apply_fsm_logic-follow, apply_fsm_logic-request,
  kinds-follow, create_ipiri_job_from_packet-kinds,
}
use https_github_com_open_li.Radius.Collector.{records_of}

-- the two steps of a message
abbrev first_step : UserSession → RadiusParsed → SessionState × AccessAction
first_step usess m = apply_fsm_logic usess.current m.msgtype m.accttype

abbrev second_step : UserSession → RadiusParsed → SessionState × AccessAction
second_step usess m = second_logic m.savedresp (first_step usess m).0 m

-- the actions that read the found request come with accounting responses only
apply_fsm_logic-needs_request :
    (s : SessionState) (msgtype accttype : ℕ)
    → needs_request (apply_fsm_logic s msgtype accttype).1 ≡ true
    → msgtype ≡ 5
unfolding apply_fsm_logic
apply_fsm_logic-needs_request new m a h = ground arith
apply_fsm_logic-needs_request authing m a h = ground arith
apply_fsm_logic-needs_request active m a h = ground arith
apply_fsm_logic-needs_request active_no_ip m a h = ground arith
apply_fsm_logic-needs_request over m a h = ground arith
apply_fsm_logic-needs_request renew m a h = ground arith
apply_fsm_logic-needs_request ending m a h = ground arith

-- what update_actions builds
abbrev progress : RadiusParsed → UserSession → RadiusParsed × AccessSession → Progress
progress m usess second = record {
  raddata = chosen second.0;
  usess = record (update_user_session_data m.attrs usess) {
    current = without_ip second.1 (second_step usess m).0;
  };
  thissess = second.1;
  oldstate = usess.current;
  newstate = without_ip second.1 (second_step usess m).0;
}

kinds-none : (a b : AccessAction) → is_none a ≡ true → kinds a b ≡ []
kinds-none a b h = ground arith

kinds-chosen :
    (r : RadiusParsed)
    → kinds (chosen r).firstaction (chosen r).secondaction ≡ (
        if is_none r.firstaction
        then kinds r.secondaction no_action
        else kinds r.firstaction r.secondaction)
kinds-chosen r = elim (Bool-cases (is_none r.firstaction)) [
  | inl e ↦ elim (Bool-cases (is_none r.secondaction)) [
    | inl f ↦
        rw (e, f)
          (kinds-none r.firstaction r.secondaction e ∙ sym (kinds-none r.secondaction no_action f))
    | inr f ↦ rw (e, f) refl
  ]
  | inr e ↦ rw e refl
]

records_of-kinds :
    (p : Progress)
    → (l : List Iri) × (records_of p ≡ done l)
      × (map (λ i. i.iritype) l ≡ kinds p.raddata.firstaction p.raddata.secondaction)
unfolding records_of
records_of-kinds p = elim (Bool-cases (is_none p.raddata.firstaction)) [
  | inl e ↦ ([], rw e refl, sym (kinds-none p.raddata.firstaction p.raddata.secondaction e))
  | inr e ↦ rw e (create_ipiri_job_from_packet-kinds p.raddata)
]

update_user_session_data-session_id :
    (attrs : List Attribute) (s : UserSession)
    → (update_user_session_data attrs s).session_id ≡ s.session_id
unfolding update_user_session_data
update_user_session_data-session_id [] s = refl
update_user_session_data-session_id (a ∷ attrs) s =
    update_user_session_data-session_id attrs (note_attribute a s) ∙ ground arith

is_active-without_ip :
    (sess : AccessSession) (s : SessionState) → is_active (without_ip sess s) ≡ is_active s
is_active-without_ip sess active = ground arith
is_active-without_ip sess new = refl
is_active-without_ip sess authing = refl
is_active-without_ip sess active_no_ip = refl
is_active-without_ip sess renew = refl
is_active-without_ip sess ending = refl
is_active-without_ip sess over = refl

second_logic-follow :
    (o : Option OrphanedResp) (s : SessionState) (m : RadiusParsed)
    → m.secondaction ≡ no_action
    → follow (is_active s) (listed (kind_of (second_logic o s m).1))
      ≡ some (is_active (second_logic o s m).0)
second_logic-follow none s m h = ap (λ a. follow (is_active s) (listed (kind_of a))) h
second_logic-follow (some r) s m h = apply_fsm_logic-follow s r.resptype m.accttype

module _ (junk : SessionIp) (m : RadiusParsed) (sound : IsSound m) (usess : UserSession)
    (thissess : AccessSession) where
  second-needs_response : needs_response (second_step usess m).1 ≡ true → IsSome m.savedresp
  second-needs_response h = elim (Option-cases m.savedresp) [
    | inl e ↦
        let q : (second_step usess m).1 ≡ no_action =
          ap (λ o. (second_logic o (first_step usess m).0 m).1) e ∙ sound.fresh in
        absurd (let z : false ≡ true = ap needs_response (sym q) ∙ h in cc)
    | inr some_resp ↦ some_resp
  ]

  -- what is left of the message and the session
  updated :
      (p : Progress) × (update_actions junk m usess thissess ≡ some p)
      × (p.newstate ≡ without_ip p.thissess (second_step usess m).0)
      × (p.usess.current ≡ p.newstate)
      × (p.oldstate ≡ usess.current)
      × (kinds p.raddata.firstaction p.raddata.secondaction ≡ (
          if is_none (first_step usess m).1
          then kinds (second_step usess m).1 no_action
          else kinds (first_step usess m).1 (second_step usess m).1))
      × (p.usess.session_id ≡ usess.session_id)
  unfolding update_actions
  updated =
      let a1 = (first_step usess m).1 in
      let a2 = (second_step usess m).1 in
      let m' : RadiusParsed = record m { firstaction = a1; secondaction = a2 } in
      let (attrs, sess, e) =
        update_first_action-IsFirst junk a1 m' thissess sound.wide sound.wide_request (λ h.
          sound.answers (apply_fsm_logic-needs_request usess.current m.msgtype m.accttype h)) in
      let m'' : RadiusParsed = record m' { firstattrs = attrs } in
      let (attrs2, sess2, e2) =
        update_second_action-IsSecond junk a2 m'' sess sound.wide sound.wide_response
          second-needs_response in
      let raddata' : RadiusParsed = record m'' { secondattrs = attrs2 } in
      let newstate : SessionState = without_ip sess2 (second_step usess m).0 in
      (
        progress m usess (raddata', sess2),
        ap
              (λ o. and_then o (λ first.
                and_then (update_second_action junk a2 first.0 first.1)
                  (λ second. some (progress m usess second))))
              e
            ∙ ap (λ o. and_then o (λ second. some (progress m usess second))) e2,
        refl,
        refl,
        refl,
        kinds-chosen raddata',
        update_user_session_data-session_id m.attrs usess,
      )

  -- only a request has a second action
  fitting :
      (is_request m.msgtype ≡ true) ⊎ (is_request m.msgtype ≡ false)
      → (has_kind (first_step usess m).1 ≡ true) ⊎ (kind_of (second_step usess m).1 ≡ none)
  fitting (inl e) = inl (apply_fsm_logic-request usess.current m.msgtype m.accttype e)
  fitting (inr e) = inr (
      ap kind_of (
        ap (λ o. (second_logic o (first_step usess m).0 m).1) (sound.orphan_of_request e)
        ∙ sound.fresh))

  -- the records of the message fit
  pub records :
      (p : Progress) × (update_actions junk m usess thissess ≡ some p)
      × (p.usess.current ≡ p.newstate)
      × (p.oldstate ≡ usess.current)
      × ((l : List Iri) × (records_of p ≡ done l)
          × (follow (is_active usess.current) (map (λ i. i.iritype) l)
              ≡ some (is_active p.newstate)))
  records =
      let (p, run, state, current, old, k, number) = updated in
      let (l, made, types) = records_of-kinds p in
      (
        p,
        run,
        current,
        old,
        (
          l,
          made,
          ap (follow (is_active usess.current)) (types ∙ k)
              ∙ kinds-follow (first_step usess m).1 (second_step usess m).1
                  (is_active usess.current) (is_active (first_step usess m).0)
                  (is_active (second_step usess m).0)
                  (apply_fsm_logic-follow usess.current m.msgtype m.accttype)
                  (second_logic-follow m.savedresp (first_step usess m).0 m sound.fresh)
                  (fitting (Bool-cases (is_request m.msgtype)))
              ∙ ap some (
                  sym
                    (ap is_active state ∙ is_active-without_ip p.thissess (second_step usess m).0)),
        ),
      )

-- a sound message is handled, in the session that it came to
pub update_actions-IsSome :
    (junk : SessionIp) (m : RadiusParsed) (usess : UserSession) (thissess : AccessSession)
    → IsSound m
    → (p : Progress) × (update_actions junk m usess thissess ≡ some p)
      × (p.usess.session_id ≡ usess.session_id)
update_actions-IsSome junk m usess thissess sound =
    let (p, run, state, current, old, k, number) = updated junk m sound usess thissess in
    (p, run, number)
