-- ===== src/Gtp/Sessions/Records.antt =====
-- The records of the packets of a GTP session, and what one packet adds to them.
use https_github_com_open_li.Prelude.{
  ℕ, ◌≡◌, refl, sym, ap, ◌∙◌, Bool, true, false, ◌||◌, Option, none, some, List, [], ◌∷◌, ◌++◌,
  if◌then◌else◌, ◌==◌, arith, Bool-cases, Option-cases, inl, inr, subst,
}
use https_github_com_open_li.AccessSession.{
  SessionIp, SessionState, new, authing, active, active_no_ip, renew, ending, over, AccessAction,
  accept, interim_update, end, no_action,
}
use https_github_com_open_li.Radius.Iri.{IriType, iri_begin, iri_continue, iri_end}
use https_github_com_open_li.Radius.Iri.Brackets.{follow}
use https_github_com_open_li.Gtp.Sessions.{
  SavedPkt, GtpSession, Received, and_then, gtp_fsm, apply_gtp_fsm_logic, apply_once, answers, pair,
  is_active, is_ending, is_applied_first, apply_pair, receive_second, gtp_update_session_state,
}
use https_github_com_open_li.Gtp.Sessions.Orders.{gtp_fsm-request, some-inj, addresses}

-- the record of an action
abbrev pub gtp_iri_of : AccessAction → List IriType
gtp_iri_of accept = iri_begin ∷ []
gtp_iri_of interim_update = iri_continue ∷ []
gtp_iri_of end = iri_end ∷ []
gtp_iri_of _ = []

-- the saved packets, by number
abbrev pub Table : Type 0
Table = ℕ → Option SavedPkt

abbrev pub saved_under : ℕ → Option SavedPkt → Table → Table
saved_under reqid entry table i = if i == reqid then entry else table i

-- a packet as it is saved first
abbrev pub not_applied : SavedPkt → SavedPkt
not_applied p = record p { applied = false }

-- The records of a session's packets, each with its number, up to the first invalid access.
unfoldable pub gtp_records : SessionIp → Table → GtpSession → List (ℕ × SavedPkt) → List IriType
unfolding gtp_update_session_state
gtp_records junk table g [] = []
gtp_records junk table g ((reqid, p) ∷ ps) =
    elim (gtp_update_session_state junk (table reqid) g (not_applied p)) [
      | none ↦ []
      | some (entry, g', act) ↦
          gtp_iri_of act ++ gtp_records junk (saved_under reqid entry table) g' ps
    ]

-- a packet is the first of its number, or the request or answer of the saved one, or that once more
abbrev pub is_matched : Option SavedPkt → SavedPkt → Bool
is_matched none p = true
is_matched (some check) p =
    answers p.type check.type || (answers check.type p.type || (p.type == check.type))

abbrev pub AllMatched : SessionIp → Table → GtpSession → List (ℕ × SavedPkt) → Type 0
AllMatched junk table g [] = Unit {0}
AllMatched junk table g ((reqid, p) ∷ ps) =
    (is_matched (table reqid) (not_applied p) ≡ true)
    × (elim (gtp_update_session_state junk (table reqid) g (not_applied p)) as (λ _. Type 0) [
      | none ↦ Unit {0}
      | some (entry, g', act) ↦ AllMatched junk (saved_under reqid entry table) g' ps
    ])

-- a session between its begin and its end
abbrev pub is_inside : SessionState → Bool
is_inside s = is_active s || is_ending s

-- what an action that leads from a state to another one adds to the records
abbrev pub IsFit : SessionState → SessionState → AccessAction → Type 0
IsFit s s' a = follow (is_inside s) (gtp_iri_of a) ≡ some (is_inside s')

gtp_fsm-IsFit :
    (s : SessionState) (type cause : ℕ)
    → IsFit s (gtp_fsm s no_action type cause).0 (gtp_fsm s no_action type cause).1
unfolding gtp_fsm
gtp_fsm-IsFit new type cause = ground arith
gtp_fsm-IsFit authing type cause = ground arith
gtp_fsm-IsFit active type cause = ground arith
gtp_fsm-IsFit active_no_ip type cause = ground arith
gtp_fsm-IsFit renew type cause = ground arith
gtp_fsm-IsFit ending type cause = ground arith
gtp_fsm-IsFit over type cause = ground arith

module _ (junk : SessionIp) (g : GtpSession) (p : SavedPkt) where
  -- what an application gives is what the state machine says
  applied-fsm :
      {x : GtpSession × AccessAction}
      → apply_gtp_fsm_logic junk p (g, no_action) ≡ some x
      → (x.0.current, x.1) ≡ gtp_fsm g.current no_action p.type p.response_cause
  unfolding apply_gtp_fsm_logic
  applied-fsm e = elim (Option-cases (addresses junk p g)) [
    | inl o ↦ absurd (let z = rw o at e in cc)
    | inr (s, o) ↦ let z = rw o at e in ap (λ y. (y.0.current, y.1)) (sym (some-inj z))
  ]

  applied_now :
      (b : Bool) {x : GtpSession × AccessAction}
      → p.applied ≡ b
      → apply_once junk p (g, no_action) ≡ some x
      → (if b then some (g, no_action) else apply_gtp_fsm_logic junk p (g, no_action)) ≡ some x
  applied_now b a e =
      sym (ap (λ c. if c then some (g, no_action) else apply_gtp_fsm_logic junk p (g, no_action)) a)
      ∙ e

  apply_once-IsFit :
      {x : GtpSession × AccessAction}
      → apply_once junk p (g, no_action) ≡ some x
      → IsFit g.current x.0.current x.1
  apply_once-IsFit {x} e = elim (Bool-cases p.applied) [
    | inl a ↦
        let z = some-inj (applied_now true a e) in
        subst (λ y. IsFit g.current y.0.current y.1) z refl
    | inr a ↦
        subst (λ y. IsFit g.current y.0 y.1) (sym (applied-fsm (applied_now false a e)))
          (gtp_fsm-IsFit g.current p.type p.response_cause)
  ]

  -- a request has no action
  apply_once-request :
      (r : ℕ) {x : GtpSession × AccessAction}
      → answers p.type r ≡ true
      → apply_once junk p (g, no_action) ≡ some x
      → x.1 ≡ no_action
  apply_once-request r {x} h e = elim (Bool-cases p.applied) [
    | inl a ↦ ap (λ y. y.1) (sym (some-inj (applied_now true a e)))
    | inr a ↦
        ap (λ y. y.1) (applied-fsm (applied_now false a e))
        ∙ gtp_fsm-request g.current p.type r p.response_cause h
  ]

-- the second half of a pair's application
abbrev then_response : SessionIp → SavedPkt → GtpSession × AccessAction → Option Received
then_response junk r x = and_then (apply_once junk r x) (λ y. some (none, y.0, y.1))

-- two packets that belong together add what the answer alone does
apply_pair-IsFit :
    (junk : SessionIp) (g : GtpSession) (q r : SavedPkt) {y : Received}
    → answers q.type r.type ≡ true
    → apply_pair junk g (q, r) ≡ some y
    → IsFit g.current y.1.current y.2
apply_pair-IsFit junk g q r {y} h e = elim (Option-cases (apply_once junk q (g, no_action))) [
  | inl o ↦ absurd (let z = ap (λ m. and_then m (then_response junk r)) (sym o) ∙ e in cc)
  | inr ((g1, a1), o) ↦
      let calm : a1 ≡ no_action = apply_once-request junk g q r.type h o in
      let same : is_inside g.current ≡ is_inside g1.current = some-inj (
        subst (λ a. follow (is_inside g.current) (gtp_iri_of a) ≡ some (is_inside g1.current)) calm
          (apply_once-IsFit junk g q o)) in
      let e1 : and_then (apply_once junk r (g1, no_action)) (λ x. some (none, x.0, x.1)) ≡ some y =
        ap (λ a. then_response junk r (g1, a)) (sym calm)
        ∙ ap (λ m. and_then m (then_response junk r)) (sym o)
        ∙ e in
      elim (Option-cases (apply_once junk r (g1, no_action))) [
        | inl o2 ↦
            absurd (let z = ap (λ m. and_then m (λ x. some (none, x.0, x.1))) (sym o2) ∙ e1 in cc)
        | inr (x, o2) ↦
            let z : (none, x.0, x.1) ≡ y =
              some-inj (ap (λ m. and_then m (λ x. some (none, x.0, x.1))) (sym o2) ∙ e1) in
            subst (λ w. IsFit g.current w.1.current w.2) z
              (ap (λ b. follow b (gtp_iri_of x.1)) same ∙ apply_once-IsFit junk g1 r o2)
      ]
]

-- what a packet adds, if it is matched
pub update-IsFit :
    (junk : SessionIp) (entry : Option SavedPkt) (g : GtpSession) (p : SavedPkt) {y : Received}
    → is_matched entry p ≡ true
    → gtp_update_session_state junk entry g p ≡ some y
    → IsFit g.current y.1.current y.2
unfolding gtp_update_session_state
update-IsFit junk none g p {y} h e = elim (Bool-cases (is_applied_first p.type)) [
  | inl first ↦ elim (Option-cases (apply_gtp_fsm_logic junk p (g, no_action))) [
    | inl o ↦ absurd (let z = sym (first_of true o first) ∙ e in cc)
    | inr (x, o) ↦
        subst (λ w. IsFit g.current w.1.current w.2) (some-inj (sym (first_of true o first) ∙ e))
          (subst (λ w. IsFit g.current w.0 w.1) (sym (applied-fsm junk g p o))
            (gtp_fsm-IsFit g.current p.type p.response_cause))
  ]
  | inr later ↦
      subst (λ w. IsFit g.current w.1.current w.2) (some-inj (sym (first_of false refl later) ∙ e))
        refl
]
  where
    first_of :
        (b : Bool) {o : Option (GtpSession × AccessAction)}
        → apply_gtp_fsm_logic junk p (g, no_action) ≡ o
        → is_applied_first p.type ≡ b
        → gtp_update_session_state junk none g p ≡ (
            if b
            then and_then o (λ x. some (some (record p { applied = true }), x.0, x.1))
            else some (some p, g, no_action))
    first_of b q h = rw (h, q) refl
update-IsFit junk (some check) g p {y} h e = elim (Bool-cases (answers p.type check.type)) [
  | inl a ↦ apply_pair-IsFit junk g p check a (sym (second {o = some (p, check)} (rw a refl)) ∙ e)
  | inr a ↦ elim (Bool-cases (answers check.type p.type)) [
    | inl b ↦
        apply_pair-IsFit junk g check p b (sym (second {o = some (check, p)} (rw (a, b) refl)) ∙ e)
    | inr b ↦ elim (Bool-cases (p.type == check.type)) [
      | inl c ↦
          subst (λ w. IsFit g.current w.1.current w.2)
            (some-inj (sym (second {o = none} (rw (a, b, c) refl)) ∙ e)) refl
      | inr c ↦ absurd (ground (arith, h, a, b, c))
    ]
  ]
]
  where
    second :
        {o : Option (SavedPkt × SavedPkt)}
        → pair p check ≡ o
        → gtp_update_session_state junk (some check) g p ≡ receive_second junk g p o
    second q = ap (receive_second junk g p) q
