-- ===== src/Radius/Iri/Brackets.antt =====
-- The records of a session: what one message adds to them, and that they follow the life of an access.
use https_github_com_open_li.Prelude.{
  ℕ, suc, ◌+◌, ◌≡◌, ◌⊎◌, refl, sym, ap, ◌∙◌, Bool, true, false, ◌||◌, not, Option, none, some, List,
  [], ◌∷◌, map, if◌then◌else◌, arith, Bool-cases, Option-cases, inl, inr, done, ◌++◌,
}
use https_github_com_open_li.AccessSession.{
  SessionState, new, authing, active, active_no_ip, renew, ending, over, AccessAction, attempt,
  accept, failed, reject, already_active, interim_update, modified, end, end_sudden, retry,
  no_action,
}
use https_github_com_open_li.Radius.{Attribute, RadiusParsed, is_request}
use https_github_com_open_li.Radius.Fsm.{is_active, apply_fsm_logic}
use https_github_com_open_li.Radius.Sessions.{and_then, is_none}
use https_github_com_open_li.Radius.Iri.{
  IriType, iri_begin, iri_end, iri_continue, iri_report, Iri, action_to_iri,
  radius_generate_iri_data, create_ipiri_job_from_packet, ahead,
}

-- The life of an access: outside it there are reports and its begin, inside it updates and its end.
-- `none` is a record that does not fit.
abbrev pub follow_one : Bool → IriType → Option Bool
follow_one false iri_report = some false
follow_one false iri_begin = some true
follow_one true iri_continue = some true
follow_one true iri_end = some false
follow_one _ _ = none

abbrev pub follow : Bool → List IriType → Option Bool
follow inside [] = some inside
follow inside (t ∷ ts) = and_then (follow_one inside t) (λ b. follow b ts)

pub follow-append :
    (b : Bool) (ts us : List IriType)
    → follow b (ts ++ us) ≡ and_then (follow b ts) (λ c. follow c us)
follow-append b [] us = refl
follow-append b (t ∷ ts) us = elim (Option-cases (follow_one b t)) [
  | inl e ↦ rw e refl
  | inr (c, e) ↦ rw e (follow-append c ts us)
]

-- the type of an action's record
abbrev pub kind_of : AccessAction → Option IriType
kind_of attempt = some iri_report
kind_of accept = some iri_begin
kind_of end = some iri_end
kind_of interim_update = some iri_continue
kind_of reject = some iri_report
kind_of failed = some iri_report
kind_of already_active = some iri_begin
kind_of _ = none

abbrev pub listed {ℓ} : {A : Type ℓ} → Option A → List A
listed none = []
listed (some a) = a ∷ []

-- the types of the records of two actions
abbrev pub kinds : AccessAction → AccessAction → List IriType
kinds a b = elim (kind_of a) [ none ↦ [] | some t ↦ t ∷ listed (kind_of b) ]

-- the step of the state machine
pub apply_fsm_logic-follow :
    (s : SessionState) (msgtype accttype : ℕ)
    → follow (is_active s) (listed (kind_of (apply_fsm_logic s msgtype accttype).1))
      ≡ some (is_active (apply_fsm_logic s msgtype accttype).0)
unfolding apply_fsm_logic
apply_fsm_logic-follow new m a = ground arith
apply_fsm_logic-follow authing m a = ground arith
apply_fsm_logic-follow active m a = ground arith
apply_fsm_logic-follow active_no_ip m a = ground arith
apply_fsm_logic-follow over m a = ground arith
apply_fsm_logic-follow renew m a = ground arith
apply_fsm_logic-follow ending m a = ground arith

-- an action that has a record, or is none
abbrev pub has_kind : AccessAction → Bool
has_kind a = is_none a || (elim (kind_of a) [ none ↦ false | some _ ↦ true ])

-- the action that a request makes is of that sort
pub apply_fsm_logic-request :
    (s : SessionState) (msgtype accttype : ℕ)
    → is_request msgtype ≡ true
    → has_kind (apply_fsm_logic s msgtype accttype).1 ≡ true
unfolding apply_fsm_logic
apply_fsm_logic-request new m a h = ground arith
apply_fsm_logic-request authing m a h = ground arith
apply_fsm_logic-request active m a h = ground arith
apply_fsm_logic-request active_no_ip m a h = ground arith
apply_fsm_logic-request over m a h = ground arith
apply_fsm_logic-request renew m a h = ground arith
apply_fsm_logic-request ending m a h = ground arith

-- a record has the type of its action
action_to_iri-kind :
    (r : RadiusParsed) (a : AccessAction) (attrs : List Attribute)
    → ((action_to_iri r a attrs ≡ none) × (kind_of a ≡ none))
      ⊎ ((i : Iri) × (action_to_iri r a attrs ≡ some i) × (kind_of a ≡ some i.iritype))
unfolding action_to_iri
action_to_iri-kind r attempt attrs = inr (_, refl, refl)
action_to_iri-kind r failed attrs = inr (_, refl, refl)
action_to_iri-kind r accept attrs = inr (_, refl, refl)
action_to_iri-kind r reject attrs = inr (_, refl, refl)
action_to_iri-kind r already_active attrs = inr (_, refl, refl)
action_to_iri-kind r interim_update attrs = inr (_, refl, refl)
action_to_iri-kind r end attrs = inr (_, refl, refl)
action_to_iri-kind r modified attrs = inl (refl, refl)
action_to_iri-kind r end_sudden attrs = inl (refl, refl)
action_to_iri-kind r retry attrs = inl (refl, refl)
action_to_iri-kind r no_action attrs = inl (refl, refl)

if_not : (b : Bool) → (if b then false else true) ≡ not b
if_not true = refl
if_not false = refl

none_kind : (a : AccessAction) → is_none a ≡ true → kind_of a ≡ none
none_kind a h = ground arith

-- no record, or one and whether there is another
first_record :
    (r : RadiusParsed)
    → ((radius_generate_iri_data r 0 ≡ none) × (kind_of r.firstaction ≡ none))
      ⊎ ((i : Iri) × (radius_generate_iri_data r 0 ≡ some (i, not (is_none r.secondaction)))
          × (kind_of r.firstaction ≡ some i.iritype))
unfolding radius_generate_iri_data
first_record r = elim (Bool-cases (is_none r.firstaction)) [
  | inl e ↦ inl (rw e refl, none_kind r.firstaction e)
  | inr e ↦ elim (action_to_iri-kind r r.firstaction r.firstattrs) [
    | inl (q, k) ↦ inl (rw (e, q) refl, k)
    | inr (i, q, k) ↦
        inr (i, rw (e, q) (ap (λ b. some (i, b)) (if_not (is_none r.secondaction))), k)
  ]
]

second_record :
    (r : RadiusParsed)
    → ((radius_generate_iri_data r 1 ≡ none) × (kind_of r.secondaction ≡ none))
      ⊎ ((i : Iri) × (radius_generate_iri_data r 1 ≡ some (i, false))
          × (kind_of r.secondaction ≡ some i.iritype))
unfolding radius_generate_iri_data
second_record r = elim (Bool-cases (is_none r.secondaction)) [
  | inl e ↦ inl (rw e refl, none_kind r.secondaction e)
  | inr e ↦ elim (action_to_iri-kind r r.secondaction r.secondattrs) [
    | inl (q, k) ↦ inl (rw (e, q) refl, k)
    | inr (i, q, k) ↦ inr (i, rw (e, q) refl, k)
  ]
]

second_records :
    (r : RadiusParsed) (fuel : ℕ)
    → (l : List Iri) × (create_ipiri_job_from_packet (suc fuel) r 1 ≡ done l)
      × (map (λ i. i.iritype) l ≡ listed (kind_of r.secondaction))
unfolding create_ipiri_job_from_packet
second_records r fuel = elim (second_record r) [
  | inl (q, k) ↦ ([], rw (q, create_ipiri_job_from_packet) refl, sym (ap listed k))
  | inr (i, q, k) ↦ (i ∷ [], rw (q, create_ipiri_job_from_packet) refl, sym (ap listed k))
]

job_more :
    (r : RadiusParsed) (fuel iter : ℕ) (i : Iri) (more : Bool)
    → radius_generate_iri_data r iter ≡ some (i, more)
    → more ≡ true
    → create_ipiri_job_from_packet (suc fuel) r iter
      ≡ ahead i (create_ipiri_job_from_packet fuel r (iter + 1))
unfolding create_ipiri_job_from_packet
job_more r fuel iter i more q e = rw (q, create_ipiri_job_from_packet) (rw e refl)

-- The loop ends within three iterations, and its records have the types of the actions.
pub create_ipiri_job_from_packet-kinds :
    (r : RadiusParsed)
    → (l : List Iri) × (create_ipiri_job_from_packet 3 r 0 ≡ done l)
      × (map (λ i. i.iritype) l ≡ kinds r.firstaction r.secondaction)
unfolding create_ipiri_job_from_packet
create_ipiri_job_from_packet-kinds r = elim (first_record r) [
  | inl (q, k) ↦ ([], rw (q, create_ipiri_job_from_packet) refl, rw (k, kinds) refl)
  | inr (i, q, k) ↦ elim (Bool-cases (is_none r.secondaction)) [
    | inl e ↦ (
      i ∷ [],
      rw (q, create_ipiri_job_from_packet) (rw e refl),
      rw (k, kinds) (ap (λ o. i.iritype ∷ listed o) (sym (none_kind r.secondaction e))),
    )
    | inr e ↦
        let (l, run, types) = second_records r 1 in
        (
          i ∷ l,
          job_more r 2 0 i (not (is_none r.secondaction)) q (ap not e) ∙ ap (ahead i) run,
          rw (k, kinds) (ap (λ ts. i.iritype ∷ ts) types),
        )
  ]
]

-- Two steps of the state machine make records that fit, if the first action has a record or is none, or
-- the second has none.
pub kinds-follow :
    (a b : AccessAction) (b0 b1 b2 : Bool)
    → follow b0 (listed (kind_of a)) ≡ some b1
    → follow b1 (listed (kind_of b)) ≡ some b2
    → (has_kind a ≡ true) ⊎ (kind_of b ≡ none)
    → follow b0 (if is_none a then kinds b no_action else kinds a b) ≡ some b2
kinds-follow attempt b b0 b1 b2 h k c = ground (arith, h, k)
kinds-follow failed b b0 b1 b2 h k c = ground (arith, h, k)
kinds-follow accept b b0 b1 b2 h k c = ground (arith, h, k)
kinds-follow reject b b0 b1 b2 h k c = ground (arith, h, k)
kinds-follow already_active b b0 b1 b2 h k c = ground (arith, h, k)
kinds-follow interim_update b b0 b1 b2 h k c = ground (arith, h, k)
kinds-follow end b b0 b1 b2 h k c = ground (arith, h, k)
kinds-follow modified b b0 b1 b2 h k c = ground (arith, h, k, c)
kinds-follow end_sudden b b0 b1 b2 h k c = ground (arith, h, k, c)
kinds-follow retry b b0 b1 b2 h k c = ground (arith, h, k, c)
kinds-follow no_action b b0 b1 b2 h k c = ground (arith, h, k)
