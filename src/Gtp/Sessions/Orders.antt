-- ===== src/Gtp/Sessions/Orders.antt =====
-- The order in which a request and its response are seen does not matter.
use https_github_com_open_li.Prelude.{
  ℕ, ◌≡◌, refl, sym, ap, ◌∙◌, true, false, ◌&&◌, if◌then◌else◌, Option, none, some, arith,
  Bool-cases, Option-cases, inl, inr,
}
use https_github_com_open_li.AccessSession.{
  SessionIp, SessionState, new, authing, active, active_no_ip, renew, ending, over, AccessAction,
  no_action, AccessSession,
}
use https_github_com_open_li.Gtp.Sessions.{
  SavedPkt, GtpSession, Received, and_then, gtp_fsm, apply_gtp_fsm_logic, answers, is_authing,
  is_active, extract_gtp_assigned_ip_address, is_applied_first, is_authing, is_active,
  extract_gtp_assigned_ip_address, gtp_update_session_state,
}

-- two packets of one number, the second after the first
abbrev pub in_order : SessionIp → GtpSession → SavedPkt → SavedPkt → Option Received
in_order junk g a b =
    and_then (gtp_update_session_state junk none g a) λ x. gtp_update_session_state junk x.0 x.1 b

-- the session with the addresses that a packet has for it
abbrev pub addresses : SessionIp → SavedPkt → GtpSession → Option AccessSession
addresses junk q g =
    if is_authing g.current && is_active (gtp_fsm g.current no_action q.type q.response_cause).0
    then extract_gtp_assigned_ip_address junk q.version q.ies g.sess
    else some g.sess

pub some-inj : {A : Type 0} {a b : A} → some a ≡ some b → a ≡ b
some-inj h = cc

-- a request is no action
pub gtp_fsm-request :
    (s : SessionState) (q r cause : ℕ)
    → answers q r ≡ true
    → (gtp_fsm s no_action q cause).1 ≡ no_action
unfolding gtp_fsm
gtp_fsm-request new q r cause h = ground arith
gtp_fsm-request authing q r cause h = ground arith
gtp_fsm-request active q r cause h = ground arith
gtp_fsm-request active_no_ip q r cause h = ground arith
gtp_fsm-request renew q r cause h = ground arith
gtp_fsm-request ending q r cause h = ground arith
gtp_fsm-request over q r cause h = ground arith

pub apply-request :
    (junk : SessionIp) (q : SavedPkt) (r : ℕ) (g : GtpSession) {x : GtpSession × AccessAction}
    → answers q.type r ≡ true
    → apply_gtp_fsm_logic junk q (g, no_action) ≡ some x
    → x.1 ≡ no_action
unfolding apply_gtp_fsm_logic
apply-request junk q r g {x} h e = elim (Option-cases (addresses junk q g)) [
  | inl o ↦ absurd (let z = rw o at e in cc)
  | inr (s, o) ↦
      let z = rw o at e in
      ap (λ y. y.1) (sym (some-inj z)) ∙ gtp_fsm-request g.current q.type r q.response_cause h
]

pub response_facts :
    (q r : ℕ) → answers q r ≡ true → (is_applied_first r ≡ false) × (answers r q ≡ false)
response_facts q r h = (ground arith, ground arith)

-- A request and the packet that answers it, neither of them applied yet, leave the same session with the
-- same addresses, the same action and no saved packet in whichever order they are seen, and an
-- invalid access happens in both orders or in none.
pub gtp_update_session_state-orders :
    (junk : SessionIp) (g : GtpSession) (q r : SavedPkt)
    → q.applied ≡ false
    → r.applied ≡ false
    → answers q.type r.type ≡ true
    → in_order junk g q r ≡ in_order junk g r q
unfolding gtp_update_session_state
gtp_update_session_state-orders junk g q r fresh_q fresh_r h =
    let (late, other) = response_facts q.type r.type h in
    rw (late, h)
      (elim (Bool-cases (is_applied_first q.type)) [
        | inl first ↦ rw first (elim (Option-cases (apply_gtp_fsm_logic junk q (g, no_action))) [
          | inl e ↦ rw e (rw fresh_q refl)
          | inr ((g1, a1), e) ↦
              let calm : apply_gtp_fsm_logic junk q (g, no_action) ≡ some (g1, no_action) =
                e ∙ ap (λ a. some (g1, a)) (apply-request junk q r.type g h e) in
              rw calm (rw (other, h) (rw fresh_q refl))
        ])
        | inr late_q ↦ rw (late_q, other, h) refl
      ])
