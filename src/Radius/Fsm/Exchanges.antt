-- ===== src/Radius/Fsm/Exchanges.antt =====
-- What a whole accounting exchange does to a session, in any state that a session can be in.
use https_github_com_open_li.Prelude.{ℕ, ◌≡◌, refl, true, if◌then◌else◌, arith}
use https_github_com_open_li.AccessSession.{
  SessionState, new, authing, active, active_no_ip, renew, ending, over,
}
use https_github_com_open_li.Radius.Code
use https_github_com_open_li.Radius.Acct
use https_github_com_open_li.Radius.Fsm.{is_unstarted, is_authing, apply_fsm_logic}

-- The states that messages lead to; a session never gets to `renew` or `ending`.
abbrev pub IsReached : SessionState → Type 0
IsReached renew = ⊥
IsReached ending = ⊥
IsReached _ = Unit {0}

-- an accounting request and its response
abbrev pub exchange : ℕ → SessionState → SessionState
exchange accttype s =
    (apply_fsm_logic (apply_fsm_logic s Code.account_request accttype).0 Code.account_response
      accttype).0

-- every message keeps to those states
pub apply_fsm_logic-IsReached :
    (s : SessionState) (msgtype accttype : ℕ)
    → IsReached s
    → IsReached (apply_fsm_logic s msgtype accttype).0
unfolding apply_fsm_logic
apply_fsm_logic-IsReached new m a h = ground arith
apply_fsm_logic-IsReached authing m a h = ground arith
apply_fsm_logic-IsReached active m a h = ground arith
apply_fsm_logic-IsReached active_no_ip m a h = ground arith
apply_fsm_logic-IsReached over m a h = ground arith
apply_fsm_logic-IsReached renew m a h = elim h [ ]
apply_fsm_logic-IsReached ending m a h = elim h [ ]

-- From every state that a session can be in, the request and response of a start make the session
-- active, those of a stop leave it not begun or over, and those of an interim update make it active
-- unless it waits for an answer to its first request, in which case they change nothing.
pub exchange_lem :
    (s : SessionState)
    → IsReached s
    → (exchange Acct.start s ≡ active)
      × (is_unstarted (exchange Acct.stop s) ≡ true)
      × (exchange Acct.interim s ≡ (if is_authing s then authing else active))
unfolding apply_fsm_logic
exchange_lem new h = (refl, refl, refl)
exchange_lem authing h = (refl, refl, refl)
exchange_lem active h = (refl, refl, refl)
exchange_lem active_no_ip h = (refl, refl, refl)
exchange_lem over h = (refl, refl, refl)
exchange_lem renew h = elim h [ ]
exchange_lem ending h = elim h [ ]
