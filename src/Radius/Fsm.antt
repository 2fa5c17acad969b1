-- ===== src/Radius/Fsm.antt =====
-- The state machine of a RADIUS session, apply_fsm_logic.
pub mod Exchanges
use https_github_com_open_li.Prelude.{ℕ, Bool, true, false, ◌&&◌, ◌||◌, if◌then◌else◌, ◌==◌}
use https_github_com_open_li.AccessSession.{
  SessionState, new, authing, active, active_no_ip, renew, ending, over, AccessAction, attempt,
  failed, accept, reject, already_active, interim_update, end, retry, no_action,
}
use https_github_com_open_li.Radius.Code
use https_github_com_open_li.Radius.Acct

abbrev pub is_unstarted : SessionState → Bool
is_unstarted new = true
is_unstarted over = true
is_unstarted _ = false

abbrev pub is_authing : SessionState → Bool
is_authing authing = true
is_authing _ = false

abbrev pub is_active : SessionState → Bool
is_active active = true
is_active active_no_ip = true
is_active _ = false

-- the state behind the message and the action
unfoldable pub apply_fsm_logic : SessionState → ℕ → ℕ → SessionState × AccessAction
apply_fsm_logic current msgtype accttype =
    if is_unstarted current
      && ((msgtype == Code.access_request)
          || ((msgtype == Code.account_request) && (accttype == Acct.start)))
    then (authing, attempt)
    else if is_authing current && (msgtype == Code.access_reject)
    then (over, reject)
    else if is_authing current && (msgtype == Code.access_challenge)
    then (authing, retry)
    else if is_authing current && ((msgtype == Code.account_request) && (accttype == Acct.stop))
    then (over, failed)
    else if is_authing current
        && ((msgtype == Code.access_accept)
            || ((msgtype == Code.account_response) && (accttype == Acct.start)))
    then (active, accept)
    else if is_active current
        && ((msgtype == Code.account_response)
            && ((accttype == Acct.start) || (accttype == Acct.interim)))
    then (active, interim_update)
    else if is_active current && ((msgtype == Code.account_response) && (accttype == Acct.stop))
    then (over, end)
    else if is_unstarted current
        && ((msgtype == Code.account_response) && (accttype == Acct.interim))
    then (active, already_active)
    else (current, no_action)
