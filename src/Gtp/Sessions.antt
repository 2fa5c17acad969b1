-- ===== src/Gtp/Sessions.antt =====
-- The sessions that collector/accessplugins/gtp.c follows: request and response are joined by the number
-- that they share, and each is applied to the session once. The packets are those of one session and one
-- number, and `entry` is what the table of saved packets holds under it. `none` as a result is an
-- invalid access to memory. What a packet says of the user is saved apart from this.
pub mod Orders
pub mod Records
pub mod Life
use https_github_com_open_li.Prelude.{
  ℕ, ◌-◌, ◌%◌, Bool, true, false, not, ◌&&◌, ◌||◌, Option, none, some, List, [], ◌∷◌, if◌then◌else◌,
  ltb, leb, ◌==◌, drop, length, get_or,
}
use https_github_com_open_li.Prelude.Int.{pos}
use https_github_com_open_li.Netcomms.{load16}
use https_github_com_open_li.AccessSession.{
  SessionState, new, authing, active, ending, over, AccessAction, accept, reject, interim_update,
  end, no_action, SessionIp, AccessSession, add_new_session_ip, af_inet, af_inet6,
}
use https_github_com_open_li.Gtp.{
  InfoElem, create_session_request, delete_session_request, create_pdp_context_request,
}
use https_github_com_open_li.Gtp.Ie

abbrev pub create_session_response : ℕ
create_session_response = 33

abbrev pub delete_session_response : ℕ
delete_session_response = 37

abbrev pub create_pdp_context_response : ℕ
create_pdp_context_response = 17

abbrev pub update_pdp_context_request : ℕ
update_pdp_context_request = 18

abbrev pub update_pdp_context_response : ℕ
update_pdp_context_response = 19

abbrev pub delete_pdp_context_request : ℕ
delete_pdp_context_request = 20

abbrev pub delete_pdp_context_response : ℕ
delete_pdp_context_response = 21

-- gtp_saved_pkt_t
pub record SavedPkt : Type 0 where
  pub version : ℕ
  pub type : ℕ
  pub applied : Bool
  pub response_cause : ℕ
  pub ies : List InfoElem

-- the state of a gtp_session_t, and the session of the collector
pub record GtpSession : Type 0 where
  pub current : SessionState
  pub sess : AccessSession

abbrev pub and_then {ℓ κ} : {A : Type ℓ} {B : Type κ} → Option A → (A → Option B) → Option B
and_then none f = none
and_then (some a) f = f a

abbrev pub is_new : SessionState → Bool
is_new new = true
is_new _ = false

abbrev pub is_authing : SessionState → Bool
is_authing authing = true
is_authing _ = false

abbrev pub is_active : SessionState → Bool
is_active active = true
is_active _ = false

abbrev pub is_ending : SessionState → Bool
is_ending ending = true
is_ending _ = false

-- the state behind a packet of a type and a cause, and the action, which may stay
unfoldable pub gtp_fsm : SessionState → AccessAction → ℕ → ℕ → SessionState × AccessAction
gtp_fsm current action type cause =
    if is_new current && ((type == create_session_request) || (type == create_pdp_context_request))
    then (authing, no_action)
    else if is_authing current && (type == create_session_response)
    then (if cause == 16
        then (active, accept)
        else if leb 64 cause && leb cause 239
        then (over, reject)
        else (current, action))
    else if is_authing current && (type == create_pdp_context_response)
    then (if cause == 128
        then (active, accept)
        else if leb 192 cause && leb cause 255
        then (over, reject)
        else (current, action))
    else if is_active current
        && ((type == delete_session_request) || (type == delete_pdp_context_request))
    then (ending, no_action)
    else if is_ending current
        && ((type == delete_session_response) || (type == delete_pdp_context_response))
    then (over, end)
    else if is_active current && (type == update_pdp_context_response)
    then (current, interim_update)
    else (current, action)

-- the address in the allocation of GTPv2; the content has a byte for the kind in front
abbrev pub address_v2 : SessionIp → InfoElem → AccessSession → Option AccessSession
address_v2 junk ie sess =
    if ltb (length ie.iecontent) 1
    then none
    else if get_or ie.iecontent 0 0 == 1
    then add_new_session_ip junk sess (drop 1 ie.iecontent) af_inet 32 (pos (ie.ielength - 1))
    else if (get_or ie.iecontent 0 0 == 2) || (get_or ie.iecontent 0 0 == 3)
    then add_new_session_ip junk sess (drop 1 ie.iecontent) af_inet6 128 (pos (ie.ielength - 1))
    else some sess

-- the address of the end user of GTPv1, behind two bytes for the kind
abbrev pub address_v1 : SessionIp → InfoElem → AccessSession → Option AccessSession
address_v1 junk ie sess =
    let pdptype = load16 ie.iecontent % 4096 in
    if ltb (length ie.iecontent) 2
    then none
    else if (pdptype == 289) && leb 6 ie.ielength
    then add_new_session_ip junk sess (drop 2 ie.iecontent) af_inet 32 (pos (ie.ielength - 2))
    else if (pdptype == 343) && leb 18 ie.ielength
    then add_new_session_ip junk sess (drop 2 ie.iecontent) af_inet6 128 (pos (ie.ielength - 2))
    else some sess

-- the first element with an address
unfoldable pub extract_gtp_assigned_ip_address :
    SessionIp → ℕ → List InfoElem → AccessSession → Option AccessSession
unfolding add_new_session_ip
extract_gtp_assigned_ip_address junk version [] sess = some sess
extract_gtp_assigned_ip_address junk version (ie ∷ ies) sess =
    let rest = extract_gtp_assigned_ip_address junk version ies sess in
    if (version == 2) && (ie.ietype == Ie.v2_pdn_alloc)
    then address_v2 junk ie sess
    else if (version == 1) && (ie.ietype == Ie.v1_end_user_address)
    then address_v1 junk ie sess
    else rest

-- the addresses are taken where a session that waits becomes active
unfoldable pub apply_gtp_fsm_logic :
    SessionIp → SavedPkt → GtpSession × AccessAction → Option (GtpSession × AccessAction)
unfolding gtp_fsm extract_gtp_assigned_ip_address
apply_gtp_fsm_logic junk gpkt (g, action) =
    let (current, action') = gtp_fsm g.current action gpkt.type gpkt.response_cause in
    and_then
      (if is_authing g.current && is_active current
        then extract_gtp_assigned_ip_address junk gpkt.version gpkt.ies g.sess
        else some g.sess)
      (λ sess. some (record { current = current; sess = sess }, action'))

abbrev pub apply_once :
    SessionIp → SavedPkt → GtpSession × AccessAction → Option (GtpSession × AccessAction)
apply_once junk gpkt x = if gpkt.applied then some x else apply_gtp_fsm_logic junk gpkt x

-- whether a type is the request that another one answers
abbrev pub answers : ℕ → ℕ → Bool
answers q r =
    ((q == create_session_request) && (r == create_session_response))
    || (((q == delete_session_request) && (r == delete_session_response))
        || (((q == create_pdp_context_request) && (r == create_pdp_context_response))
            || (((q == delete_pdp_context_request) && (r == delete_pdp_context_response))
                || ((q == update_pdp_context_request) && (r == update_pdp_context_response)))))

-- request and response of two packets with one number, `none` for one that was sent again; of any other
-- two the older one is taken for the request
abbrev pub pair : SavedPkt → SavedPkt → Option (SavedPkt × SavedPkt)
pair saved check =
    if answers saved.type check.type
    then some (saved, check)
    else if answers check.type saved.type
    then some (check, saved)
    else if saved.type == check.type
    then none
    else some (check, saved)

-- the requests that are applied before their response is there
abbrev pub is_applied_first : ℕ → Bool
is_applied_first type =
    (type == create_session_request)
    || ((type == delete_session_request)
        || ((type == create_pdp_context_request) || (type == delete_pdp_context_request)))

abbrev pub Received : Type 0
Received = Option SavedPkt × GtpSession × AccessAction

-- the two packets, applied in the order of the exchange
abbrev pub apply_pair : SessionIp → GtpSession → SavedPkt × SavedPkt → Option Received
apply_pair junk g (request, response) =
    and_then (apply_once junk request (g, no_action))
      λ x. and_then (apply_once junk response x) λ y. some (none, y.0, y.1)

abbrev pub receive_second :
    SessionIp → GtpSession → SavedPkt → Option (SavedPkt × SavedPkt) → Option Received
receive_second junk g saved none = some (some saved, g, no_action)
receive_second junk g saved (some p) = apply_pair junk g p

unfoldable pub gtp_update_session_state :
    SessionIp → Option SavedPkt → GtpSession → SavedPkt → Option Received
unfolding apply_gtp_fsm_logic
gtp_update_session_state junk none g saved =
    if is_applied_first saved.type
    then and_then (apply_gtp_fsm_logic junk saved (g, no_action))
        (λ x. some (some (record saved { applied = true }), x.0, x.1))
    else some (some saved, g, no_action)
gtp_update_session_state junk (some check) g saved = receive_second junk g saved (pair saved check)
