-- ===== src/Radius/Sessions.antt =====
-- The second half of radius_update_session_state: what a message does to a session of a user.
-- `none` is an access through a NULL pointer, or a memcpy of a negative length. `junk` is what new
-- memory holds.
pub mod Sound
use https_github_com_open_li.Prelude.{
  ℕ, zero, suc, ◌+◌, ◌*◌, ◌&&◌, ◌||◌, Bool, true, false, Option, none, some, List, [], ◌∷◌,
  if◌then◌else◌, ◌==◌, take, drop, get_or,
}
use https_github_com_open_li.Prelude.Int.{ℤ, pos, sub_ℕ}
use https_github_com_open_li.AccessSession.{
  SessionIp, AccessSession, SessionState, active, active_no_ip, AccessAction, attempt, accept,
  already_active, interim_update, end, no_action, af_inet, af_inet6, add_new_session_ip,
}
use https_github_com_open_li.Radius.{Attribute, UserSession, SavedReq, OrphanedResp, RadiusParsed}
use https_github_com_open_li.Radius.Code
use https_github_com_open_li.Radius.Attr
use https_github_com_open_li.Radius.Acct
use https_github_com_open_li.Radius.Fsm.{apply_fsm_logic}

-- ntohl of the four bytes at the front of a value
abbrev pub be32 : List ℕ → ℕ
be32 v = get_or v 0 0 * 16777216 + get_or v 1 0 * 65536 + get_or v 2 0 * 256 + get_or v 3 0

-- the bytes in front of the first NUL
abbrev pub c_string : List ℕ → List ℕ
c_string [] = []
c_string (x ∷ xs) = let rest = c_string xs in if x == 0 then [] else x ∷ rest

abbrev pub or_else {ℓ} : {A : Type ℓ} → Option A → A → Option A
or_else none a = some a
or_else (some b) a = some b

-- the cases of update_user_session_data
abbrev pub note_attribute : Attribute → UserSession → UserSession
note_attribute a s =
    if a.att_type == Attr.nasport
    then record s { nas_port = be32 a.att_val }
    else if a.att_type == Attr.nasidentifier
    then record s { nasidentifier = or_else s.nasidentifier (c_string (take a.att_len a.att_val)) }
    else if a.att_type == Attr.nasip
    then record s { nas_ip = or_else s.nas_ip (take 4 a.att_val) }
    else if a.att_type == Attr.acct_inoctets
    then record s { octets_received = be32 a.att_val }
    else if a.att_type == Attr.acct_outoctets
    then record s { octets_sent = be32 a.att_val }
    else s

unfoldable pub update_user_session_data : List Attribute → UserSession → UserSession
update_user_session_data [] s = s
update_user_session_data (a ∷ attrs) s = update_user_session_data attrs (note_attribute a s)

abbrev pub is_prefix : ℕ → Bool
is_prefix t = (t == Attr.delegated_ipv6_prefix) || (t == Attr.framed_ipv6_prefix)

-- what the first two cases of the loop add
pub extract_address : SessionIp → Attribute → AccessSession → Option AccessSession
unfolding add_new_session_ip
extract_address junk a sess =
    if a.att_type == Attr.framed_ip_address
    then add_new_session_ip junk sess a.att_val af_inet 32 (pos a.att_len)
    else if a.att_type == Attr.framed_ipv6_address
    then add_new_session_ip junk sess a.att_val af_inet6 128 (pos a.att_len)
    else some sess

abbrev pub and_then {ℓ κ} : {A : Type ℓ} {B : Type κ} → Option A → (A → Option B) → Option B
and_then none f = none
and_then (some a) f = f a

-- the loop of extract_assigned_ip_address, which a prefix ends
pub extract_addresses : SessionIp → List Attribute → AccessSession → Option AccessSession
unfolding extract_address
extract_addresses junk [] sess = some sess
extract_addresses junk (a ∷ attrs) sess =
    let rest : Option AccessSession =
      and_then (extract_address junk a sess) (λ s. extract_addresses junk attrs s) in
    if is_prefix a.att_type
    then add_new_session_ip junk sess (drop 2 a.att_val) af_inet6 (get_or a.att_val 1 0)
        (sub_ℕ a.att_len 2)
    else rest

abbrev pub is_nil {ℓ} : {A : Type ℓ} → List A → Bool
is_nil [] = true
is_nil (_ ∷ _) = false

pub extract_assigned_ip_address :
    SessionIp → RadiusParsed → List Attribute → AccessSession → Option AccessSession
unfolding extract_addresses
extract_assigned_ip_address junk raddata attrlist sess =
    if is_nil raddata.matchedusers then some sess else extract_addresses junk attrlist sess

abbrev pub started_at : ℕ → AccessSession → AccessSession
started_at tvsec sess = record sess { started = tvsec }

-- the case of an action that takes the addresses
abbrev pub first_addresses :
    SessionIp
    → RadiusParsed
    → List Attribute
    → (AccessSession → AccessSession)
    → AccessSession
    → Option (RadiusParsed × AccessSession)
first_addresses junk raddata attrs f sess =
    and_then (extract_assigned_ip_address junk raddata attrs sess)
      (λ s. some (record raddata { firstattrs = attrs }, f s))

abbrev pub with_savedreq {ℓ} : {A : Type ℓ} → RadiusParsed → (SavedReq → Option A) → Option A
with_savedreq raddata f = and_then raddata.savedreq f

pub update_first_action :
    SessionIp → AccessAction → RadiusParsed → AccessSession → Option (RadiusParsed × AccessSession)
unfolding extract_assigned_ip_address
update_first_action junk accept raddata sess =
    first_addresses junk raddata raddata.attrs (λ s. s) (started_at raddata.tvsec sess)
update_first_action junk already_active raddata sess =
    with_savedreq raddata λ req. first_addresses junk raddata req.attrs (started_at req.tvsec) sess
update_first_action junk attempt raddata sess =
    if raddata.msgtype == Code.account_request
    then first_addresses junk raddata raddata.attrs (started_at raddata.tvsec) sess
    else some (record raddata { firstattrs = raddata.attrs }, sess)
update_first_action junk interim_update raddata sess = with_savedreq raddata λ req.
    if (raddata.msgtype == Code.account_response)
      && ((raddata.accttype == Acct.start) && (sess.sessipcount == 0))
    then first_addresses junk raddata req.attrs (λ s. s) sess
    else some (record raddata { firstattrs = req.attrs }, sess)
update_first_action junk end raddata sess =
    with_savedreq raddata λ req. some (record raddata { firstattrs = req.attrs }, sess)
update_first_action junk _ raddata sess = some (record raddata { firstattrs = [] }, sess)

abbrev pub second_addresses :
    SessionIp
    → RadiusParsed
    → List Attribute
    → ℕ
    → AccessSession
    → Option (RadiusParsed × AccessSession)
second_addresses junk raddata attrs tvsec sess =
    and_then (extract_assigned_ip_address junk raddata attrs sess)
      (λ s. some (record raddata { secondattrs = attrs }, started_at tvsec s))

-- the switch at the end
abbrev pub second_default : AccessAction → RadiusParsed → RadiusParsed
second_default interim_update raddata = record raddata { secondattrs = raddata.attrs }
second_default end raddata = record raddata { secondattrs = raddata.attrs }
second_default already_active raddata = record raddata { secondattrs = raddata.attrs }
second_default _ raddata = record raddata { secondattrs = [] }

pub update_second_action :
    SessionIp → AccessAction → RadiusParsed → AccessSession → Option (RadiusParsed × AccessSession)
unfolding extract_assigned_ip_address
update_second_action junk accept raddata sess = and_then raddata.savedresp λ r.
    if r.resptype == Code.access_accept
    then second_addresses junk raddata r.savedattrs r.tvsec sess
    else if r.resptype == Code.account_response
    then second_addresses junk raddata raddata.attrs r.tvsec sess
    else some (second_default accept raddata, sess)
update_second_action junk already_active raddata sess = and_then raddata.savedresp λ r.
    if r.resptype == Code.account_response
    then second_addresses junk raddata raddata.attrs r.tvsec sess
    else some (second_default already_active raddata, sess)
update_second_action junk action raddata sess = some (second_default action raddata, sess)

-- the state and action that an orphaned response adds
abbrev pub second_logic :
    Option OrphanedResp → SessionState → RadiusParsed → SessionState × AccessAction
second_logic none s raddata = (s, raddata.secondaction)
second_logic (some r) s raddata = apply_fsm_logic s r.resptype raddata.accttype

-- "active" with no address assigned yet
abbrev pub without_ip : AccessSession → SessionState → SessionState
without_ip sess active = if sess.sessipcount == 0 then active_no_ip else active
without_ip sess s = s

abbrev pub is_none : AccessAction → Bool
is_none no_action = true
is_none _ = false

-- a second action that has no first one takes its place
abbrev pub chosen : RadiusParsed → RadiusParsed
chosen raddata =
    if is_none raddata.firstaction
    then (if is_none raddata.secondaction then raddata else record raddata {
      firstaction = raddata.secondaction;
      secondaction = no_action;
      firstattrs = raddata.secondattrs;
      secondattrs = [];
    })
    else raddata

-- The message, the two sessions and the states before and after; the action is the first one.
pub record Progress : Type 0 where
  pub raddata : RadiusParsed
  pub usess : UserSession
  pub thissess : AccessSession
  pub oldstate : SessionState
  pub newstate : SessionState

-- from `*oldstate = usess->current` to the end
unfoldable pub update_actions :
    SessionIp → RadiusParsed → UserSession → AccessSession → Option Progress
unfolding apply_fsm_logic update_user_session_data update_first_action update_second_action
update_actions junk raddata usess thissess =
    let (s1, a1) = apply_fsm_logic usess.current raddata.msgtype raddata.accttype in
    let (s2, a2) = second_logic raddata.savedresp s1 raddata in
    and_then
      (update_first_action junk a1 (record raddata { firstaction = a1; secondaction = a2 })
        thissess)
      λ first. and_then (update_second_action junk a2 first.0 first.1) λ second.
        let newstate = without_ip second.1 s2 in
        some (record {
          raddata = chosen second.0;
          usess = record (update_user_session_data raddata.attrs usess) { current = newstate };
          thissess = second.1;
          oldstate = usess.current;
          newstate = newstate;
        })
