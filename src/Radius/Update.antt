-- ===== src/Radius/Update.antt =====
-- radius_update_session_state as a whole: the sessions that a message belongs to are looked up or made,
-- a request is saved, and the message does its work on them. Also radius_destroy_session_data. `hash` is
-- hashlittle of an authenticator and `now` the second of gettimeofday; a failed assertion and an invalid
-- access are `aborted`.
pub mod UserSessions
pub mod Isolation
use https_github_com_open_li.Prelude.{
  ℕ, zero, suc, ◌+◌, ◌-◌, ◌/◌, ◌%◌, Bool, true, false, ◌&&◌, ◌||◌, Option, none, some, List, [],
  ◌∷◌, ◌++◌, if◌then◌else◌, ◌==◌, leb, ltb, take, length, Outcome, done, aborted,
}
use https_github_com_open_li.AccessSession.{SessionIp, AccessSession, new, create_access_session}
use https_github_com_open_li.Uthash.{bytes_eq, hash_find, hash_delete}
use https_github_com_open_li.Radius.{
  Attribute, UserSession, RadiusUser, SavedReq, RadiusNas, RadiusParsed,
}
use https_github_com_open_li.Radius.Code
use https_github_com_open_li.Radius.Attr
use https_github_com_open_li.Radius.Sessions.{and_then, is_nil, Progress, update_actions}
use https_github_com_open_li.Radius.Requests.{has_userid, change_user, save_request, has_reqid}

-- snprintf("%u") of a number below 2 ^ 32, in front of `acc`
pub decimal : ℕ → ℕ → List ℕ → List ℕ
decimal zero n acc = acc
decimal (suc digits) n acc =
    let rest = decimal digits (n / 10) ((48 + n % 10) ∷ acc) in
    if ltb n 10 then (48 + n) ∷ acc else rest

-- the string written so far, and the room left with that for a NUL
abbrev pub quickcat : List ℕ × ℕ → List ℕ → List ℕ × ℕ
quickcat (s, rem) toadd =
    if leb rem 1
    then (s, rem)
    else if ltb (length toadd) (rem - 1)
    then (s ++ toadd, rem - length toadd)
    else (s ++ take (rem - 1) toadd, 1)

-- user, NAS identifier and session number, with '-' between them
pub session_name : List ℕ → List ℕ → ℕ → List ℕ
unfolding decimal
session_name userid nasid acctsess =
    let s1 = quickcat ([], 5000) userid in
    let s2 = quickcat s1 (b'-' ∷ []) in
    let s3 = quickcat s2 nasid in
    let s4 = quickcat s3 (b'-' ∷ []) in (quickcat s4 (decimal 10 acctsess [])).0

abbrev pub has_session_id : List Attribute → Bool
has_session_id [] = false
has_session_id (a ∷ attrs) = (a.att_type == Attr.acct_session_id) || has_session_id attrs

pub assign_cin : (List ℕ → ℕ) → ℕ → RadiusParsed → ℕ
assign_cin hash now raddata =
    if has_session_id raddata.attrs
    then raddata.acctsess % 2147483648
    else if raddata.msgtype == Code.access_request
    then hash raddata.authenticator % 2147483648
    else now % 2147483648

-- the calloc of a session of the plugin
abbrev pub new_user_session : ℕ → UserSession
new_user_session acctsess = record {
  session_id = acctsess;
  current = new;
  nas_port = 0;
  octets_received = 0;
  octets_sent = 0;
  nasidentifier = none;
  nas_ip = none;
}

pub has_session : ℕ → UserSession → Bool
has_session acctsess s = s.session_id == acctsess

pub has_name : List ℕ → AccessSession → Bool
has_name id s = bytes_eq s.sessionid id

abbrev pub or_new {ℓ} : {A : Type ℓ} → Option A → A → A
or_new none a = a
or_new (some b) a = b

-- an item in the place of the one with its key, or behind the others
pub put {ℓ} : {A : Type ℓ} → (A → Bool) → A → List A → List A
put same a [] = a ∷ []
put same a (x ∷ xs) = if same x then a ∷ xs else x ∷ put same a xs

-- the session of the collector: found by its name, or made
abbrev pub access_session :
    (List ℕ → ℕ) → ℕ → RadiusParsed → List ℕ → List AccessSession → AccessSession
access_session hash now raddata id sesslist =
    or_new (hash_find (has_name id) sesslist)
      (record (create_access_session id) { cin = assign_cin hash now raddata })

-- a new session of the plugin becomes its state
abbrev pub with_statedata : Option UserSession → ℕ → AccessSession → AccessSession
with_statedata none acctsess sess = record sess { statedata = some acctsess }
with_statedata (some _) acctsess sess = sess

abbrev pub put_session : ℕ → UserSession → RadiusUser → RadiusUser
put_session acctsess s u = record u { sessions = put (has_session acctsess) s u.sessions }

pub record Updated : Type 0 where
  pub nas : RadiusNas
  pub sesslist : List AccessSession
  pub progress : Progress

-- behind the tests of the user
pub update_sessions :
    SessionIp
    → (List ℕ → ℕ)
    → ℕ
    → RadiusNas
    → RadiusParsed
    → RadiusUser
    → List ℕ
    → List AccessSession
    → Option Updated
unfolding has_name has_session put assign_cin create_access_session hash_find save_request
    change_user update_actions
update_sessions junk hash now nas raddata u id sesslist =
    let sess = access_session hash now raddata id sesslist in
    let saved = save_request nas raddata in
    let found = hash_find (has_session raddata.acctsess) u.sessions in
    and_then
      (update_actions junk saved.1 (or_new found (new_user_session raddata.acctsess))
        (with_statedata found raddata.acctsess sess))
      λ p. some (record {
        nas = record saved.0 {
          user_map = change_user u.userid (put_session raddata.acctsess p.usess) saved.0.user_map;
        };
        sesslist = put (has_name id) p.thissess sesslist;
        progress = p;
      })

-- `done none` is NULL; the user is named by its `userid`
pub radius_update_session_state :
    SessionIp
    → (List ℕ → ℕ)
    → ℕ
    → RadiusNas
    → RadiusParsed
    → List ℕ
    → List AccessSession
    → Outcome (Option Updated)
unfolding update_sessions session_name has_userid hash_find
radius_update_session_state junk hash now nas raddata key sesslist =
    if is_nil raddata.matchedusers
    then done none
    else elim (hash_find (has_userid key) nas.user_map) [
      | none ↦ aborted
      | some u ↦ elim u.nasidentifier [
        | none ↦ aborted
        | some nasid ↦
            elim (update_sessions junk hash now nas raddata u
              (session_name u.userid nasid raddata.acctsess) sesslist) [
                | none ↦ aborted
                | some r ↦ done (some r)
              ]
      ]
    ]

-- a destroyed user in the targets of a request, of which there is one fewer
abbrev pub without_target : List ℕ → List (Option (List ℕ)) → List (Option (List ℕ))
without_target key [] = []
without_target key (none ∷ targets) = none ∷ without_target key targets
without_target key (some k ∷ targets) =
    let rest = without_target key targets in
    if bytes_eq k key then none ∷ targets else some k ∷ rest

abbrev pub is_target : List ℕ → List (Option (List ℕ)) → Bool
is_target key [] = false
is_target key (none ∷ targets) = is_target key targets
is_target key (some k ∷ targets) = bytes_eq k key || is_target key targets

abbrev pub drop_target : List ℕ → SavedReq → SavedReq
drop_target key req =
    if is_target key req.targetusers
    then record req {
      targetusers = without_target key req.targetusers;
      active_targets = req.active_targets - 1;
    }
    else req

-- one saved request of a user that is destroyed: it goes with its last target
pub drop_from_request : List ℕ → ℕ → List SavedReq → List SavedReq
drop_from_request key reqid [] = []
drop_from_request key reqid (req ∷ reqs) =
    let rest = drop_from_request key reqid reqs in
    let req' = drop_target key req in
    if has_reqid reqid req
    then (if req'.active_targets == 0 then reqs else req' ∷ reqs)
    else req ∷ rest

pub drop_from_requests : List ℕ → List ℕ → List SavedReq → List SavedReq
unfolding drop_from_request
drop_from_requests key [] reqs = reqs
drop_from_requests key (reqid ∷ ids) reqs =
    drop_from_requests key ids (drop_from_request key reqid reqs)

pub destroy_radius_user : RadiusUser → RadiusNas → RadiusNas
unfolding drop_from_requests has_userid hash_delete
destroy_radius_user u nas = record nas {
  user_map = hash_delete (has_userid u.userid) nas.user_map;
  request_map = drop_from_requests u.userid u.savedrequests nas.request_map;
}

-- the session of the plugin goes, and its user with the last one; `key` is the session's parent
pub radius_destroy_session_data : List ℕ → AccessSession → RadiusNas → RadiusNas
unfolding destroy_radius_user has_session has_userid hash_find hash_delete change_user
radius_destroy_session_data key sess nas = elim sess.statedata [
  | none ↦ nas
  | some session_id ↦ elim (hash_find (has_userid key) nas.user_map) [
    | none ↦ nas
    | some u ↦
        let left = hash_delete (has_session session_id) u.sessions in
        if is_nil left then destroy_radius_user u nas else record nas {
          user_map = change_user key (λ v. record v { sessions = left }) nas.user_map;
        }
  ]
]
