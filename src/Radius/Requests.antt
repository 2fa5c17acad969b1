-- ===== src/Radius/Requests.antt =====
-- The requests that wait for a response, and the matching of responses: process_nasid_attribute, the
-- first half of radius_update_session_state, and find_matching_request.
pub mod Matching
use https_github_com_open_li.Prelude.{
  ℕ, ◌-◌, Bool, true, false, not, ◌&&◌, ◌||◌, Option, none, some, List, [], ◌∷◌, ◌++◌,
  if◌then◌else◌, ◌==◌, take, length,
}
use https_github_com_open_li.Uthash.{bytes_eq, hash_find, hash_add, hash_delete}
use https_github_com_open_li.Radius.{
  Attribute, RadiusUser, SavedReq, OrphanedResp, RadiusNas, RadiusParsed, derive_request_id,
  is_request,
}
use https_github_com_open_li.Radius.Code
use https_github_com_open_li.Radius.Attr
use https_github_com_open_li.Radius.Orphans.{create_orphan, search_orphans}

-- JSLG of a user
unfoldable pub has_userid : List ℕ → RadiusUser → Bool
has_userid userid u = bytes_eq u.userid userid

-- a change through the pointer to a user
unfoldable pub change_user : List ℕ → (RadiusUser → RadiusUser) → List RadiusUser → List RadiusUser
unfolding has_userid
change_user userid f [] = []
change_user userid f (u ∷ us) =
    if has_userid userid u then f u ∷ us else u ∷ change_user userid f us

-- the same for every target that is not NULL
unfoldable pub change_users :
    List (Option (List ℕ)) → (RadiusUser → RadiusUser) → List RadiusUser → List RadiusUser
unfolding change_user
change_users [] f users = users
change_users (none ∷ targets) f users = change_users targets f users
change_users (some userid ∷ targets) f users = change_users targets f (change_user userid f users)

-- JLI and JLD of a key
abbrev pub without_key : ℕ → List ℕ → List ℕ
without_key k [] = []
without_key k (x ∷ xs) = let rest = without_key k xs in if x == k then rest else x ∷ rest

abbrev pub forget_request : ℕ → RadiusUser → RadiusUser
forget_request reqid u = record u { savedrequests = without_key reqid u.savedrequests }

abbrev pub note_request : ℕ → RadiusUser → RadiusUser
note_request reqid u = record u { savedrequests = reqid ∷ without_key reqid u.savedrequests }

abbrev pub has_reqid : ℕ → SavedReq → Bool
has_reqid reqid req = req.reqid == reqid

-- the request that is saved for a message
abbrev pub new_request : RadiusParsed → ℕ → SavedReq
new_request raddata reqid = record {
  reqid = reqid;
  statustype = raddata.accttype;
  acctsess = raddata.acctsess;
  tvsec = raddata.tvsec;
  attrs = raddata.attrs;
  targetusers = raddata.matchedusers;
  active_targets = length raddata.matchedusers;
}

-- the same request, which the message's other user saved
abbrev pub is_same : RadiusParsed → SavedReq → Bool
is_same raddata check = (raddata.tvsec == check.tvsec) && (raddata.acctsess == check.acctsess)

abbrev pub add_request : RadiusParsed → ℕ → RadiusNas → RadiusNas
add_request raddata reqid nas = record nas {
  request_map = hash_add (new_request raddata reqid) nas.request_map;
  user_map = change_users raddata.matchedusers (note_request reqid) nas.user_map;
}

abbrev pub drop_request : SavedReq → ℕ → RadiusNas → RadiusNas
drop_request check reqid nas = record nas {
  request_map = hash_delete (has_reqid reqid) nas.request_map;
  user_map = change_users check.targetusers (forget_request reqid) nas.user_map;
}

-- the branch without an orphan
unfoldable pub insert_request : RadiusParsed → ℕ → RadiusNas → RadiusNas
unfolding hash_find hash_delete change_users
insert_request raddata reqid nas = elim (hash_find (has_reqid reqid) nas.request_map) [
  | none ↦ add_request raddata reqid nas
  | some check ↦
      if is_same raddata check
      then nas
      else add_request raddata reqid (drop_request check reqid nas)
]

-- the handling of a request: an orphan is its response, or the request waits for one
unfoldable pub save_request : RadiusNas → RadiusParsed → RadiusNas × RadiusParsed
unfolding insert_request search_orphans
save_request nas raddata =
    if is_request raddata.msgtype
    then (let reqid = derive_request_id raddata raddata.msgtype in
        let (found, orphaned) = search_orphans nas.orphaned reqid raddata.tvsec in
        let nas' = record nas { orphaned = orphaned } in
        elim found [
          | some orphan ↦ (nas', record raddata { savedresp = some orphan })
          | none ↦ elim raddata.savedresp [
            | some _ ↦ (nas', raddata)
            | none ↦ (insert_request raddata reqid nas', raddata)
          ]
        ])
    else (nas, raddata)

abbrev pub is_response : ℕ → Bool
is_response msgtype =
    (msgtype == Code.access_accept)
    || ((msgtype == Code.access_reject)
        || ((msgtype == Code.access_challenge) || (msgtype == Code.account_response)))

-- the request type that a response answers
abbrev pub answered : ℕ → ℕ
answered msgtype =
    if msgtype == Code.account_response then Code.account_request else Code.access_request

-- `address` is what malloc gives to an orphan
unfoldable pub find_matching_request : ℕ → RadiusNas → RadiusParsed → RadiusNas × RadiusParsed
unfolding hash_find hash_delete change_users create_orphan
find_matching_request address nas raddata =
    let reqid = derive_request_id raddata (answered raddata.msgtype) in
    if is_response raddata.msgtype
    then elim (hash_find (has_reqid reqid) nas.request_map) [
      | none ↦ (record nas { orphaned = create_orphan address nas.orphaned raddata reqid }, raddata)
      | some req ↦ (
        record nas {
          request_map = hash_delete (has_reqid reqid) nas.request_map;
          user_map = change_users req.targetusers (forget_request reqid) nas.user_map;
        },
        record raddata {
          savedreq = some req;
          accttype = req.statustype;
          acctsess = req.acctsess;
          matchedusers = req.targetusers;
        },
      )
    ]
    else (nas, raddata)
