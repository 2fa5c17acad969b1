-- ===== src/Radius.antt =====
-- RADIUS sessions, collector/accessplugins/radius.c: the data of the plugin. Linked lists are lists in
-- the order of the links, and a byte string is the list of its bytes. Times, doubles of seconds in the
-- source, are numbers of microseconds.
pub mod Code
pub mod Attr
pub mod Acct
pub mod Fsm
pub mod Orphans
pub mod Attributes
pub mod Users
pub mod Requests
pub mod Sessions
pub mod Iri
pub mod Update
pub mod Servers
pub mod Collector
mod Tests
use https_github_com_open_li.Prelude.{ℕ, ◌+◌, ◌*◌, ◌%◌, Bool, ◌||◌, Option, List, ◌==◌}
use https_github_com_open_li.AccessSession.{SessionState, AccessAction}
use https_github_com_open_li.Radius.Code

abbrev pub user_ident_max : ℕ
user_ident_max = 4

abbrev pub orphan_expiry : ℕ
orphan_expiry = 1000000

-- radius_attribute_t; the value is the whole buffer, of which the first `att_len` bytes are the attribute's
pub record Attribute : Type 0 where
  pub att_type : ℕ
  pub att_len : ℕ
  pub att_val : List ℕ

-- user_identity_method_t, of the two that RADIUS has
pub data IdMethod : Type 0 where
  radius_username radius_csid : IdMethod

-- radius_user_session_t
pub record UserSession : Type 0 where
  pub session_id : ℕ
  pub current : SessionState
  pub nas_port : ℕ
  pub octets_received : ℕ
  pub octets_sent : ℕ
  pub nasidentifier : Option (List ℕ)
  pub nas_ip : Option (List ℕ)

-- radius_user_t; the Judy arrays are the list of their items and of their keys
pub record RadiusUser : Type 0 where
  pub idmethod : IdMethod
  pub userid : List ℕ
  pub nasidentifier : Option (List ℕ)
  pub sessions : List UserSession
  pub savedrequests : List ℕ

-- radius_saved_req_t; a user is named by its `userid`, `none` is a user that was destroyed
pub record SavedReq : Type 0 where
  pub reqid : ℕ
  pub statustype : ℕ
  pub acctsess : ℕ
  pub tvsec : ℕ
  pub attrs : List Attribute
  pub targetusers : List (Option (List ℕ))
  pub active_targets : ℕ

-- radius_orphaned_resp_t, with the address that malloc gave it
pub record OrphanedResp : Type 0 where
  pub address : ℕ
  pub resptype : ℕ
  pub key : ℕ
  pub tvsec : ℕ
  pub savedattrs : List Attribute

-- the orphans of a NAS: the list from `orphans` on, and the address that `orphans_tail` has
pub record OrphanList : Type 0 where
  pub orphans : List OrphanedResp
  pub orphans_tail : Option ℕ

-- radius_nas_t
pub record RadiusNas : Type 0 where
  pub user_map : List RadiusUser
  pub request_map : List SavedReq
  pub orphaned : OrphanList

-- radius_parsed_t; `muser_count` is the length of `matchedusers`
pub record RadiusParsed : Type 0 where
  pub msgtype : ℕ
  pub msgident : ℕ
  pub sourceport : ℕ
  pub accttype : ℕ
  pub acctsess : ℕ
  pub tvsec : ℕ
  pub authenticator : List ℕ
  pub attrs : List Attribute
  pub matchedusers : List (Option (List ℕ))
  pub savedreq : Option SavedReq
  pub savedresp : Option OrphanedResp
  pub firstaction : AccessAction
  pub secondaction : AccessAction
  pub firstattrs : List Attribute
  pub secondattrs : List Attribute

-- DERIVE_REQUEST_ID, in 32 bits
abbrev pub derive_request_id : RadiusParsed → ℕ → ℕ
derive_request_id rad reqtype =
    (rad.msgident * 65536 + rad.sourceport + reqtype * 16777216) % 4294967296

abbrev pub is_request : ℕ → Bool
is_request msgtype = (msgtype == Code.access_request) || (msgtype == Code.account_request)
