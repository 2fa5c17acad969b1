-- ===== src/Radius/Users.antt =====
-- Whose packet it is: the user identities of a request, and radius_get_userid. `none` is an access through
-- a NULL pointer or behind the four places of `matchedusers`.
pub mod Places
use https_github_com_open_li.Prelude.{
  ℕ, suc, Bool, true, false, ◌&&◌, ◌||◌, Option, none, some, List, [], ◌∷◌, ◌++◌, if◌then◌else◌,
  ◌==◌, ltb, take, length,
}
use https_github_com_open_li.Uthash.{bytes_eq, hash_find, hash_add}
use https_github_com_open_li.Radius.{
  Attribute, RadiusUser, IdMethod, radius_username, radius_csid, RadiusNas, RadiusParsed,
  user_ident_max, is_request,
}
use https_github_com_open_li.Radius.Attr
use https_github_com_open_li.Radius.Sessions.{c_string, and_then, is_nil}
use https_github_com_open_li.Radius.Requests.{has_userid, change_user, find_matching_request}

-- "raduser-" and "radcsid-"
abbrev pub raduser : List ℕ
raduser = b'r' ∷ b'a' ∷ b'd' ∷ b'u' ∷ b's' ∷ b'e' ∷ b'r' ∷ b'-' ∷ []

abbrev pub radcsid : List ℕ
radcsid = b'r' ∷ b'a' ∷ b'd' ∷ b'c' ∷ b's' ∷ b'i' ∷ b'd' ∷ b'-' ∷ []

abbrev pub prefix_of : IdMethod → List ℕ
prefix_of radius_username = raduser
prefix_of radius_csid = radcsid

-- the key of a user, a string
abbrev pub userkey : IdMethod → Attribute → List ℕ
userkey method a = c_string (prefix_of method ++ take a.att_len a.att_val)

abbrev pub new_user : IdMethod → List ℕ → RadiusUser
new_user method key = record {
  idmethod = method;
  userid = key;
  nasidentifier = none;
  sessions = [];
  savedrequests = [];
}

-- JSLG, and JSLI if there is no such user
pub known_user : IdMethod → List ℕ → List RadiusUser → List RadiusUser
unfolding has_userid
known_user method key users = elim (hash_find (has_userid key) users) [
  | some _ ↦ users
  | none ↦ hash_add (new_user method key) users
]

abbrev pub Matched : Type 0
Matched = RadiusNas × RadiusParsed

-- the place behind the users that the message has
pub add_user_identity : IdMethod → Attribute → RadiusNas → RadiusParsed → Option Matched
unfolding known_user
add_user_identity method a nas m =
    if ltb (length m.matchedusers) user_ident_max
    then some (
      record nas { user_map = known_user method (userkey method a) nas.user_map },
      record m { matchedusers = m.matchedusers ++ some (userkey method a) ∷ [] },
    )
    else none

-- the identity that an attribute is
abbrev pub identity_of : Attribute → Option IdMethod
identity_of a =
    if a.att_type == Attr.username
    then some radius_username
    else if a.att_type == Attr.calling_station_id
    then some radius_csid
    else none

pub process_attribute : Option IdMethod → Attribute → RadiusNas → RadiusParsed → Option Matched
unfolding add_user_identity
process_attribute none a nas m = some (nas, m)
process_attribute (some method) a nas m = add_user_identity method a nas m

-- the loop
pub process_users : List Attribute → RadiusNas → RadiusParsed → Option Matched
unfolding process_attribute
process_users [] nas m = some (nas, m)
process_users (a ∷ attrs) nas m =
    and_then (process_attribute (identity_of a) a nas m) (λ r. process_users attrs r.0 r.1)

abbrev pub has_username : List Attribute → Bool
has_username [] = false
has_username (a ∷ attrs) = (a.att_type == Attr.username) || has_username attrs

-- the value returned is -1 for a request without a user name
pub process_username_attribute : RadiusNas → RadiusParsed → Option (Bool × Matched)
unfolding process_users
process_username_attribute nas m =
    if is_request m.msgtype
    then and_then (process_users m.attrs nas m) (λ r. some (has_username m.attrs, r))
    else some (true, (nas, m))

-- the first NAS-Identifier
abbrev pub find_nasid : List Attribute → Option Attribute
find_nasid [] = none
find_nasid (a ∷ attrs) =
    let rest = find_nasid attrs in if a.att_type == Attr.nasidentifier then some a else rest

-- an identifier that is the same string stays
abbrev pub with_nasid : List ℕ → RadiusUser → RadiusUser
with_nasid nasid u = elim u.nasidentifier [
  | none ↦ record u { nasidentifier = some nasid }
  | some old ↦
      if bytes_eq (c_string nasid) (c_string old)
      then u
      else record u { nasidentifier = some nasid }
]

pub set_nasids : List ℕ → List (Option (List ℕ)) → List RadiusUser → Option (List RadiusUser)
unfolding change_user
set_nasids nasid [] users = some users
set_nasids nasid (none ∷ targets) users = none
set_nasids nasid (some key ∷ targets) users =
    set_nasids nasid targets (change_user key (with_nasid nasid) users)

pub process_nasid_attribute : RadiusNas → RadiusParsed → Option RadiusNas
unfolding set_nasids
process_nasid_attribute nas m = elim (find_nasid m.attrs) [
  | none ↦ some nas
  | some a ↦
      and_then (set_nasids (take a.att_len a.att_val) m.matchedusers nas.user_map)
        (λ users. some (record nas { user_map = users }))
]

-- user_identity_t: the id without its prefix, and the user
pub record UserIdentity : Type 0 where
  pub idstr : List ℕ
  pub plugindata : List ℕ

-- strchr, and what is behind; a string without '-' stays
abbrev pub behind_dash : List ℕ → Option (List ℕ)
behind_dash [] = none
behind_dash (c ∷ cs) = let rest = behind_dash cs in if c == b'-' then some cs else rest

abbrev pub stripped : List ℕ → List ℕ
stripped s = elim (behind_dash s) [ none ↦ s | some t ↦ t ]

abbrev pub identities : List (Option (List ℕ)) → List UserIdentity
identities [] = []
identities (none ∷ targets) = identities targets
identities (some key ∷ targets) =
    record { idstr = stripped key; plugindata = key } ∷ identities targets

-- from the test of `muser_count` behind the matching on
pub identified : RadiusNas → RadiusParsed → Option (Matched × List UserIdentity)
unfolding process_nasid_attribute
identified nas m =
    if is_nil m.matchedusers
    then some ((nas, m), [])
    else and_then (process_nasid_attribute nas m)
        (λ nas'. some ((nas', m), identities m.matchedusers))

-- `[]` is NULL; `address` is what malloc gives to an orphan
pub radius_get_userid : ℕ → RadiusNas → RadiusParsed → Option (Matched × List UserIdentity)
unfolding process_username_attribute identified find_matching_request
radius_get_userid address nas m =
    let named : Option (Bool × Matched) =
      if is_nil m.matchedusers then process_username_attribute nas m else some (true, (nas, m)) in
    and_then named λ r.
      if r.0
      then (if is_request r.1.1.msgtype
          then identified r.1.0 r.1.1
          else (let found = find_matching_request address r.1.0 r.1.1 in
              identified found.0 found.1))
      else some ((r.1.0, record r.1.1 { matchedusers = [] }), [])
