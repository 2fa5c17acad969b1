-- ===== src/AccessSession.antt =====
-- The sessions of users whose internet access is followed, collector/internetaccess.c, with the
-- enumerations of collector/internetaccess.h. An address is the list of its bytes. Arrays are lists of
-- the length allocated; realloc is taken to succeed, and `junk` is what new memory holds.
pub mod Room
pub mod Addresses
pub mod Removal
mod Tests
use https_github_com_open_li.Prelude.{
  ℕ, zero, suc, ◌+◌, ◌-◌, ◌%◌, Bool, true, false, ◌&&◌, Option, none, some, List, [], ◌∷◌, ◌++◌,
  if◌then◌else◌, ltb, ◌==◌, length, take, replicate, get_or, set, min,
}
use https_github_com_open_li.Prelude.Int.{ℤ, pos, negsuc}
use https_github_com_open_li.Uthash.{bytes_eq}

abbrev pub session_ip_incr : ℕ
session_ip_incr = 5

abbrev pub af_inet : ℕ
af_inet = 2

abbrev pub af_inet6 : ℕ
af_inet6 = 10

-- session_state_t
pub data SessionState : Type 0 where
  new authing active active_no_ip renew ending over : SessionState

-- access_action_t; `no_action` is ACCESS_ACTION_NONE
pub data AccessAction : Type 0 where
  attempt failed accept reject already_active interim_update modified end end_sudden retry
        no_action :
      AccessAction

-- session_ipversion_t
pub data IpVersion : Type 0 where
  ip_none ip_v4 ip_v6 ip_dual : IpVersion

-- internetaccess_ip_t
pub record SessionIp : Type 0 where
  pub ipfamily : ℕ
  pub assignedip : List ℕ
  pub prefixbits : ℕ

-- struct access_session; `statedata` names the session of the plugin by its number
pub record AccessSession : Type 0 where
  pub sessionips : List SessionIp
  pub sessipcount : ℕ
  pub sessipversion : IpVersion
  pub sessionid : List ℕ
  pub cin : ℕ
  pub statedata : Option ℕ
  pub started : ℕ

abbrev pub cleared : SessionIp
cleared = record { ipfamily = 0; assignedip = []; prefixbits = 0 }

unfoldable pub create_access_session : List ℕ → AccessSession
create_access_session sessid = record {
  sessionips = replicate session_ip_incr cleared;
  sessipcount = 0;
  sessipversion = ip_none;
  sessionid = sessid;
  cin = 0;
  statedata = none;
  started = 0;
}

-- realloc to n items
abbrev pub realloc_ips : SessionIp → ℕ → List SessionIp → List SessionIp
realloc_ips junk n ips = take n ips ++ replicate (n - length ips) junk

-- the array before an address is written
pub grown : SessionIp → AccessSession → List SessionIp
grown junk sess =
    if ltb 0 sess.sessipcount && (sess.sessipcount % session_ip_incr == 0)
    then realloc_ips junk (sess.sessipcount + session_ip_incr) sess.sessionips
    else sess.sessionips

abbrev pub with_v4 : IpVersion → IpVersion
with_v4 ip_none = ip_v4
with_v4 ip_v6 = ip_dual
with_v4 v = v

abbrev pub with_v6 : IpVersion → IpVersion
with_v6 ip_none = ip_v6
with_v6 ip_v4 = ip_dual
with_v6 v = v

-- `n` bytes of a value in an address of 16
abbrev pub v6_bytes : ℕ → List ℕ → List ℕ
v6_bytes n att_val = take n att_val ++ replicate (16 - n) 0

-- the value `ind` is an int, the counter a byte
abbrev pub store_ip : List SessionIp → IpVersion → SessionIp → AccessSession → AccessSession
store_ip ips version ip sess = record sess {
  sessionips = set ips sess.sessipcount ip;
  sessipcount = (sess.sessipcount + 1) % 256;
  sessipversion = version;
}

-- a length for an IPv4 address
abbrev pub is_four : ℤ → Bool
is_four (pos n) = n == 4
is_four (negsuc _) = false

-- `none` is a memcpy of a negative length, which as a size_t is larger than any object
unfoldable pub add_new_session_ip :
    SessionIp → AccessSession → List ℕ → ℕ → ℕ → ℤ → Option AccessSession
unfolding grown
add_new_session_ip junk sess att_val family pfxbits att_len =
    let ips = grown junk sess in
    if family == af_inet
    then (if is_four att_len
        then some (
            store_ip ips (with_v4 sess.sessipversion)
              (record { ipfamily = family; assignedip = take 4 att_val; prefixbits = pfxbits })
              sess)
        else some (record sess { sessionips = ips }))
    else if family == af_inet6
    then elim att_len [
      | pos n ↦ some (
          store_ip ips (with_v6 sess.sessipversion)
            (record {
              ipfamily = family;
              assignedip = v6_bytes (min n 16) att_val;
              prefixbits = pfxbits;
            })
            sess)
      | negsuc _ ↦ none
    ]
    else some (record sess { sessionips = ips })

-- the test on an entry whose family is not 0
abbrev pub same_ip : SessionIp → SessionIp → Bool
same_ip sessip ip =
    (ip.ipfamily == sessip.ipfamily)
    && ((ip.prefixbits == sessip.prefixbits)
        && (if sessip.ipfamily == af_inet
            then bytes_eq ip.assignedip sessip.assignedip
            else if sessip.ipfamily == af_inet6
            then bytes_eq ip.assignedip sessip.assignedip
            else false))

-- the loop over the first n entries: the entries behind it and the number without an address
pub clear_ips : SessionIp → ℕ → List SessionIp → List SessionIp × ℕ
clear_ips sessip zero ips = (ips, 0)
clear_ips sessip (suc n) [] = ([], 0)
clear_ips sessip (suc n) (ip ∷ ips) =
    let (rest, nullips) = clear_ips sessip n ips in
    if ip.ipfamily == 0
    then (ip ∷ rest, nullips + 1)
    else if same_ip sessip ip
    then (record ip { ipfamily = 0 } ∷ rest, nullips + 1)
    else (ip ∷ rest, nullips)

-- 1 is true: no address is left
pub remove_session_ip : AccessSession → SessionIp → Bool × AccessSession
unfolding clear_ips
remove_session_ip sess sessip =
    let (ips, nullips) = clear_ips sessip sess.sessipcount sess.sessionips in
    (nullips == sess.sessipcount, record sess { sessionips = ips })
