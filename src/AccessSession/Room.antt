-- ===== src/AccessSession/Room.antt =====
-- The array of addresses is large enough for the next one.
use https_github_com_open_li.Prelude.{
  ℕ, ◌+◌, ◌-◌, ◌%◌, ◌≤◌, ◌<◌, ◌≡◌, some, List, length, take, min, arith, length-append, length-take,
  length-replicate, length-set, replicate,
}
use https_github_com_open_li.Prelude.Int.{ℤ, pos, negsuc}
use https_github_com_open_li.AccessSession.{
  SessionIp, AccessSession, IpVersion, session_ip_incr, v6_bytes, realloc_ips, grown, store_ip,
  create_access_session, add_new_session_ip,
}

-- The array has room for the next address, or is about to grow.
pub record IsRoomy (sess : AccessSession) : Type 0 where
  pub byte : sess.sessipcount < 256
  pub whole : length sess.sessionips % 5 ≡ 0
  pub some_room : 0 < length sess.sessionips
  pub inside : sess.sessipcount ≤ length sess.sessionips

pub length-realloc_ips :
    (junk : SessionIp) (n : ℕ) (ips : List SessionIp) → length (realloc_ips junk n ips) ≡ n
length-realloc_ips junk n ips = omega (
  arith,
  length-append (take n ips) (replicate (n - length ips) junk),
  length-take n ips,
  length-replicate (n - length ips) junk,
)

pub grown-room :
    (junk : SessionIp) (sess : AccessSession)
    → IsRoomy sess
    → (sess.sessipcount < length (grown junk sess)) × (length (grown junk sess) % 5 ≡ 0)
unfolding grown
grown-room junk sess r =
    ground (arith, length-realloc_ips junk (sess.sessipcount + session_ip_incr) sess.sessionips)

pub store_ip-IsRoomy :
    (ips : List SessionIp) (version : IpVersion) (ip : SessionIp) (sess : AccessSession)
    → sess.sessipcount < length ips
    → length ips % 5 ≡ 0
    → IsRoomy (store_ip ips version ip sess)
store_ip-IsRoomy ips version ip sess h w = ground (arith, length-set ips sess.sessipcount ip)

-- a new session
pub create_access_session-IsRoomy : (id : List ℕ) → IsRoomy (create_access_session id)
unfolding create_access_session
create_access_session-IsRoomy id = omega arith

-- Whatever is added, and also when the byte that counts the addresses wraps, the place that is written is
-- inside the array, which is left with room for the next address or is about to grow.
pub add_new_session_ip-IsRoomy :
    (junk : SessionIp) (sess : AccessSession) (att_val : List ℕ) (family pfxbits : ℕ) (att_len : ℤ)
    {sess' : AccessSession}
    → IsRoomy sess
    → add_new_session_ip junk sess att_val family pfxbits att_len ≡ some sess'
    → (sess.sessipcount < length (grown junk sess)) × IsRoomy sess'
unfolding add_new_session_ip
add_new_session_ip-IsRoomy junk sess att_val family pfxbits (pos n) r h = ground (
  arith,
  grown-room junk sess r,
  length-set (grown junk sess) sess.sessipcount
      (record { ipfamily = family; assignedip = take 4 att_val; prefixbits = pfxbits }),
  length-set (grown junk sess) sess.sessipcount (record {
    ipfamily = family;
    assignedip = v6_bytes (min n 16) att_val;
    prefixbits = pfxbits;
  }),
)
add_new_session_ip-IsRoomy junk sess att_val family pfxbits (negsuc n) r h =
    ground (arith, grown-room junk sess r)
