-- ===== src/AccessSession/Tests.antt =====
-- A session with an IPv4 address gets an IPv6 prefix, and loses the first.
use https_github_com_open_li.Prelude.{
  ℕ, ◌<◌, ◌≡◌, refl, some, List, [], ◌∷◌, inl, length, drop, replicate, arith,
}
use https_github_com_open_li.Prelude.Int.{pos}
use https_github_com_open_li.AccessSession.{
  SessionIp, AccessSession, cleared, ip_v4, ip_dual, grown, create_access_session,
  add_new_session_ip, remove_session_ip,
}
use https_github_com_open_li.AccessSession.Room.{IsRoomy, add_new_session_ip-IsRoomy}
use https_github_com_open_li.AccessSession.Addresses.{
  IsExtended, addresses, accepted, add_new_session_ip-IsExtended,
}
use https_github_com_open_li.AccessSession.Removal.{
  live, without, is_empty, remove_session_ip-without,
}

abbrev address : SessionIp
address = record { ipfamily = 2; assignedip = 10 ∷ 0 ∷ 0 ∷ 1 ∷ []; prefixbits = 32 }

abbrev prefix : List ℕ
prefix = 32 ∷ 1 ∷ 13 ∷ 184 ∷ replicate 60 0

abbrev session : AccessSession
session = record (create_access_session (97 ∷ [])) {
  sessionips = address ∷ replicate 4 cleared;
  sessipcount = 1;
  sessipversion = ip_v4;
}

abbrev both : AccessSession
both = record session {
  sessionips =
      address
      ∷ record { ipfamily = 10; assignedip = 32 ∷ 1 ∷ replicate 14 0; prefixbits = 32 }
      ∷ replicate 3 cleared;
  sessipcount = 2;
  sessipversion = ip_dual;
}

session-IsRoomy : IsRoomy session
session-IsRoomy = omega arith

both-added : add_new_session_ip cleared session prefix 10 32 (pos 2) ≡ some both
unfolding add_new_session_ip create_access_session grown
both-added = refl

add_new_session_ip-IsRoomy_example : (1 < length (grown cleared session)) × IsRoomy both
add_new_session_ip-IsRoomy_example =
    add_new_session_ip-IsRoomy cleared session prefix 10 32 (pos 2) session-IsRoomy both-added

add_new_session_ip-IsExtended_example : IsExtended session (accepted prefix 10 32 (pos 2)) both
add_new_session_ip-IsExtended_example =
    add_new_session_ip-IsExtended cleared session session-IsRoomy (omega arith) refl prefix 10 32
      (pos 2) both-added

remove_session_ip-without_example :
    let (last, sess') = remove_session_ip both address in
    (live (addresses sess') ≡ without address (live (addresses both)))
    × (last ≡ is_empty (live (addresses sess')))
    × (sess'.sessipcount ≡ 2)
    × (drop 2 sess'.sessionips ≡ drop 2 both.sessionips)
remove_session_ip-without_example = remove_session_ip-without both address (inl refl) (omega arith)
