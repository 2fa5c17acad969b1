-- ===== src/Radius/Servers.antt =====
-- The RADIUS servers and NASes that are known, update_known_servers, with sockaddr_to_key of util.c. A key
-- of the maps, which are JudySL arrays, ends at its first NUL.
use https_github_com_open_li.Prelude.{
  ℕ, Bool, ◌||◌, Option, none, some, List, [], ◌∷◌, if◌then◌else◌, ◌==◌,
}
use https_github_com_open_li.Uthash.{bytes_eq, hash_find, hash_add}
use https_github_com_open_li.AccessSession.{af_inet, af_inet6}
use https_github_com_open_li.Radius.{RadiusNas}
use https_github_com_open_li.Radius.Sessions.{c_string}

-- struct sockaddr: the family and the bytes of the address
pub record SockAddr : Type 0 where
  pub family : ℕ
  pub addr : List ℕ

pub sockaddr_to_key : SockAddr → Option (List ℕ)
sockaddr_to_key sa =
    if (sa.family == af_inet) || (sa.family == af_inet6) then some sa.addr else none

-- a NAS under its key
pub record NasEntry : Type 0 where
  pub naskey : List ℕ
  pub nas : RadiusNas

-- radius_server_t under its key
pub record RadiusServer : Type 0 where
  pub servkey : List ℕ
  pub nas_map : List NasEntry

abbrev pub new_nas : RadiusNas
new_nas = record {
  user_map = [];
  request_map = [];
  orphaned = record { orphans = []; orphans_tail = none };
}

pub has_naskey : List ℕ → NasEntry → Bool
has_naskey k e = bytes_eq e.naskey k

pub has_servkey : List ℕ → RadiusServer → Bool
has_servkey k s = bytes_eq s.servkey k

-- JSLG, and JSLI of a new NAS
pub known_nas : List ℕ → List NasEntry → List NasEntry
unfolding has_naskey hash_find
known_nas k l = elim (hash_find (has_naskey k) l) [
  | some _ ↦ l
  | none ↦ hash_add (record { naskey = k; nas = new_nas }) l
]

pub known_server : List ℕ → List ℕ → List RadiusServer → List RadiusServer
unfolding has_servkey known_nas
known_server k naskey [] = record { servkey = k; nas_map = known_nas naskey [] } ∷ []
known_server k naskey (s ∷ ss) =
    if has_servkey k s
    then record s { nas_map = known_nas naskey s.nas_map } ∷ ss
    else s ∷ known_server k naskey ss

-- The map, and the keys of the server and the NAS that the packet matches. The second key is taken from the
-- address of the server again.
pub update_known_servers :
    List RadiusServer → SockAddr → SockAddr → List RadiusServer × Option (List ℕ × List ℕ)
unfolding sockaddr_to_key known_server
update_known_servers server_map radiusip nasip = elim (sockaddr_to_key radiusip) [
  | none ↦ (server_map, none)
  | some sockkey ↦
      let hashkey = c_string sockkey in
      (known_server hashkey hashkey server_map, some (hashkey, hashkey))
]
