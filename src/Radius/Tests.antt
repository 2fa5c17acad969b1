-- ===== src/Radius/Tests.antt =====
-- One user's session over a network access server: a start, its response out of order, and an end.
use https_github_com_open_li.Prelude.{
  ℕ, ◌+◌, ◌*◌, ◌≡◌, refl, Bool, true, false, none, some, List, [], ◌∷◌, ◌++◌, map, replicate, arith,
  done,
}
use https_github_com_open_li.Uthash.{hash_find, hash_delete}
use https_github_com_open_li.AccessSession.{authing, active, cleared, create_access_session}
use https_github_com_open_li.Radius.{
  Attribute, RadiusUser, radius_username, SavedReq, OrphanList, RadiusNas, RadiusParsed,
}
use https_github_com_open_li.Radius.Acct
use https_github_com_open_li.Radius.Fsm.{is_unstarted}
use https_github_com_open_li.Radius.Fsm.Exchanges.{exchange, exchange_lem}
use https_github_com_open_li.Radius.Orphans.{peel, new_orphan, create_orphan, search_orphans}
use https_github_com_open_li.Radius.Orphans.Queue.{IsQueue}
use https_github_com_open_li.Radius.Orphans.Search.{
  has_key, search_orphans-IsQueue, search_orphans-create_orphan,
}
use https_github_com_open_li.Radius.Attributes.{parse_attributes, reset_parsed_packet}
use https_github_com_open_li.Radius.Attributes.Wire.{encode, wire, onto, parse_attributes-encode}
use https_github_com_open_li.Radius.Users.{process_users}
use https_github_com_open_li.Radius.Users.Places.{keys_of, Placed, process_users-Placed}
use https_github_com_open_li.Radius.Requests.{
  has_userid, new_request, save_request, find_matching_request,
}
use https_github_com_open_li.Radius.Requests.Matching.{
  with_request, find_matching_request-save_request,
}
use https_github_com_open_li.Radius.Sessions.Sound.{IsSound}
use https_github_com_open_li.Radius.Iri.{Iri}
use https_github_com_open_li.Radius.Iri.Brackets.{follow}
use https_github_com_open_li.Radius.Collector.{session_records}
use https_github_com_open_li.Radius.Collector.Life.{session_records-follow}
use https_github_com_open_li.Radius.Update.{Updated, new_user_session, radius_update_session_state}
use https_github_com_open_li.Radius.Update.UserSessions.{session_of}
use https_github_com_open_li.Radius.Update.Isolation.{radius_update_session_state-isolated}

exchange_lem_example :
    (exchange Acct.start authing ≡ active)
    × (is_unstarted (exchange Acct.stop authing) ≡ true)
    × (exchange Acct.interim authing ≡ authing)
exchange_lem_example = exchange_lem authing tt

-- a user name "bob" with a status type in a buffer that was used before
abbrev attributes : List (ℕ × List ℕ)
attributes = (1, b'b' ∷ b'o' ∷ b'b' ∷ []) ∷ (40, 0 ∷ 0 ∷ 0 ∷ 1 ∷ []) ∷ (99, 7 ∷ []) ∷ []

parse_attributes-encode_example :
    (r : RadiusParsed × List (List ℕ)) × (parse_attributes 20
        (replicate 64 9 ∷ [])
        reset_parsed_packet
        (encode attributes ++ 0 ∷ [])
      ≡ done r)
    × (wire r.0.attrs ≡ onto attributes [])
parse_attributes-encode_example =
    parse_attributes-encode attributes (0 ∷ []) 20 (replicate 64 9 ∷ []) reset_parsed_packet
      (omega arith) (omega arith) (omega arith)

abbrev bob : Attribute
bob = record { att_type = 1; att_len = 3; att_val = b'b' ∷ b'o' ∷ b'b' ∷ [] }

abbrev no_nas : RadiusNas
no_nas = record {
  user_map = [];
  request_map = [];
  orphaned = record { orphans = []; orphans_tail = none };
}

-- five user names do not fit
process_users-Placed_example :
    Placed []
      (keys_of (replicate 5 bob))
      (process_users (replicate 5 bob) no_nas reset_parsed_packet)
process_users-Placed_example =
    process_users-Placed (replicate 5 bob) no_nas reset_parsed_packet (omega arith)

abbrev key : List ℕ
key = b'r' ∷ b'-' ∷ b'b' ∷ []

abbrev user : RadiusUser
user = record {
  idmethod = radius_username;
  userid = key;
  nasidentifier = some (b'n' ∷ []);
  sessions = new_user_session 5 ∷ [];
  savedrequests = [];
}

abbrev nas : RadiusNas
nas = record no_nas { user_map = user ∷ [] }

abbrev request : RadiusParsed
request = record reset_parsed_packet {
  msgtype = 4;
  msgident = 17;
  sourceport = 1700;
  accttype = 1;
  acctsess = 9;
  tvsec = 1000;
  attrs = bob ∷ [];
  matchedusers = some key ∷ [];
}

abbrev response : RadiusParsed
response = record reset_parsed_packet { msgtype = 5; msgident = 17; sourceport = 1700; tvsec = 900 }

abbrev request_key : ℕ
request_key = 4 * 16777216 + 17 * 65536 + 1700

find_matching_request-save_request_example :
    (find_matching_request 0 (save_request nas request).0 response).1
    ≡ with_request response (new_request request request_key)
unfolding hash_find search_orphans
find_matching_request-save_request_example =
    find_matching_request-save_request 0 nas request response (omega arith) (omega arith) refl refl
      refl refl refl refl

abbrev waiting : OrphanList
waiting = record {
  orphans = record { address = 8; resptype = 5; key = 3; tvsec = 0; savedattrs = [] } ∷ [];
  orphans_tail = some 8;
}

waiting-IsQueue : IsQueue waiting
waiting-IsQueue = record { tail_last = refl; distinct = (refl, tt) }

search_orphans-IsQueue_example :
    ((search_orphans waiting 3 1000000).0 ≡ hash_find (has_key 3) (peel 1000000 waiting.orphans))
    × ((search_orphans waiting 3 1000000).1.orphans
        ≡ hash_delete (has_key 3) (peel 1000000 waiting.orphans))
    × IsQueue (search_orphans waiting 3 1000000).1
search_orphans-IsQueue_example = search_orphans-IsQueue waiting 3 1000000 waiting-IsQueue

search_orphans-create_orphan_example :
    (search_orphans (create_orphan 9 waiting response request_key) request_key 1000000).0
    ≡ some (new_orphan 9 response request_key)
unfolding hash_find
search_orphans-create_orphan_example =
    search_orphans-create_orphan 9 waiting response request_key 1000000 waiting-IsQueue refl refl
      (omega arith)

abbrev stop_request : SavedReq
stop_request = new_request request request_key

-- a start whose response came first, and the response to a stop
abbrev start : RadiusParsed
start = record request { savedresp = some (new_orphan 9 response request_key) }

abbrev stop : RadiusParsed
stop = record response {
  accttype = 2;
  acctsess = 9;
  savedreq = some stop_request;
  matchedusers = some key ∷ [];
}

start-IsSound : IsSound start
start-IsSound = record {
  fresh = refl;
  orphan_of_request = λ h. cc;
  answers = λ h. absurd (omega arith);
  wide = refl;
  wide_request = refl;
  wide_response = refl;
}

stop-IsSound : IsSound stop
stop-IsSound = record {
  fresh = refl;
  orphan_of_request = λ h. refl;
  answers = λ h. (stop_request, refl);
  wide = refl;
  wide_request = refl;
  wide_response = refl;
}

session_records-follow_example :
    (l : List Iri) × (session_records cleared
        (new_user_session 9)
        (create_access_session key)
        (start ∷ stop ∷ [])
      ≡ done l)
    × ((inside : Bool) × (follow false (map (λ i. i.iritype) l) ≡ some inside))
session_records-follow_example =
    session_records-follow cleared (new_user_session 9) (create_access_session key)
      (start ∷ stop ∷ []) (start-IsSound, (stop-IsSound, tt))

abbrev no_hash : List ℕ → ℕ
no_hash bytes = 0

request-IsSound : IsSound (save_request nas request).1
unfolding save_request search_orphans
request-IsSound = record {
  fresh = refl;
  orphan_of_request = λ h. refl;
  answers = λ h. absurd (omega arith);
  wide = refl;
  wide_request = refl;
  wide_response = refl;
}

radius_update_session_state-isolated_example :
    (r : Updated) × (radius_update_session_state cleared no_hash 0 nas request key []
      ≡ done (some r))
    × (session_of key 9 r.nas.user_map ≡ some r.progress.usess)
    × (session_of key 5 r.nas.user_map ≡ session_of key 5 nas.user_map)
unfolding hash_find has_userid
radius_update_session_state-isolated_example =
    radius_update_session_state-isolated cleared no_hash 0 nas request user (b'n' ∷ []) key key 5 []
      refl refl refl request-IsSound refl
