-- ===== src/Gtp/Tests.antt =====
-- A session over its exchanges, and the elements of a packet.
use https_github_com_open_li.Prelude.{
  Bool, none, ℕ, ◌≡◌, refl, false, some, List, [], ◌∷◌, arith, done,
}
use https_github_com_open_li.AccessSession.{cleared, new, create_access_session}
use https_github_com_open_li.Gtp.{InfoElem, GtpParsed}
use https_github_com_open_li.Gtp.Numbers.{get_gtpnum_from_ie}
use https_github_com_open_li.Gtp.Numbers.Digits.{bcd, text, get_gtpnum_from_ie-bcd}
use https_github_com_open_li.Gtp.Elements.{walk_gtpv2_ies, with_gtpv2}
use https_github_com_open_li.Gtp.Elements.Walk.{encode, with_all, walk_gtpv2_ies-encode}
use https_github_com_open_li.Gtp.Ie.{length_in}
use https_github_com_open_li.Gtp.TvElements.{walk_gtpv1_ies}
use https_github_com_open_li.Gtp.TvElements.Walk as TvWalk
use https_github_com_open_li.Gtp.TvElements.Walk.{walk_gtpv1_ies-encode}
use https_github_com_open_li.Radius.Iri.{iri_begin, iri_end}
use https_github_com_open_li.Radius.Iri.Brackets.{follow}
use https_github_com_open_li.Gtp.Sessions.Records.{Table, AllMatched, gtp_records}
use https_github_com_open_li.Gtp.Sessions.Life.{gtp_records-follow}
use https_github_com_open_li.Gtp.Sessions.{SavedPkt, GtpSession, gtp_update_session_state}
use https_github_com_open_li.Gtp.Sessions.Orders.{in_order, gtp_update_session_state-orders}

abbrev number : List ℕ
number = 6 ∷ 4 ∷ 2 ∷ 1 ∷ 5 ∷ []

abbrev msisdn : InfoElem
msisdn = record { ietype = 134; ielength = 4; ieflags = 0; iecontent = 145 ∷ bcd number }

get_gtpnum_from_ie-bcd_example : get_gtpnum_from_ie msisdn 1 ≡ some (text number)
get_gtpnum_from_ie-bcd_example =
    get_gtpnum_from_ie-bcd msisdn (145 ∷ []) number
      (omega arith, (omega arith, (omega arith, (omega arith, (omega arith, tt))))) refl

abbrev packet : GtpParsed
packet = record {
  version = 2;
  msgtype = 32;
  teid = 0;
  teid_ctl = 0;
  response_cause = 0;
  imsi = [];
  msisdn = [];
  ies = [];
}

abbrev fteid : InfoElem
fteid = record { ietype = 87; ielength = 5; ieflags = 0; iecontent = 134 ∷ 0 ∷ 0 ∷ 1 ∷ 2 ∷ [] }

abbrev recovery : InfoElem
recovery = record { ietype = 3; ielength = 1; ieflags = 0; iecontent = 9 ∷ [] }

walk_gtpv2_ies-encode_example :
    walk_gtpv2_ies 20 packet (encode (recovery ∷ fteid ∷ []) (1 ∷ 2 ∷ 3 ∷ [])) 0 14
    ≡ with_all (recovery ∷ fteid ∷ []) packet
walk_gtpv2_ies-encode_example =
    walk_gtpv2_ies-encode (recovery ∷ fteid ∷ []) (1 ∷ 2 ∷ 3 ∷ []) 20 0 packet
      (refl, omega arith, (refl, omega arith, tt)) (omega arith) (omega arith)

fteid_taken :
    with_all (recovery ∷ fteid ∷ []) packet ≡ done (record packet { teid = 258; ies = fteid ∷ [] })
unfolding with_gtpv2
fteid_taken = refl

abbrev cause : InfoElem
cause = record { ietype = 1; ielength = 1; ieflags = 0; iecontent = 128 ∷ [] }

abbrev apname : InfoElem
apname = record { ietype = 131; ielength = 2; ieflags = 0; iecontent = 97 ∷ 98 ∷ [] }

walk_gtpv1_ies-encode_example :
    walk_gtpv1_ies 20
      (record packet { version = 1 })
      (TvWalk.encode (cause ∷ apname ∷ []) (0 ∷ []))
      0
      7
    ≡ TvWalk.with_all (cause ∷ apname ∷ []) (record packet { version = 1 })
unfolding length_in
walk_gtpv1_ies-encode_example =
    walk_gtpv1_ies-encode (cause ∷ apname ∷ []) (0 ∷ []) 20 0 (record packet { version = 1 })
      (refl, omega arith, refl, refl, (refl, omega arith, refl, refl, tt)) (omega arith)
      (omega arith) (omega arith)

abbrev request : SavedPkt
request = record { version = 2; type = 32; applied = false; response_cause = 0; ies = [] }

abbrev response : SavedPkt
response = record {
  version = 2;
  type = 33;
  applied = false;
  response_cause = 16;
  ies = record { ietype = 79; ielength = 5; ieflags = 0; iecontent = 1 ∷ 10 ∷ 0 ∷ 0 ∷ 7 ∷ [] } ∷ [];
}

abbrev session : GtpSession
session = record { current = new; sess = create_access_session (115 ∷ []) }

gtp_update_session_state-orders_example :
    in_order cleared session request response ≡ in_order cleared session response request
gtp_update_session_state-orders_example =
    gtp_update_session_state-orders cleared session request response refl refl refl

-- what is needed of the address of the response
abbrev exchange : List (ℕ × SavedPkt)
exchange =
    (1, request)
    ∷ (1, response)
    ∷ (2, record request { type = 36 })
    ∷ (2, record response { type = 37 })
    ∷ []

abbrev no_packets : Table
no_packets _ = none

exchange-AllMatched : AllMatched cleared no_packets session exchange
unfolding gtp_update_session_state create_access_session
exchange-AllMatched = (refl, (refl, (refl, (refl, tt))))

gtp_records-follow_example :
    (inside : Bool) × (follow false (gtp_records cleared no_packets session exchange) ≡ some inside)
gtp_records-follow_example =
    gtp_records-follow cleared no_packets session exchange exchange-AllMatched

exchange_records : gtp_records cleared no_packets session exchange ≡ iri_begin ∷ iri_end ∷ []
unfolding gtp_records
exchange_records = refl
