-- ===== src/Radius/Attributes.antt =====
-- Reading a RADIUS packet: create_new_attribute, interesting_attribute and radius_parse_packet, without the
-- lookup of the server, which is in Radius.Servers. The free list is the list of the attributes' buffers.
pub mod Wire
use https_github_com_open_li.Prelude.{
  ℕ, zero, suc, ◌+◌, ◌-◌, ◌%◌, ◌*◌, Bool, true, false, ◌&&◌, ◌||◌, Option, none, some, List, [],
  ◌∷◌, ◌++◌, if◌then◌else◌, ◌==◌, leb, ltb, take, drop, length, replicate, get_or, Outcome, done,
  aborted, out_of_fuel,
}
use https_github_com_open_li.AccessSession.{no_action}
use https_github_com_open_li.Reassembler.Sip.{is_space, digits}
use https_github_com_open_li.Radius.{Attribute, RadiusParsed}
use https_github_com_open_li.Radius.Code
use https_github_com_open_li.Radius.Attr
use https_github_com_open_li.Radius.Sessions.{be32}

abbrev pub standard_attr_alloc : ℕ
standard_attr_alloc = 64

unfoldable pub interesting_attribute : ℕ → Bool
interesting_attribute t =
    (t == Attr.username)
    || ((t == Attr.acct_status_type)
        || ((t == Attr.nasidentifier)
            || ((t == Attr.nasport)
                || ((t == Attr.framed_ip_address)
                    || ((t == Attr.framed_ipv6_address)
                        || ((t == Attr.framed_ipv6_prefix)
                            || ((t == Attr.acct_inoctets)
                                || ((t == Attr.acct_outoctets)
                                    || ((t == Attr.acct_session_id)
                                        || ((t == Attr.nasip)
                                            || ((t == Attr.called_station_id)
                                                || ((t == Attr.calling_station_id)
                                                    || ((t == Attr.acct_terminate_cause)
                                                        || (t
                                                            == Attr.delegated_ipv6_prefix))))))))))))))

-- the first free buffer, or a new one, and what is left
abbrev pub buffer_of : List (List ℕ) → List ℕ × List (List ℕ)
buffer_of [] = (replicate standard_attr_alloc 0, [])
buffer_of (b ∷ bs) = (b, bs)

-- the value over the front of the buffer, which a longer value has to itself
abbrev pub written : List ℕ → List ℕ → List ℕ
written value buffer =
    if ltb standard_attr_alloc (length value) then value else value ++ drop (length value) buffer

-- for an attribute of `len` bytes with its head, whose value stands in front of `bytes`
unfoldable pub create_new_attribute : List (List ℕ) → ℕ → ℕ → List ℕ → Attribute × List (List ℕ)
create_new_attribute freeattrs type len bytes =
    let (buffer, rest) = buffer_of freeattrs in
    (
      record {
        att_type = type;
        att_len = len - 2;
        att_val = written (take (len - 2) bytes) buffer;
      },
      rest,
    )

-- the number behind white space and a sign, of a 64-bit strtoul, in 32 bits
abbrev pub saturated : ℕ → ℕ
saturated n = if ltb n 18446744073709551616 then n else 18446744073709551615

abbrev pub signed_u32 : List ℕ → ℕ
signed_u32 [] = 0
signed_u32 (c ∷ cs) =
    if c == b'-'
    then (18446744073709551616 - saturated (digits 0 cs)) % 4294967296
    else if c == b'+'
    then saturated (digits 0 cs) % 4294967296
    else saturated (digits 0 (c ∷ cs)) % 4294967296

unfoldable pub session_number : List ℕ → ℕ
unfolding digits is_space
session_number [] = 0
session_number (c ∷ cs) =
    let rest = session_number cs in if is_space c then rest else signed_u32 (c ∷ cs)

-- what a new attribute changes in the message
abbrev pub with_attribute : Attribute → RadiusParsed → RadiusParsed
with_attribute a m =
    let m' : RadiusParsed = record m { attrs = a ∷ m.attrs } in
    if a.att_type == Attr.acct_status_type
    then record m' { accttype = be32 a.att_val }
    else if a.att_type == Attr.acct_session_id
    then record m' {
      acctsess = session_number (take (if ltb 23 a.att_len then 23 else a.att_len) a.att_val);
    }
    else m'

-- one attribute at the front of `ptr`
pub parse_attribute : List (List ℕ) → RadiusParsed → List ℕ → RadiusParsed × List (List ℕ)
unfolding interesting_attribute create_new_attribute session_number
parse_attribute freeattrs m ptr =
    let type = get_or ptr 0 0 in
    let (a, rest) = create_new_attribute freeattrs type (get_or ptr 1 0) (drop 2 ptr) in
    if interesting_attribute type then (with_attribute a m, rest) else (m, freeattrs)

-- the loop over the attributes, on fuel; `rem` is the length of `ptr`
pub parse_attributes :
    ℕ → List (List ℕ) → RadiusParsed → List ℕ → Outcome (RadiusParsed × List (List ℕ))
unfolding parse_attribute
parse_attributes zero freeattrs m ptr = out_of_fuel
parse_attributes (suc fuel) freeattrs m ptr =
    let att_len = get_or ptr 1 0 in
    let (m', freeattrs') = parse_attribute freeattrs m ptr in
    let rest = parse_attributes fuel freeattrs' m' (drop att_len ptr) in
    if leb (length ptr) 2
    then done (m, freeattrs)
    else if leb att_len 2
    then done (m, freeattrs)
    else if ltb (length ptr) att_len
    then done (m, freeattrs)
    else rest

abbrev pub reset_parsed_packet : RadiusParsed
reset_parsed_packet = record {
  msgtype = 0;
  msgident = 0;
  sourceport = 0;
  accttype = 0;
  acctsess = 0;
  tvsec = 0;
  authenticator = [];
  attrs = [];
  matchedusers = [];
  savedreq = none;
  savedresp = none;
  firstaction = no_action;
  secondaction = no_action;
  firstattrs = [];
  secondattrs = [];
}

-- the port of the NAS, in grab_nas_details_from_packet; `none` is -1
unfoldable pub nas_port_of : ℕ → ℕ → ℕ → Option ℕ
nas_port_of code sourceport destport =
    if (code == Code.access_request) || (code == Code.account_request)
    then some sourceport
    else if (code == Code.access_accept)
        || ((code == Code.access_reject)
            || ((code == Code.account_response) || (code == Code.access_challenge)))
    then some destport
    else none

-- The UDP payload with its ports, at a time; `none` is NULL. The header is 20 bytes: code, identifier,
-- length and authenticator.
pub radius_parse_packet :
    List (List ℕ) → List ℕ → ℕ → ℕ → ℕ → Outcome (Option (RadiusParsed × List (List ℕ)))
unfolding parse_attributes nas_port_of
radius_parse_packet freeattrs payload sourceport destport tvsec =
    if ltb (length payload) 20
    then done none
    else elim (nas_port_of (get_or payload 0 0) sourceport destport) [
      | none ↦ done none
      | some port ↦
          elim (parse_attributes (suc (length payload)) freeattrs
            (record reset_parsed_packet {
              msgtype = get_or payload 0 0;
              msgident = get_or payload 1 0;
              authenticator = take 16 (drop 4 payload);
              tvsec = tvsec;
              sourceport = port;
            })
            (drop 20 payload)) [
              | done r ↦ done (some r)
              | aborted ↦ aborted
              | out_of_fuel ↦ out_of_fuel
            ]
    ]
