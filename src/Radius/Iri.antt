-- ===== src/Radius/Iri.antt =====
-- The records that the actions of a message make: radius_generate_iri_data and the loop of
-- create_ipiri_job_from_packet in collector/ipiri.c that calls it. A parameter of a record has its number
-- from collector/ipiri.h as a constructor.
pub mod Brackets
use https_github_com_open_li.Prelude.{
  ℕ, zero, suc, ◌+◌, ◌&&◌, ◌||◌, Bool, true, false, Option, none, some, List, [], ◌∷◌,
  if◌then◌else◌, ◌==◌, leb, ltb, take, Outcome, done, aborted, out_of_fuel,
}
use https_github_com_open_li.AccessSession.{
  AccessAction, attempt, accept, failed, reject, already_active, interim_update, end, retry,
  no_action,
}
use https_github_com_open_li.Radius.{Attribute, RadiusParsed}
use https_github_com_open_li.Radius.Attr
use https_github_com_open_li.Radius.Sessions.{be32, is_none}

-- etsili_iri_type_t
pub data IriType : Type 0 where
  iri_begin iri_end iri_continue iri_report : IriType

-- ipiri event types
pub data EventType : Type 0 where
  access_attempt access_accept access_reject access_failed interim start_while_active access_end :
      EventType

-- IPIRI_END_REASON
pub data EndReason : Type 0 where
  undefined regular connection_loss connection_timeout : EndReason

pub data Param : Type 0 where
  access_event_type : EventType → Param
  endtime : ℕ → Param
  pop_portnumber : ℕ → Param
  pop_ipaddress : List ℕ → Param
  pop_identifier : List ℕ → Param
  pop_phonenumber : List ℕ → Param
  target_networkid : List ℕ → Param
  endreason : EndReason → Param
  octets_received : ℕ → Param
  octets_transmitted : ℕ → Param

pub translate_term_cause : List ℕ → EndReason
translate_term_cause tcause =
    let n = be32 tcause in
    if n == 1
    then regular
    else if (n == 4) || (n == 5)
    then connection_timeout
    else if (leb 2 n && leb n 3) || (leb 6 n && leb n 18)
    then connection_loss
    else undefined

-- ipiri_create_id_printable, which takes at most 128 bytes; the attribute is not empty
abbrev pub printable : Attribute → List ℕ
printable a = take (if ltb 128 a.att_len then 128 else a.att_len) a.att_val

-- the parameter of an attribute, if it has one
pub param_of : Attribute → Option Param
unfolding translate_term_cause
param_of a =
    if a.att_type == Attr.nasport
    then some (pop_portnumber (be32 a.att_val))
    else if a.att_type == Attr.nasip
    then some (pop_ipaddress (take 4 a.att_val))
    else if a.att_type == Attr.nasidentifier
    then some (pop_identifier (printable a))
    else if a.att_type == Attr.called_station_id
    then some (pop_phonenumber (take a.att_len a.att_val))
    else if a.att_type == Attr.calling_station_id
    then some (target_networkid (take a.att_len a.att_val))
    else if a.att_type == Attr.acct_terminate_cause
    then some (endreason (translate_term_cause a.att_val))
    else if a.att_type == Attr.acct_inoctets
    then some (octets_received (be32 a.att_val))
    else if a.att_type == Attr.acct_outoctets
    then some (octets_transmitted (be32 a.att_val))
    else none

abbrev pub cons_some {ℓ} : {A : Type ℓ} → Option A → List A → List A
cons_some none l = l
cons_some (some x) l = x ∷ l

pub params_of : List Attribute → List Param
unfolding param_of
params_of [] = []
params_of (a ∷ attrs) = cons_some (param_of a) (params_of attrs)

pub record Iri : Type 0 where
  pub iritype : IriType
  pub params : List Param

-- `tv` is the time of the message; only the end of an access has it
abbrev pub end_param : IriType → ℕ → List Param → List Param
end_param iri_end tv l = endtime tv ∷ l
end_param _ tv l = l

pub generate_iri : List Attribute → ℕ → EventType → IriType → Iri
unfolding params_of
generate_iri attrs tv eventtype iritype = record {
  iritype = iritype;
  params = access_event_type eventtype ∷ end_param iritype tv (params_of attrs);
}

-- `none` is -1
pub action_to_iri : RadiusParsed → AccessAction → List Attribute → Option Iri
unfolding generate_iri
action_to_iri raddata attempt attrs =
    some (generate_iri attrs raddata.tvsec access_attempt iri_report)
action_to_iri raddata accept attrs = some (generate_iri attrs raddata.tvsec access_accept iri_begin)
action_to_iri raddata end attrs = some (generate_iri attrs raddata.tvsec access_end iri_end)
action_to_iri raddata interim_update attrs =
    some (generate_iri attrs raddata.tvsec interim iri_continue)
action_to_iri raddata reject attrs =
    some (generate_iri attrs raddata.tvsec access_reject iri_report)
action_to_iri raddata failed attrs =
    some (generate_iri attrs raddata.tvsec access_failed iri_report)
action_to_iri raddata already_active attrs =
    some (generate_iri attrs raddata.tvsec start_while_active iri_begin)
action_to_iri raddata _ attrs = none

-- the record, and whether there is another one
abbrev pub with_more : Bool → Option Iri → Option (Iri × Bool)
with_more more none = none
with_more more (some iri) = some (iri, more)

-- `none` is -1; with it, what is returned is 1 if there is another record and 0 if not
pub radius_generate_iri_data : RadiusParsed → ℕ → Option (Iri × Bool)
unfolding action_to_iri
radius_generate_iri_data raddata iteration =
    if iteration == 0
    then (if is_none raddata.firstaction
        then none
        else with_more (if is_none raddata.secondaction then false else true)
            (action_to_iri raddata raddata.firstaction raddata.firstattrs))
    else if (iteration == 1) && (if is_none raddata.secondaction then false else true)
    then with_more false (action_to_iri raddata raddata.secondaction raddata.secondattrs)
    else none

abbrev pub ahead : Iri → Outcome (List Iri) → Outcome (List Iri)
ahead iri (done l) = done (iri ∷ l)
ahead iri aborted = aborted
ahead iri out_of_fuel = out_of_fuel

-- the loop, on fuel: the records that are published
unfoldable pub create_ipiri_job_from_packet : ℕ → RadiusParsed → ℕ → Outcome (List Iri)
unfolding radius_generate_iri_data
create_ipiri_job_from_packet zero raddata iter = out_of_fuel
create_ipiri_job_from_packet (suc fuel) raddata iter =
    elim (radius_generate_iri_data raddata iter) [
      | none ↦ done []
      | some (iri, more) ↦
          let rest = create_ipiri_job_from_packet fuel raddata (iter + 1) in
          if more then ahead iri rest else done (iri ∷ [])
    ]
