-- ===== src/Netcomms/Messages.antt =====
-- The messages of netcomms.c about the mapping of LIIDs to agencies.
pub mod Mapping
mod Tests
use https_github_com_open_li.Prelude.{
  ℕ, zero, suc, ◌+◌, ◌-◌, ◌*◌, ◌/◌, ◌%◌, Bool, true, false, ◌&&◌, ◌||◌, Option, none, some, List,
  [], ◌∷◌, ◌++◌, if◌then◌else◌, ltb, leb, ◌==◌, Outcome, done, aborted, out_of_fuel, length, take,
  drop,
}
use https_github_com_open_li.Netcomms.{
  NetBuffer, populate_header, push_generic_onto_net_buffer, push_tlv, decode_tlv,
}

-- one push after another, up to the first that fails
abbrev pub then_push :
    Outcome (Option ℕ × NetBuffer)
    → (NetBuffer → Outcome (Option ℕ × NetBuffer))
    → Outcome (Option ℕ × NetBuffer)
then_push aborted next = aborted
then_push out_of_fuel next = out_of_fuel
then_push (done (none, nb)) next = done (none, nb)
then_push (done (some n, nb)) next = next nb

-- OPENLI_PROTO_MEDIATE_INTERCEPT and OPENLI_PROTO_CEASE_MEDIATION
abbrev pub mediate_intercept : ℕ
mediate_intercept = 10

abbrev pub cease_mediation : ℕ
cease_mediation = 11

-- OPENLI_PROTO_FIELD_LIID and OPENLI_PROTO_FIELD_LEAID
abbrev pub field_liid : ℕ
field_liid = 5

abbrev pub field_leaid : ℕ
field_leaid = 9

module _ (mem : ℕ → Bool) (fuel : ℕ) where
  pub push_liid_mapping_onto_net_buffer :
      NetBuffer → List ℕ → List ℕ → Outcome (Option ℕ × NetBuffer)
  unfolding push_tlv populate_header
  push_liid_mapping_onto_net_buffer nb agency liid =
      let totallen = (length agency + length liid + 8) % 65536 in
      then_push
        (push_generic_onto_net_buffer mem fuel nb (populate_header mediate_intercept totallen 0))
        (λ nb1. then_push (push_tlv mem fuel nb1 field_leaid agency) (λ nb2.
          then_push (push_tlv mem fuel nb2 field_liid liid) (λ nb3. done (some totallen, nb3))))

  pub push_cease_mediation_onto_net_buffer : NetBuffer → List ℕ → Outcome (Option ℕ × NetBuffer)
  unfolding push_tlv populate_header
  push_cease_mediation_onto_net_buffer nb liid =
      let totallen = (length liid + 4) % 65536 in
      then_push
        (push_generic_onto_net_buffer mem fuel nb (populate_header cease_mediation totallen 0))
        (λ nb1.
          then_push (push_tlv mem fuel nb1 field_liid liid) (λ nb2. done (some totallen, nb2)))

-- `*agency` and `*liid`
pub record MappingFields : Type 0 where
  pub agency : Option (List ℕ)
  pub liid : Option (List ℕ)

abbrev pub no_fields : MappingFields
no_fields = record { agency = none; liid = none }

-- false is -1
pub decode_liid_mapping : ℕ → List ℕ → MappingFields → Outcome (Bool × MappingFields)
unfolding decode_tlv
decode_liid_mapping zero msgbody out = out_of_fuel
decode_liid_mapping (suc fuel) msgbody out = elim (length msgbody == 0) [
  | true ↦ done (true, out)
  | false ↦ elim (decode_tlv msgbody) [
    | none ↦ done (false, out)
    | some (f, value) ↦ elim (f == field_liid) [
      | true ↦
          decode_liid_mapping fuel (drop (length value + 4) msgbody)
            (record out { liid = some value })
      | false ↦ elim (f == field_leaid) [
        | true ↦
            decode_liid_mapping fuel (drop (length value + 4) msgbody)
              (record out { agency = some value })
        | false ↦ done (false, out)
      ]
    ]
  ]
]

pub decode_cease_mediation : ℕ → List ℕ → Option (List ℕ) → Outcome (Bool × Option (List ℕ))
unfolding decode_tlv
decode_cease_mediation zero msgbody liid = out_of_fuel
decode_cease_mediation (suc fuel) msgbody liid = elim (length msgbody == 0) [
  | true ↦ done (true, liid)
  | false ↦ elim (decode_tlv msgbody) [
    | none ↦ done (false, liid)
    | some (f, value) ↦ elim (f == field_liid) [
      | true ↦ decode_cease_mediation fuel (drop (length value + 4) msgbody) (some value)
      | false ↦ done (false, liid)
    ]
  ]
]
