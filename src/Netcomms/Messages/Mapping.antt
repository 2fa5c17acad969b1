-- ===== src/Netcomms/Messages/Mapping.antt =====
-- An LIID mapping from one program to another: pushed, parsed and decoded again.
use https_github_com_open_li.Prelude.{
  ℕ, suc, ◌+◌, ◌%◌, ◌≤◌, ◌<◌, ◌≡◌, refl, sym, ap, ◌∙◌, Bool, true, false, none, some, List, [],
  ◌++◌, append_assoc, append-nil, arith, ◌==◌, done, length, length-append,
}
use https_github_com_open_li.Netcomms.{
  NetBuffer, create_net_buffer, populate_header, message, parse_received_message,
}
use https_github_com_open_li.Netcomms.Messages.{
  mediate_intercept, cease_mediation, field_liid, field_leaid, push_liid_mapping_onto_net_buffer,
  push_cease_mediation_onto_net_buffer, MappingFields, no_fields, decode_liid_mapping,
  decode_cease_mediation,
}
use https_github_com_open_li.Netcomms.Buffer.{
  IsSound, push_generic-content, parse_received_message-populate_header,
}
use https_github_com_open_li.Netcomms.Fields.{field, decode_tlv-field, drop-field, push_tlv-content}

abbrev mapping_body : List ℕ → List ℕ → List ℕ
mapping_body agency liid = field field_leaid agency ++ field field_liid liid

not_empty : (type : ℕ) (value rest : List ℕ) → (length (field type value ++ rest) == 0) ≡ false
not_empty type value rest = ground arith

-- One round of the loop for either field.
decode-leaid :
    (fuel : ℕ) (value rest : List ℕ) (out : MappingFields)
    → length value ≤ 4092
    → 0 < length value + length rest
    → decode_liid_mapping (suc fuel) (field field_leaid value ++ rest) out
      ≡ decode_liid_mapping fuel rest (record out { agency = some value })
unfolding decode_liid_mapping
decode-leaid fuel value rest out short more =
    let decoded = decode_tlv-field field_leaid value rest (omega arith) (omega arith) more in
    rw (not_empty field_leaid value rest, decoded, decode_liid_mapping)
      (ap (λ b. decode_liid_mapping fuel b (record out { agency = some value }))
        (drop-field field_leaid value rest))

decode-liid :
    (fuel : ℕ) (value rest : List ℕ) (out : MappingFields)
    → length value ≤ 4092
    → 0 < length value + length rest
    → decode_liid_mapping (suc fuel) (field field_liid value ++ rest) out
      ≡ decode_liid_mapping fuel rest (record out { liid = some value })
unfolding decode_liid_mapping
decode-liid fuel value rest out short more =
    let decoded = decode_tlv-field field_liid value rest (omega arith) (omega arith) more in
    rw (not_empty field_liid value rest, decoded, decode_liid_mapping)
      (ap (λ b. decode_liid_mapping fuel b (record out { liid = some value }))
        (drop-field field_liid value rest))

decode-nothing :
    (fuel : ℕ) (out : MappingFields) → decode_liid_mapping (suc fuel) [] out ≡ done (true, out)
unfolding decode_liid_mapping
decode-nothing fuel out = refl

decode_liid_mapping-body :
    (agency liid : List ℕ)
    → length agency ≤ 4092
    → length liid ≤ 4092
    → 0 < length liid
    → decode_liid_mapping 3 (mapping_body agency liid) no_fields
      ≡ done (true, record { agency = some agency; liid = some liid })
decode_liid_mapping-body agency liid short1 short2 some_bytes =
    let last = field field_liid liid in
    decode-leaid 2 agency last no_fields short1 (omega arith)
    ∙ ap (λ b. decode_liid_mapping 2 b (record no_fields { agency = some agency }))
        (sym (append-nil last))
    ∙ decode-liid 1 liid [] (record no_fields { agency = some agency }) short2 (omega arith)
    ∙ decode-nothing 0 (record { agency = some agency; liid = some liid })

abbrev mapping_message : List ℕ → List ℕ → List ℕ
mapping_message agency liid =
    let body = mapping_body agency liid in populate_header mediate_intercept (length body) 0 ++ body

module _ (mem : ℕ → Bool) (big : (n : ℕ) → mem n ≡ true) where
  push_liid_mapping-content :
      (nb : NetBuffer) (agency liid : List ℕ)
      → IsSound nb
      → length agency ≤ 4092
      → length liid ≤ 4092
      → (nb' : NetBuffer) × (push_liid_mapping_onto_net_buffer mem 2 nb agency liid
          ≡ done (some (length (mapping_body agency liid)), nb'))
        × (nb'.content ≡ nb.content ++ mapping_message agency liid)
        × IsSound nb'
  unfolding push_liid_mapping_onto_net_buffer
  push_liid_mapping-content nb agency liid h short1 short2 =
      let total = (length agency + length liid + 8) % 65536 in
      let body = mapping_body agency liid in
      let size : total ≡ length body =
        omega (arith, length-append (field field_leaid agency) (field field_liid liid)) in
      let header = populate_header mediate_intercept total 0 in
      let short : length header < 65536 = unfold populate_header in omega arith in
      let (nb1, p1, c1, s1) = push_generic-content mem big 0 nb header h short in
      let (nb2, p2, c2, s2) = push_tlv-content mem big 0 nb1 field_leaid agency s1 short1 in
      let (nb3, p3, c3, s3) = push_tlv-content mem big 0 nb2 field_liid liid s2 short2 in
      (
        nb3,
        rw (p1, p2, p3, push_liid_mapping_onto_net_buffer) (ap (λ n. done (some n, nb3)) size),
        c3
            ∙ ap (λ l. l ++ field field_liid liid) (c2 ∙ ap (λ l. l ++ field field_leaid agency) c1)
            ∙ append_assoc (nb.content ++ header) (field field_leaid agency) (field field_liid liid)
            ∙ append_assoc nb.content header body
            ∙ ap (λ n. nb.content ++ (populate_header mediate_intercept n 0 ++ body)) size,
        s3,
      )

  -- An LIID mapping that is pushed onto a new buffer is parsed and decoded from what the peer receives,
  -- whatever follows it there: the peer gets the same agency and LIID, and keeps what follows.
  pub liid_mapping-decode :
      (agency liid rest : List ℕ) (front alloced : ℕ)
      → length agency ≤ 4092
      → length liid ≤ 4092
      → 0 < length liid
      → (sent after : NetBuffer) × (body : List ℕ) × (push_liid_mapping_onto_net_buffer mem 2
            create_net_buffer agency liid
          ≡ done (some (length body), sent))
        × (parse_received_message
              (record { front = front; content = sent.content ++ rest; alloced = alloced })
            ≡ (message mediate_intercept body 0, after))
        × (after.content ≡ rest)
        × (decode_liid_mapping 3 body no_fields
            ≡ done (true, record { agency = some agency; liid = some liid }))
  unfolding create_net_buffer
  liid_mapping-decode agency liid rest front alloced short1 short2 some_bytes =
      let (sent, pushed, content, sound) =
        push_liid_mapping-content create_net_buffer agency liid (omega arith) short1 short2 in
      let body = mapping_body agency liid in
      let size = length-append (field field_leaid agency) (field field_liid liid) in
      let received : NetBuffer = record {
        front = front;
        content = sent.content ++ rest;
        alloced = alloced;
      } in
      let (after, parsed, left) =
        parse_received_message-populate_header received mediate_intercept 0 body rest
          (ap (λ l. l ++ rest) content
            ∙ append_assoc (populate_header mediate_intercept (length body) 0) body rest)
          (omega arith) (omega (arith, size)) (omega arith) in
      (
        sent,
        after,
        body,
        pushed,
        parsed,
        left,
        decode_liid_mapping-body agency liid short1 short2 some_bytes,
      )

decode_cease_mediation-field :
    (liid : List ℕ)
    → length liid ≤ 4092
    → 0 < length liid
    → decode_cease_mediation 2 (field field_liid liid) none ≡ done (true, some liid)
unfolding decode_cease_mediation
decode_cease_mediation-field liid short some_bytes =
    let bytes = field field_liid liid ++ [] in
    let decoded = decode_tlv-field field_liid liid [] (omega arith) (omega arith) (omega arith) in
    ap (λ b. decode_cease_mediation 2 b none) (sym (append-nil (field field_liid liid)))
    ∙ rw (not_empty field_liid liid [], decoded, decode_cease_mediation)
        (ap (λ b. decode_cease_mediation 1 b (some liid)) (drop-field field_liid liid []))

module _ (mem : ℕ → Bool) (big : (n : ℕ) → mem n ≡ true) where
  -- The same for the message that ends the mediation of an LIID.
  pub cease_mediation-decode :
      (liid rest : List ℕ) (front alloced : ℕ)
      → length liid ≤ 4092
      → 0 < length liid
      → (sent after : NetBuffer) × (body : List ℕ) × (push_cease_mediation_onto_net_buffer mem 2
            create_net_buffer liid
          ≡ done (some (length body), sent))
        × (parse_received_message
              (record { front = front; content = sent.content ++ rest; alloced = alloced })
            ≡ (message cease_mediation body 0, after))
        × (after.content ≡ rest)
        × (decode_cease_mediation 2 body none ≡ done (true, some liid))
  unfolding create_net_buffer push_cease_mediation_onto_net_buffer
  cease_mediation-decode liid rest front alloced short some_bytes =
      let total = (length liid + 4) % 65536 in
      let body = field field_liid liid in
      let size : total ≡ length body = omega arith in
      let header = populate_header cease_mediation total 0 in
      let few : length header < 65536 = unfold populate_header in omega arith in
      let (nb1, p1, c1, s1) =
        push_generic-content mem big 0 create_net_buffer header (omega arith) few in
      let (sent, p2, c2, s2) = push_tlv-content mem big 0 nb1 field_liid liid s1 short in
      let received : NetBuffer = record {
        front = front;
        content = sent.content ++ rest;
        alloced = alloced;
      } in
      let (after, parsed, left) =
        parse_received_message-populate_header received cease_mediation 0 body rest
          (ap (λ l. l ++ rest) (c2 ∙ ap (λ l. l ++ body) c1)
            ∙ ap (λ n. populate_header cease_mediation n 0 ++ body ++ rest) size
            ∙ append_assoc (populate_header cease_mediation (length body) 0) body rest)
          (omega arith) (omega arith) (omega arith) in
      (
        sent,
        after,
        body,
        rw (p1, p2, push_cease_mediation_onto_net_buffer) (ap (λ n. done (some n, sent)) size),
        parsed,
        left,
        decode_cease_mediation-field liid short some_bytes,
      )
