-- ===== src/Netcomms/Messages/Tests.antt =====
-- An LIID mapping sent at concrete strings.
use https_github_com_open_li.Prelude.{
  ℕ, ◌≡◌, refl, true, some, List, [], ◌∷◌, ◌++◌, arith, done, length,
}
use https_github_com_open_li.Netcomms.{
  NetBuffer, create_net_buffer, message, parse_received_message,
}
use https_github_com_open_li.Netcomms.Messages.{
  mediate_intercept, push_liid_mapping_onto_net_buffer, no_fields, decode_liid_mapping,
}
use https_github_com_open_li.Netcomms.Messages.Mapping.{liid_mapping-decode}

abbrev agency : List ℕ
agency = b'L' ∷ b'E' ∷ b'A' ∷ []

abbrev liid : List ℕ
liid = b'x' ∷ b'1' ∷ []

-- the start of the next header
abbrev rest : List ℕ
rest = 92 ∷ 76 ∷ []

liid_mapping-decode_example :
    (sent after : NetBuffer) × (body : List ℕ) × (push_liid_mapping_onto_net_buffer
        (λ n. true)
        2
        create_net_buffer
        agency
        liid
      ≡ done (some (length body), sent))
    × (parse_received_message (record { front = 7; content = sent.content ++ rest; alloced = 100 })
        ≡ (message mediate_intercept body 0, after))
    × (after.content ≡ rest)
    × (decode_liid_mapping 3 body no_fields
        ≡ done (true, record { agency = some agency; liid = some liid }))
liid_mapping-decode_example =
    liid_mapping-decode (λ n. true) (λ n. refl) agency liid rest 7 100 (omega arith) (omega arith)
      (omega arith)
