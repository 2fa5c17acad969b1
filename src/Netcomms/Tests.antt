-- ===== src/Netcomms/Tests.antt =====
-- The net buffer and its fields at small contents.
use https_github_com_open_li.Prelude.{ℕ, ◌≡◌, refl, List, [], ◌∷◌, ◌++◌, arith}
use https_github_com_open_li.Netcomms.{NetBuffer, populate_header, message, parse_received_message}
use https_github_com_open_li.Netcomms.Buffer.{parse_received_message-populate_header}

abbrev liid : List ℕ
liid = b'x' ∷ b'1' ∷ []

-- the start of the next header
abbrev rest : List ℕ
rest = 92 ∷ 76 ∷ []

abbrev nb : NetBuffer
nb = record { front = 1; content = 1 ∷ 2 ∷ []; alloced = 3 }

abbrev received : NetBuffer
received = record { front = 0; content = populate_header 7 2 513 ++ (liid ++ rest); alloced = 100 }

parse_received_message-populate_header_example :
    (nb' : NetBuffer) × (parse_received_message received ≡ (message 7 liid 513, nb'))
    × (nb'.content ≡ rest)
parse_received_message-populate_header_example =
    parse_received_message-populate_header received 7 513 liid rest refl (omega arith) (omega arith)
      (omega arith)
