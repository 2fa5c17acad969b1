-- ===== src/Reassembler/Sip/Tests.antt =====
-- Runs of the search for a SIP message, and its theorems at concrete buffers.
use https_github_com_open_li.Prelude.{ℕ, ◌≡◌, refl, some, List, [], ◌∷◌, ◌++◌, done}
use https_github_com_open_li.Prelude.Int.{pos, ◌+ℤ◌}
use https_github_com_open_li.Reassembler.Sip.{find_sip_message_end}
use https_github_com_open_li.Reassembler.Sip.Framing.{find_sip_message_end-Header}
use https_github_com_open_li.Reassembler.Sip.Example.{header, body_start, body_end, header-Header}

-- the whole body, and two bytes of the next message
abbrev buffer : List ℕ
buffer = body_start ++ body_end ++ 73 ∷ 78 ∷ []

find_sip_message_end_runs : find_sip_message_end (header ++ buffer) ≡ done (some (pos 25))
unfolding find_sip_message_end ◌+ℤ◌
find_sip_message_end_runs = refl

find_sip_message_end-Header_example : find_sip_message_end (header ++ buffer) ≡ done (some (pos 25))
find_sip_message_end-Header_example = find_sip_message_end-Header header 4 buffer header-Header
