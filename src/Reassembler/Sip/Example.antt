-- ===== src/Reassembler/Sip/Example.antt =====
-- A header and its body, for the runs of the TCP reassembly.
use https_github_com_open_li.Prelude.{ℕ, ◌≡◌, refl, none, List, [], ◌∷◌, ◌++◌, arith, done}
use https_github_com_open_li.Reassembler.Sip.{
  sip_end_sequence, sip_content_length_field, memmem, strtoul, find_sip_message_end,
}
use https_github_com_open_li.Reassembler.Sip.Framing.{Header, find_sip_message_end-no_blank}

-- `Content-Length: 4` with the blank line
abbrev pub header : List ℕ
header = sip_content_length_field ++ b'4' ∷ 13 ∷ 10 ∷ 13 ∷ 10 ∷ []

abbrev pub body_start : List ℕ
body_start = b'a' ∷ b'b' ∷ []

abbrev pub body_end : List ℕ
body_end = b'c' ∷ b'd' ∷ []

pub header-Header : Header header 4
unfolding memmem strtoul
header-Header = record {
  blank_at = 17;
  blank = refl;
  ends = refl;
  field_at = 0;
  field = refl;
  line_at = 1;
  line = refl;
  short = omega arith;
  value = refl;
}

pub body_end-no_blank : memmem body_end sip_end_sequence ≡ none
unfolding memmem
body_end-no_blank = refl

pub body_end-no_message : find_sip_message_end body_end ≡ done none
body_end-no_message = find_sip_message_end-no_blank body_end body_end-no_blank
