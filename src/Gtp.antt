-- ===== src/Gtp.antt =====
-- GTP packets, collector/accessplugins/gtp.c: the data of the plugin that its reading of information
-- elements uses. A byte string is the list of its bytes.
pub mod Ie
pub mod Numbers
pub mod Elements
pub mod TvElements
pub mod Sessions
mod Tests
use https_github_com_open_li.Prelude.{ℕ, List}

-- gtp_infoelem_t
pub record InfoElem : Type 0 where
  pub ietype : ℕ
  pub ielength : ℕ
  pub ieflags : ℕ
  pub iecontent : List ℕ

-- gtp_parsed_t; a string without its NUL
pub record GtpParsed : Type 0 where
  pub version : ℕ
  pub msgtype : ℕ
  pub teid : ℕ
  pub teid_ctl : ℕ
  pub response_cause : ℕ
  pub imsi : List ℕ
  pub msisdn : List ℕ
  pub ies : List InfoElem

abbrev pub create_session_request : ℕ
create_session_request = 32

abbrev pub delete_session_request : ℕ
delete_session_request = 36

abbrev pub create_pdp_context_request : ℕ
create_pdp_context_request = 16
