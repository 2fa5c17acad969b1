-- ===== src/Radius/Code.antt =====
-- The codes of RADIUS messages, collector/accessplugins/radius.c.
use https_github_com_open_li.Prelude.{ℕ}

abbrev pub access_request : ℕ
access_request = 1

abbrev pub access_accept : ℕ
access_accept = 2

abbrev pub access_reject : ℕ
access_reject = 3

abbrev pub account_request : ℕ
account_request = 4

abbrev pub account_response : ℕ
account_response = 5

abbrev pub access_challenge : ℕ
access_challenge = 11
