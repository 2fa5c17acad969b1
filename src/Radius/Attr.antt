-- ===== src/Radius/Attr.antt =====
-- The types of RADIUS attributes, collector/accessplugins/radius.c.
use https_github_com_open_li.Prelude.{ℕ}

abbrev pub username : ℕ
username = 1

abbrev pub nasip : ℕ
nasip = 4

abbrev pub nasport : ℕ
nasport = 5

abbrev pub framed_ip_address : ℕ
framed_ip_address = 8

abbrev pub called_station_id : ℕ
called_station_id = 30

abbrev pub calling_station_id : ℕ
calling_station_id = 31

abbrev pub nasidentifier : ℕ
nasidentifier = 32

abbrev pub acct_status_type : ℕ
acct_status_type = 40

abbrev pub acct_inoctets : ℕ
acct_inoctets = 42

abbrev pub acct_outoctets : ℕ
acct_outoctets = 43

abbrev pub acct_session_id : ℕ
acct_session_id = 44

abbrev pub acct_terminate_cause : ℕ
acct_terminate_cause = 49

abbrev pub framed_ipv6_prefix : ℕ
framed_ipv6_prefix = 97

abbrev pub delegated_ipv6_prefix : ℕ
delegated_ipv6_prefix = 123

abbrev pub framed_ipv6_address : ℕ
framed_ipv6_address = 168
