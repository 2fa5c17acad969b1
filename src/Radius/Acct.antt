-- ===== src/Radius/Acct.antt =====
-- The values of an Acct-Status-Type attribute, collector/accessplugins/radius.c.
use https_github_com_open_li.Prelude.{ℕ}

abbrev pub start : ℕ
start = 1

abbrev pub stop : ℕ
stop = 2

abbrev pub interim : ℕ
interim = 3
