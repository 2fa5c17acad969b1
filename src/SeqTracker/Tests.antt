-- ===== src/SeqTracker/Tests.antt =====
-- Records of two communications, mixed with a new announcement.
use https_github_com_open_li.Prelude.{ℕ, ◌≡◌, refl, true, none, List, [], ◌∷◌}
use https_github_com_open_li.Uthash.{hash_find}
use https_github_com_open_li.SeqTracker.{
  InterceptMsg, InterceptState, ExportType, ipcc, ipiri, Event, announced, ended, received,
  has_liid, take_seqno,
}
use https_github_com_open_li.SeqTracker.Numbers.{numbers, run_encoding_job-consecutive}

abbrev liid : List ℕ
liid = 108 ∷ 49 ∷ []

abbrev msg : InterceptMsg
msg = record {
  liid = liid;
  authcc = 78 ∷ [];
  delivcc = 78 ∷ [];
  encryptkey = none;
  encryptmethod = 0;
}

abbrev tracked : InterceptState
tracked = record {
  details = msg;
  cinsequencing = record { cin = 7; iri_seqno = 2; cc_seqno = 4294967295 } ∷ [];
  version = 0;
}

abbrev of_cin : ExportType → ℕ → Event
of_cin type cin = received (record { type = type; liid = liid; cin = cin })

-- the numbers of CIN 7's contents wrap
abbrev events : List Event
events =
    of_cin ipcc 7
    ∷ of_cin ipiri 7
    ∷ announced msg
    ∷ ended (record msg { liid = 108 ∷ [] })
    ∷ of_cin ipcc 8
    ∷ of_cin ipcc 7
    ∷ []

run_encoding_job-consecutive_example :
    numbers liid 7 true events (tracked ∷ []) ≡ 4294967295 ∷ 0 ∷ []
unfolding take_seqno has_liid hash_find
run_encoding_job-consecutive_example =
    run_encoding_job-consecutive liid 7 true events (tracked ∷ []) tracked refl refl
