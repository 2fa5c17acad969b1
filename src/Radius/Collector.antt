-- ===== src/Radius/Collector.antt =====
-- What collector/collector_sync.c does with each message for one session of a user whose access is
-- intercepted: the part of update_user_sessions behind update_session_state, as far as it makes records and
-- ends the session. The session that follows an ended one starts anew, as radius_update_session_state
-- creates it.
pub mod Handled
pub mod Life
use https_github_com_open_li.Prelude.{
  ℕ, Bool, true, false, not, ◌&&◌, Option, none, some, List, [], ◌∷◌, ◌++◌, if◌then◌else◌, Outcome,
  done, aborted, out_of_fuel,
}
use https_github_com_open_li.AccessSession.{
  SessionIp, AccessSession, SessionState, new, over, create_access_session,
}
use https_github_com_open_li.Radius.{RadiusParsed, UserSession}
use https_github_com_open_li.Radius.Sessions.{is_none, Progress, update_actions}
use https_github_com_open_li.Radius.Update.{new_user_session}
use https_github_com_open_li.Radius.Iri.{Iri, create_ipiri_job_from_packet}

abbrev pub is_over : SessionState → Bool
is_over over = true
is_over _ = false

-- oldstate != newstate && newstate == SESSION_STATE_OVER
abbrev pub has_ended : Progress → Bool
has_ended p = is_over p.newstate && not (is_over p.oldstate)

-- the records of a message
pub records_of : Progress → Outcome (List Iri)
unfolding create_ipiri_job_from_packet
records_of p =
    if is_none p.raddata.firstaction then done [] else create_ipiri_job_from_packet 3 p.raddata 0

abbrev pub next_usess : Progress → UserSession
next_usess p = if has_ended p then new_user_session p.usess.session_id else p.usess

abbrev pub next_thissess : Progress → AccessSession
next_thissess p =
    if has_ended p
    then record (create_access_session p.thissess.sessionid) { cin = p.thissess.cin }
    else p.thissess

abbrev pub joined : Outcome (List Iri) → Outcome (List Iri) → Outcome (List Iri)
joined (done l) (done k) = done (l ++ k)
joined (done l) r = r
joined aborted r = aborted
joined out_of_fuel r = out_of_fuel

-- The records of a session's messages; an invalid access is `aborted`.
pub session_records :
    SessionIp → UserSession → AccessSession → List RadiusParsed → Outcome (List Iri)
unfolding update_actions records_of create_access_session
session_records junk usess thissess [] = done []
session_records junk usess thissess (m ∷ ms) = elim (update_actions junk m usess thissess) [
  | none ↦ aborted
  | some p ↦ joined (records_of p) (session_records junk (next_usess p) (next_thissess p) ms)
]
