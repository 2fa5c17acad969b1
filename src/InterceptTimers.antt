-- ===== src/InterceptTimers.antt =====
-- When the provisioner tells the mediators that an intercept is on or off: intercept_timers.c, with
-- announce_hi1_notification_to_mediators of clientupdates.c. `now` is what `gettimeofday` says, and
-- `added` whether `epoll_add_timer` succeeds. A timer is the time that it is set for, `none` when its
-- file descriptor is -1; a timer that was added can be removed from epoll. The values are for an
-- intercept with local data.
pub mod Notifications
mod Tests
use https_github_com_open_li.Prelude.{
  ℕ, ◌+◌, ◌%◌, Bool, true, false, not, ◌&&◌, ◌||◌, Option, none, some, List, [], ◌∷◌, ◌++◌,
  if◌then◌else◌, ltb, leb, ◌==◌,
}

-- hi1_notify_t, as far as the provisioner announces
pub data Notification : Type 0 where
  activated deactivated modified : Notification

-- the times of intercept_common_t with prov_intercept_data_t
pub record Intercept : Type 0 where
  pub tostart_time : ℕ
  pub toend_time : ℕ
  pub start_timer : Option ℕ
  pub end_timer : Option ℕ
  pub start_hi1_sent : Bool
  pub end_hi1_sent : Bool
  pub hi1_seqno : ℕ

-- `intcomm->hi1_seqno ++`
abbrev pub counted : Intercept → Intercept
counted cept = record cept { hi1_seqno = (cept.hi1_seqno + 1) % 4294967296 }

-- the notifications that are sent, and the intercept
pub announce_hi1_notification : ℕ → Intercept → Notification → List Notification × Intercept
announce_hi1_notification now cept activated =
    if cept.start_hi1_sent
    then ([], cept)
    else if ltb now cept.tostart_time
    then ([], cept)
    else (activated ∷ [], counted (record cept { start_hi1_sent = true; end_hi1_sent = false }))
announce_hi1_notification now cept deactivated =
    if cept.end_hi1_sent
    then ([], cept)
    else if not cept.start_hi1_sent
    then ([], cept)
    else (deactivated ∷ [], counted (record cept { end_hi1_sent = true; start_hi1_sent = false }))
announce_hi1_notification now cept modified =
    if cept.end_hi1_sent
    then ([], cept)
    else if not cept.start_hi1_sent
    then (if ltb now cept.tostart_time
        then ([], cept)
        else (activated ∷ [], counted (record cept { start_hi1_sent = true })))
    else (modified ∷ [], counted cept)

-- `none` is -1
pub add_intercept_timer : Bool → ℕ → ℕ → Option ℕ → Option (Option ℕ)
add_intercept_timer added tssec now timer =
    if (tssec == 0) || ltb tssec now then some timer else if added then some (some tssec) else none

-- whether the value returned is 1 (it is -1 else), the notifications, and the intercept
pub record Reset : Type 0 where
  pub ok : Bool
  pub sent : List Notification
  pub cept : Intercept

module _ (added : Bool) (now : ℕ) where
  -- the part about the start time
  pub reset_start : Intercept → Reset
  unfolding announce_hi1_notification add_intercept_timer
  reset_start cept =
      if ltb 0 cept.tostart_time && ltb now cept.tostart_time
      then (let (sent, told) =
            if cept.start_hi1_sent && not cept.end_hi1_sent
            then announce_hi1_notification now cept deactivated
            else ([], cept) in
          elim (add_intercept_timer added told.tostart_time now told.start_timer) [
            | none ↦ record { ok = false; sent = sent; cept = told }
            | some timer ↦ record {
              ok = true;
              sent = sent;
              cept = record told { start_timer = timer };
            }
          ])
      else if not cept.start_hi1_sent
      then (let (sent, told) =
            if (cept.toend_time == 0) || ltb now cept.toend_time
            then announce_hi1_notification now cept activated
            else ([], cept) in
          record { ok = true; sent = sent; cept = told })
      else record { ok = true; sent = []; cept = cept }

  -- the part about the end time
  pub reset_end : Intercept → Reset
  unfolding announce_hi1_notification add_intercept_timer
  reset_end cept =
      if ltb 0 cept.toend_time && ltb now cept.toend_time
      then elim (add_intercept_timer added cept.toend_time now cept.end_timer) [
        | none ↦ record { ok = false; sent = []; cept = cept }
        | some timer ↦
            let timed = record cept { end_timer = timer } in
            let (sent, told) =
              if timed.end_hi1_sent && ltb timed.tostart_time now
              then announce_hi1_notification now timed activated
              else ([], timed) in
            record { ok = true; sent = sent; cept = record told { end_hi1_sent = false } }
      ]
      else if ltb 0 cept.toend_time && not cept.end_hi1_sent && cept.start_hi1_sent
      then (let (sent, told) = announce_hi1_notification now cept deactivated in
          record { ok = true; sent = sent; cept = told })
      else if cept.toend_time == 0
      then (let (sent, told) =
            if cept.end_hi1_sent && ltb cept.tostart_time now
            then announce_hi1_notification now cept activated
            else ([], cept) in
          record { ok = true; sent = sent; cept = record told { end_hi1_sent = false } })
      else record { ok = true; sent = []; cept = cept }

  pub reset_intercept_timers : Intercept → Reset
  unfolding reset_start reset_end
  reset_intercept_timers cept =
      let halted = record cept { start_timer = none; end_timer = none } in
      if ltb 0 cept.tostart_time && ltb 0 cept.toend_time && leb cept.toend_time cept.tostart_time
      then record { ok = false; sent = []; cept = halted }
      else (let first = reset_start halted in
          let second = reset_end first.cept in
          if first.ok then record second { sent = first.sent ++ second.sent } else first)
