-- ===== src/InterceptTimers/Tests.antt =====
-- An intercept that is running when its end time moves into the past.
use https_github_com_open_li.Prelude.{◌≡◌, ◌&&◌, refl, true, false, none, some}
use https_github_com_open_li.InterceptTimers.{
  Intercept, announce_hi1_notification, add_intercept_timer, reset_start, reset_end,
  reset_intercept_timers,
}
use https_github_com_open_li.InterceptTimers.Notifications.{
  is_on, difference, reset_intercept_timers-difference,
}

abbrev running : Intercept
running = record {
  tostart_time = 100;
  toend_time = 900;
  start_timer = none;
  end_timer = some 2000;
  start_hi1_sent = true;
  end_hi1_sent = false;
  hi1_seqno = 4;
}

reset_intercept_timers-difference_example :
    let r = reset_intercept_timers true 1000 running in
    (r.cept.start_hi1_sent ≡ is_on 1000 running)
    × (r.sent ≡ difference true (is_on 1000 running))
    × ((r.cept.start_hi1_sent && r.cept.end_hi1_sent) ≡ false)
unfolding reset_intercept_timers reset_start reset_end announce_hi1_notification add_intercept_timer
reset_intercept_timers-difference_example =
    reset_intercept_timers-difference true 1000 running refl refl
