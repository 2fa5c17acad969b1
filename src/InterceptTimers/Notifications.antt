-- ===== src/InterceptTimers/Notifications.antt =====
-- After its timers are reset, the mediators know whether an intercept is on.
use https_github_com_open_li.Prelude.{
  ℕ, ◌≡◌, refl, sym, ap, ap₂, ◌∙◌, Bool, true, false, ◌&&◌, ◌||◌, none, List, [], ◌∷◌, ◌++◌, arith,
  ltb, leb, ◌==◌, Bool-cases, inl, inr,
}
use https_github_com_open_li.InterceptTimers.{
  Notification, activated, deactivated, Intercept, announce_hi1_notification, add_intercept_timer,
  Reset, reset_start, reset_end, reset_intercept_timers,
}

-- whether an intercept with these times is to run at `now`
abbrev pub is_on : ℕ → Intercept → Bool
is_on now cept = leb cept.tostart_time now && ((cept.toend_time == 0) || ltb now cept.toend_time)

-- what the mediators have to be told when an intercept goes from one state to another
abbrev pub difference : Bool → Bool → List Notification
difference false true = activated ∷ []
difference true false = deactivated ∷ []
difference _ _ = []

-- whether the end time leaves room for an intercept at `now`
abbrev window : ℕ → Intercept → Bool
window now cept = (cept.toend_time == 0) || ltb now cept.toend_time

abbrev NotBoth : Intercept → Type 0
NotBoth cept = (cept.start_hi1_sent && cept.end_hi1_sent) ≡ false

-- whether an intercept counts as announced when the start time has been looked at
abbrev halfway : ℕ → Intercept → Bool
halfway now cept = leb cept.tostart_time now && (cept.start_hi1_sent || window now cept)

record AfterStart (now : ℕ) (cept : Intercept) (r : Reset) : Type 0 where
  tostart_time : r.cept.tostart_time ≡ cept.tostart_time
  toend_time : r.cept.toend_time ≡ cept.toend_time
  start_hi1_sent : r.cept.start_hi1_sent ≡ halfway now cept
  told : r.sent ≡ difference cept.start_hi1_sent (halfway now cept)
  flags : NotBoth r.cept

reset_start-AfterStart :
    (added : Bool) (now : ℕ) (cept : Intercept)
    → NotBoth cept
    → (reset_start added now cept).ok ≡ true
    → AfterStart now cept (reset_start added now cept)
unfolding reset_start announce_hi1_notification add_intercept_timer
reset_start-AfterStart added now cept flags ok = record {
  tostart_time = ground arith;
  toend_time = ground arith;
  start_hi1_sent = ground arith;
  told = ground arith;
  flags = ground arith;
}

record AfterEnd (now : ℕ) (cept : Intercept) (r : Reset) : Type 0 where
  start_hi1_sent : r.cept.start_hi1_sent ≡ is_on now cept
  told : r.sent ≡ difference cept.start_hi1_sent (is_on now cept)
  flags : NotBoth r.cept

-- From there the end time decides.
reset_end-AfterEnd :
    (added : Bool) (now : ℕ) (cept : Intercept)
    → NotBoth cept
    → cept.start_hi1_sent ≡ halfway now cept
    → (reset_end added now cept).ok ≡ true
    → AfterEnd now cept (reset_end added now cept)
unfolding reset_end announce_hi1_notification add_intercept_timer
reset_end-AfterEnd added now cept flags mid ok = record {
  start_hi1_sent = ground arith;
  told = ground arith;
  flags = ground arith;
}

-- the two differences are one
difference-append :
    (started l w : Bool)
    → difference started (l && (started || w)) ++ difference (l && (started || w)) (l && w)
      ≡ difference started (l && w)
difference-append false false w = refl
difference-append false true false = refl
difference-append false true true = refl
difference-append true false w = refl
difference-append true true false = refl
difference-append true true true = refl

abbrev bad_times : Intercept → Bool
bad_times cept =
    ltb 0 cept.tostart_time && ltb 0 cept.toend_time && leb cept.toend_time cept.tostart_time

abbrev halted : Intercept → Intercept
halted cept = record cept { start_timer = none; end_timer = none }

-- a reset that succeeds has gone through both parts
record BothParts (added : Bool) (now : ℕ) (cept : Intercept) : Type 0 where
  first_ok : (reset_start added now (halted cept)).ok ≡ true
  second_ok : (reset_end added now (reset_start added now (halted cept)).cept).ok ≡ true
  result :
      let first = reset_start added now (halted cept) in
      let second = reset_end added now first.cept in
      reset_intercept_timers added now cept ≡ record second { sent = first.sent ++ second.sent }

reset-BothParts :
    (added : Bool) (now : ℕ) (cept : Intercept)
    → (reset_intercept_timers added now cept).ok ≡ true
    → BothParts added now cept
unfolding reset_intercept_timers
reset-BothParts added now cept ok =
    let first = reset_start added now (halted cept) in
    let second = reset_end added now first.cept in
    elim (Bool-cases (bad_times cept)) [
      | inl e ↦ absurd (
          let failed : (reset_intercept_timers added now cept).ok ≡ false =
            rw (e, reset_intercept_timers) in
          cc)
      | inr e ↦ elim (Bool-cases first.ok) [
        | inr q ↦ absurd (
            let failed : (reset_intercept_timers added now cept).ok ≡ false =
              rw (e, q, reset_intercept_timers) q in
            cc)
        | inl q ↦
            let result : reset_intercept_timers added now cept
                ≡ record second { sent = first.sent ++ second.sent } =
              rw (e, q, reset_intercept_timers) in
            record { first_ok = q; second_ok = sym (ap (λ r. r.ok) result) ∙ ok; result = result }
      ]
    ]

-- After a reset that succeeds, an intercept counts as announced exactly when it is to run now, and the
-- mediators have been told of the change and of nothing else, if it was not marked as both started and
-- ended before; it is not marked so after.
pub reset_intercept_timers-difference :
    (added : Bool) (now : ℕ) (cept : Intercept)
    → (cept.start_hi1_sent && cept.end_hi1_sent) ≡ false
    → (reset_intercept_timers added now cept).ok ≡ true
    → let r = reset_intercept_timers added now cept in
      (r.cept.start_hi1_sent ≡ is_on now cept)
      × (r.sent ≡ difference cept.start_hi1_sent (is_on now cept))
      × ((r.cept.start_hi1_sent && r.cept.end_hi1_sent) ≡ false)
reset_intercept_timers-difference added now cept flags ok =
    let p = reset-BothParts added now cept ok in
    let c = (reset_start added now (halted cept)).cept in
    let a = reset_start-AfterStart added now (halted cept) flags p.first_ok in
    let mid : c.start_hi1_sent ≡ halfway now c =
      ground (arith, a.tostart_time, a.toend_time, a.start_hi1_sent) in
    let on : is_on now c ≡ is_on now cept = ground (arith, a.tostart_time, a.toend_time) in
    let b = reset_end-AfterEnd added now c a.flags mid p.second_ok in
    rw p.result (
      b.start_hi1_sent ∙ on,
      ap₂ ◌++◌ a.told (b.told ∙ ap₂ difference a.start_hi1_sent on)
          ∙ difference-append cept.start_hi1_sent (leb cept.tostart_time now) (window now cept),
      b.flags,
    )
