-- ===== src/Radius/Collector/Life.antt =====
-- The records of a session follow the life of an access.
use mathlib.Core.List.{map-append}
use https_github_com_open_li.Prelude.{
  ◌≡◌, refl, sym, ap, ◌∙◌, Bool, true, false, some, List, [], ◌∷◌, ◌++◌, map, arith, Bool-cases,
  inl, inr, done,
}
use https_github_com_open_li.AccessSession.{AccessSession, SessionIp, SessionState}
use https_github_com_open_li.Radius.{RadiusParsed, UserSession}
use https_github_com_open_li.Radius.Fsm.{is_active}
use https_github_com_open_li.Radius.Sessions.{and_then, Progress}
use https_github_com_open_li.Radius.Sessions.Sound.{IsSound}
use https_github_com_open_li.Radius.Iri.{Iri}
use https_github_com_open_li.Radius.Iri.Brackets.{follow-append, follow}
use https_github_com_open_li.Radius.Collector.{
  is_over, has_ended, next_usess, next_thissess, session_records,
}
use https_github_com_open_li.Radius.Collector.Handled.{records}

next_usess-is_active :
    (p : Progress)
    → p.usess.current ≡ p.newstate
    → is_active (next_usess p).current ≡ is_active p.newstate
next_usess-is_active p e = elim (Bool-cases (has_ended p)) [
  | inl h ↦ rw h (sym (over_outside p.newstate (ground (arith, h))))
  | inr h ↦ rw h (ap is_active e)
]
  where
    over_outside : (s : SessionState) → is_over s ≡ true → is_active s ≡ false
    over_outside s h = ground arith

abbrev pub AllSound : List RadiusParsed → Type 0
AllSound [] = Unit {0}
AllSound (m ∷ ms) = IsSound m × AllSound ms

-- The messages of a session that come with the request or response that they need, and whose prefixes have
-- the two bytes in front of the address, all make their records, with no invalid access; and whatever
-- their order, the records follow the life of an access: its begin and its end take turns, updates come
-- in between only, and reports of attempts, rejections and failures outside.
pub session_records-follow :
    (junk : SessionIp) (usess : UserSession) (thissess : AccessSession) (ms : List RadiusParsed)
    → AllSound ms
    → (l : List Iri) × (session_records junk usess thissess ms ≡ done l)
      × ((inside : Bool) × (follow (is_active usess.current) (map (λ i. i.iritype) l)
            ≡ some inside))
unfolding session_records
session_records-follow junk usess thissess [] h = ([], refl, (is_active usess.current, refl))
session_records-follow junk usess thissess (m ∷ ms) h =
    let (p, run, current, old, fit) = records junk m h.0 usess thissess in
    let (l, made, follows) = fit in
    let (k, rest, (inside, ends)) =
      session_records-follow junk (next_usess p) (next_thissess p) ms h.1 in
    (
      l ++ k,
      rw (run, session_records) (rw (made, rest) refl),
      (
        inside,
        ap (follow (is_active usess.current)) (map-append (λ (i : Iri). i.iritype) l k)
            ∙ follow-append (is_active usess.current) (map (λ i. i.iritype) l)
                (map (λ i. i.iritype) k)
            ∙ ap (λ o. and_then o (λ c. follow c (map (λ i. i.iritype) k))) follows
            ∙ ap (λ c. follow c (map (λ i. i.iritype) k)) (sym (next_usess-is_active p current))
            ∙ ends,
      ),
    )
