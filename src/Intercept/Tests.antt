-- ===== src/Intercept/Tests.antt =====
-- Two users, and a mail address, over a few events.
use https_github_com_open_li.Prelude.{ℕ, ◌≡◌, none, some, List, [], ◌∷◌}
use https_github_com_open_li.Intercept.{IpIntercept, EmailIntercept, EmailTarget, liid_of, ref_liid}
use https_github_com_open_li.Intercept.Users.{lookup, IsTable}
use https_github_com_open_li.Intercept.Refinement.{
  IpEvent, announced, ended, after, expected, after-expected, EmailEvent, target_added,
  target_removed, after_email, expected_email, after_email-expected,
}

abbrev ann : List ℕ
ann = 97 ∷ []

abbrev bob : List ℕ
bob = 98 ∷ []

abbrev cept : List ℕ → List ℕ → IpIntercept
cept user liid = record { liid = liid; username = some user }

-- the latest first: the end of the only intercept of one user, a second one of another
abbrev events : List IpEvent
events =
    announced (cept bob (2 ∷ []))
    ∷ ended (cept ann (1 ∷ []))
    ∷ announced (cept bob (1 ∷ []))
    ∷ announced (record { liid = 7 ∷ []; username = none })
    ∷ announced (cept ann (1 ∷ []))
    ∷ []

after-expected_example :
    ((j i : List ℕ) → lookup liid_of j i (after events) ≡ expected events j i)
    × IsTable liid_of (after events)
after-expected_example = after-expected events

still_there : lookup liid_of bob (1 ∷ []) (after events) ≡ some (cept bob (1 ∷ []))
still_there = after-expected_example.0 bob (1 ∷ [])

gone : lookup liid_of ann (1 ∷ []) (after events) ≡ none
gone = after-expected_example.0 ann (1 ∷ [])

abbrev mail : EmailIntercept
mail = record { liid = 3 ∷ [] }

abbrev target : EmailTarget
target = record { address = some ann }

abbrev email_events : List EmailEvent
email_events = target_added mail target ∷ target_removed mail target ∷ target_added mail target ∷ []

after_email-expected_example :
    ((j i : List ℕ)
      → lookup ref_liid j i (after_email email_events) ≡ expected_email email_events j i)
    × IsTable ref_liid (after_email email_events)
after_email-expected_example = after_email-expected email_events
