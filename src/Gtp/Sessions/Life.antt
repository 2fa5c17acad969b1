-- ===== src/Gtp/Sessions/Life.antt =====
-- The records of a GTP session follow the life of an access.
use https_github_com_open_li.Prelude.{
  ℕ, ◌≡◌, refl, ap, ◌∙◌, Bool, Option, none, some, List, [], ◌∷◌, Option-cases, inl, inr, subst,
}
use https_github_com_open_li.AccessSession.{SessionIp, AccessAction}
use https_github_com_open_li.Radius.Iri.Brackets.{follow, follow-append}
use https_github_com_open_li.Radius.Sessions as RadiusSessions
use https_github_com_open_li.Gtp.Sessions.{SavedPkt, GtpSession, Received, gtp_update_session_state}
use https_github_com_open_li.Gtp.Sessions.Records.{
  gtp_iri_of, Table, saved_under, not_applied, gtp_records, AllMatched, is_inside, update-IsFit,
}

-- When every packet is the first of its number, the request or the answer of the saved one, or that once
-- more, the records of a session's packets, in any order and of any numbers, up to the first invalid
-- access, follow the life of an access: a begin only outside it, updates and an end only inside.
pub gtp_records-follow :
    (junk : SessionIp) (table : Table) (g : GtpSession) (ps : List (ℕ × SavedPkt))
    → AllMatched junk table g ps
    → (inside : Bool) × (follow (is_inside g.current) (gtp_records junk table g ps) ≡ some inside)
unfolding gtp_records
gtp_records-follow junk table g [] h = (is_inside g.current, refl)
gtp_records-follow junk table g ((reqid, p) ∷ ps) h =
    elim (Option-cases (gtp_update_session_state junk (table reqid) g (not_applied p))) [
      | inl o ↦ (is_inside g.current, rw (o, gtp_records) refl)
      | inr ((entry, g', act), o) ↦
          let (inside, rest) =
            gtp_records-follow junk (saved_under reqid entry table) g' ps (behind o h.1) in
          (
            inside,
            rw (o, gtp_records)
                (follow-append (is_inside g.current) (gtp_iri_of act)
                    (gtp_records junk (saved_under reqid entry table) g' ps)
                  ∙ ap
                      (λ m.
                        RadiusSessions.and_then m
                          (λ c. follow c (gtp_records junk (saved_under reqid entry table) g' ps)))
                      (update-IsFit junk (table reqid) g (not_applied p) h.0 o)
                  ∙ rest),
          )
    ]
  where
    behind :
        {m : Option Received} {entry : Option SavedPkt} {g' : GtpSession} {act : AccessAction}
        → m ≡ some (entry, g', act)
        → (elim m as (λ _. Type 0) [
          | none ↦ Unit {0}
          | some (entry, g', act) ↦ AllMatched junk (saved_under reqid entry table) g' ps
        ])
        → AllMatched junk (saved_under reqid entry table) g' ps
    behind e k =
        subst
          (λ m. elim m as (λ _. Type 0) [
            | none ↦ Unit {0}
            | some (entry, g', act) ↦ AllMatched junk (saved_under reqid entry table) g' ps
          ])
          e k
