-- ===== src/SeqTracker/Records.antt =====
-- What announcements, changes and records do to the numbers of a known intercept.
use https_github_com_open_li.Prelude.{
  ℕ, ◌≡◌, refl, sym, ap, ◌∙◌, true, none, some, List, [], arith, Bool-cases, Option-cases, inl, inr,
}
use https_github_com_open_li.Uthash.{bytes_eq, hash_find}
use https_github_com_open_li.Uthash.Keys.{bytes_eq-eq}
use https_github_com_open_li.SeqTracker.{
  InterceptMsg, CinSeqno, InterceptState, ExportRecv, is_cc, has_liid, change_intercept, renewed,
  track_new_intercept, take_seqno, run_encoding_job,
}
use https_github_com_open_li.SeqTracker.Sequencing.{
  cins_of, sequencing, map_cins, sequencing-change_same, sequencing-change_other, sequencing-add,
}

pub known :
    (liid : List ℕ) (ss : List InterceptState) {cs : List CinSeqno}
    → sequencing liid ss ≡ some cs
    → (s : InterceptState) × (hash_find (has_liid liid) ss ≡ some s) × (s.cinsequencing ≡ cs)
known liid ss {cs} h = elim (Option-cases (hash_find (has_liid liid) ss)) [
  | inl e ↦ absurd (let q : none ≡ some cs = sym (ap cins_of e) ∙ h in cc)
  | inr (s, e) ↦
      (s, e, (let q : some s.cinsequencing ≡ some cs = sym (ap cins_of e) ∙ h in ground (arith, q)))
]

-- Any other event keeps the numbers of a known intercept.
pub sequencing-renewed :
    (liid : List ℕ) (msg : InterceptMsg) (ss : List InterceptState) {cs : List CinSeqno}
    → sequencing liid ss ≡ some cs
    → sequencing liid (change_intercept msg.liid (renewed msg) ss) ≡ some cs
sequencing-renewed liid msg ss {cs} h = elim (Bool-cases (bytes_eq msg.liid liid)) [
  | inl e ↦
      ap (λ k. sequencing liid (change_intercept k (renewed msg) ss)) (bytes_eq-eq msg.liid liid e)
      ∙ sequencing-change_same liid (renewed msg) (λ l. l) ss (λ s. refl) (λ s. refl)
      ∙ ap (map_cins (λ l. l)) h
  | inr e ↦ sequencing-change_other msg.liid liid (renewed msg) ss (λ s. refl) e ∙ h
]

pub sequencing-track :
    (liid : List ℕ) (msg : InterceptMsg) (ss : List InterceptState) {cs : List CinSeqno}
    → sequencing liid ss ≡ some cs
    → sequencing liid (track_new_intercept ss msg) ≡ some cs
unfolding track_new_intercept
sequencing-track liid msg ss {cs} h = elim (Option-cases (hash_find (has_liid msg.liid) ss)) [
  | inl e ↦
      rw (e, track_new_intercept)
        (sequencing-add liid (record { details = msg; cinsequencing = []; version = 0 }) ss h)
  | inr (s, e) ↦ rw (e, track_new_intercept) (sequencing-renewed liid msg ss h)
]

pub run-known :
    (r : ExportRecv) (ss : List InterceptState) {s : InterceptState}
    → hash_find (has_liid r.liid) ss ≡ some s
    → run_encoding_job ss r ≡ (
      some (record {
        origreq = r;
        seqno = (take_seqno r.cin (is_cc r.type) s.cinsequencing).0;
        cept_version = s.version;
        encryptkey = s.details.encryptkey;
        encryptmethod = s.details.encryptmethod;
      }),
      change_intercept r.liid
          (λ t. record t { cinsequencing = (take_seqno r.cin (is_cc r.type) t.cinsequencing).1 })
          ss,
    )
unfolding run_encoding_job
run-known r ss h = rw (h, run_encoding_job)

-- the intercepts behind a record of the intercept
abbrev pub after_record : ExportRecv → List InterceptState → List InterceptState
after_record r ss =
    change_intercept r.liid
      (λ t. record t { cinsequencing = (take_seqno r.cin (is_cc r.type) t.cinsequencing).1 }) ss

pub taken-own :
    (r : ExportRecv) (liid : List ℕ) (ss : List InterceptState) {cs : List CinSeqno}
    → bytes_eq r.liid liid ≡ true
    → sequencing liid ss ≡ some cs
    → sequencing liid (after_record r ss) ≡ some (take_seqno r.cin (is_cc r.type) cs).1
taken-own r liid ss own h =
    let f : InterceptState → InterceptState =
      λ t. record t { cinsequencing = (take_seqno r.cin (is_cc r.type) t.cinsequencing).1 } in
    let g = λ (l : List CinSeqno). (take_seqno r.cin (is_cc r.type) l).1 in
    ap (λ k. sequencing liid (change_intercept k f ss)) (bytes_eq-eq r.liid liid own)
    ∙ sequencing-change_same liid f g ss (λ s. refl) (λ s. refl)
    ∙ ap (map_cins g) h
