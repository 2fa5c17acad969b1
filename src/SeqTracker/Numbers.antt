-- ===== src/SeqTracker/Numbers.antt =====
-- The sequence numbers of one communication: no gap and no repetition, whatever else is tracked.
use https_github_com_open_li.Prelude.{
  ℕ, zero, suc, ◌+◌, not, ◌≡◌, refl, sym, ap, ap₂, ◌∙◌, Bool, true, false, ◌&&◌, Option, none, some,
  List, [], ◌∷◌, arith, if◌then◌else◌, ◌==◌, Bool-cases, Option-cases, inl, inr,
}
use https_github_com_open_li.Uthash.{bytes_eq, hash_find}
use https_github_com_open_li.Uthash.Keys.{bytes_eq-eq}
use https_github_com_open_li.SeqTracker.{
  u32, CinSeqno, InterceptState, ExportRecv, EncodingJob, is_cc, has_liid, modify_tracked_intercept,
  remove_tracked_intercept, take_seqno, run_encoding_job, Event, announced, altered, ended,
  reconfigured, received, handle,
}
use https_github_com_open_li.SeqTracker.Sequencing.{
  next_of, same_kind, take_seqno-same, take_seqno-other, cins_of, sequencing,
  sequencing-change_other, sequencing-delete_other, sequencing-reconfigure,
}
use https_github_com_open_li.SeqTracker.Records.{
  known, sequencing-renewed, sequencing-track, run-known, after_record, taken-own,
}

-- whether a record, or an event, belongs to the communication
abbrev pub belongs : List ℕ → ℕ → Bool → ExportRecv → Bool
belongs liid cin cc r = bytes_eq r.liid liid && ((r.cin == cin) && same_kind (is_cc r.type) cc)

abbrev pub event_belongs : List ℕ → ℕ → Bool → Event → Bool
event_belongs liid cin cc (received r) = belongs liid cin cc r
event_belongs liid cin cc _ = false

-- the number of a job in front of the others, if the job belongs to the communication
abbrev pub joined : List ℕ → ℕ → Bool → Option EncodingJob → List ℕ → List ℕ
joined liid cin cc none rest = rest
joined liid cin cc (some j) rest = if belongs liid cin cc j.origreq then j.seqno ∷ rest else rest

-- the numbers of the jobs of the communication, in the order in which they are pushed
abbrev pub numbers : List ℕ → ℕ → Bool → List Event → List InterceptState → List ℕ
numbers liid cin cc [] ss = []
numbers liid cin cc (e ∷ es) ss =
    joined liid cin cc (handle e ss).0 (numbers liid cin cc es (handle e ss).1)

abbrev pub count : List ℕ → ℕ → Bool → List Event → ℕ
count liid cin cc [] = 0
count liid cin cc (e ∷ es) =
    let rest = count liid cin cc es in if event_belongs liid cin cc e then suc rest else rest

-- whether the intercept lasts through an event, or through all of them
abbrev pub outlives : List ℕ → Event → Bool
outlives liid (ended msg) = not (bytes_eq msg.liid liid)
outlives liid _ = true

abbrev pub lasts : List ℕ → List Event → Bool
lasts liid [] = true
lasts liid (e ∷ es) = outlives liid e && lasts liid es

-- `k` numbers from `n` on, modulo 2 ^ 32
abbrev pub upfrom : ℕ → ℕ → List ℕ
upfrom n zero = []
upfrom n (suc k) = n ∷ upfrom (u32 (n + 1)) k

taken-other :
    (liid : List ℕ) (cin : ℕ) (kind : Bool) (r : ExportRecv) (ss : List InterceptState)
    {cs : List CinSeqno}
    → sequencing liid ss ≡ some cs
    → belongs liid cin kind r ≡ false
    → (cs' : List CinSeqno) × (sequencing liid (after_record r ss) ≡ some cs')
      × (next_of cin kind cs' ≡ next_of cin kind cs)
taken-other liid cin kind r ss {cs} h ne = elim (Bool-cases (bytes_eq r.liid liid)) [
  | inl e ↦ (
    (take_seqno r.cin (is_cc r.type) cs).1,
    taken-own r liid ss e h,
    take_seqno-other r.cin cin (is_cc r.type) kind cs (ground (arith, e, ne)),
  )
  | inr e ↦ (
    cs,
    sequencing-change_other r.liid liid
          (λ t. record t { cinsequencing = (take_seqno r.cin (is_cc r.type) t.cinsequencing).1 }) ss
          (λ s. refl) e
        ∙ h,
    refl,
  )
]

-- What one event does to the numbers of a communication whose intercept is known.
handle-other :
    (liid : List ℕ) (cin : ℕ) (kind : Bool) (e : Event) (ss : List InterceptState)
    {cs : List CinSeqno}
    → sequencing liid ss ≡ some cs
    → outlives liid e ≡ true
    → event_belongs liid cin kind e ≡ false
    → (cs' : List CinSeqno) × (sequencing liid (handle e ss).1 ≡ some cs')
      × (next_of cin kind cs' ≡ next_of cin kind cs)
unfolding handle
handle-other liid cin kind (announced msg) ss {cs} h lives ne =
    (cs, sequencing-track liid msg ss h, refl)
handle-other liid cin kind (altered msg) ss {cs} h lives ne =
    (cs, (unfold modify_tracked_intercept in sequencing-renewed liid msg ss h), refl)
handle-other liid cin kind (ended msg) ss {cs} h lives ne = (
  cs,
  unfold remove_tracked_intercept in
      sequencing-delete_other msg.liid liid ss (ground (arith, lives)) ∙ h,
  refl,
)
handle-other liid cin kind reconfigured ss {cs} h lives ne =
    (cs, sequencing-reconfigure liid ss ∙ h, refl)
handle-other liid cin kind (received r) ss {cs} h lives ne =
    unfold run_encoding_job in
    elim (Option-cases (hash_find (has_liid r.liid) ss)) [
      | inl e ↦ (cs, rw (e, run_encoding_job) h, refl)
      | inr (s, e) ↦
          let (cs', after, same) = taken-other liid cin kind r ss h ne in
          (cs', ap (λ x. sequencing liid x.1) (run-known r ss e) ∙ after, same)
    ]

same_kind-eq : (a b : Bool) → same_kind a b ≡ true → a ≡ b
same_kind-eq true true h = refl
same_kind-eq true false h = cc
same_kind-eq false true h = cc
same_kind-eq false false h = refl

numbers-skip :
    (liid : List ℕ) (cin : ℕ) (kind : Bool) (e : Event) (es : List Event) (ss : List InterceptState)
    → event_belongs liid cin kind e ≡ false
    → numbers liid cin kind (e ∷ es) ss ≡ numbers liid cin kind es (handle e ss).1
unfolding handle
numbers-skip liid cin kind (announced msg) es ss ne = refl
numbers-skip liid cin kind (altered msg) es ss ne = refl
numbers-skip liid cin kind (ended msg) es ss ne = refl
numbers-skip liid cin kind reconfigured es ss ne = refl
numbers-skip liid cin kind (received r) es ss ne =
    elim (Option-cases (hash_find (has_liid r.liid) ss)) [
      | inl e ↦
          let q : run_encoding_job ss r ≡ (none, ss) =
            unfold run_encoding_job in rw (e, run_encoding_job) in
          ap (λ x. joined liid cin kind x.0 (numbers liid cin kind es x.1)) q
          ∙ ap (λ x. numbers liid cin kind es x.1) (sym q)
      | inr (s, e) ↦
          let run = run-known r ss e in
          ap (λ x. joined liid cin kind x.0 (numbers liid cin kind es x.1)) run
          ∙ rw ne (ap (λ x. numbers liid cin kind es x.1) (sym run))
    ]

-- A record of the communication takes the next number.
numbers-own :
    (liid : List ℕ) (cin : ℕ) (kind : Bool) (e : Event) (es : List Event) (ss : List InterceptState)
    {cs : List CinSeqno}
    → sequencing liid ss ≡ some cs
    → event_belongs liid cin kind e ≡ true
    → (cs' : List CinSeqno) × (sequencing liid (handle e ss).1 ≡ some cs')
      × (next_of cin kind cs' ≡ u32 (next_of cin kind cs + 1))
      × (numbers liid cin kind (e ∷ es) ss
          ≡ next_of cin kind cs ∷ numbers liid cin kind es (handle e ss).1)
unfolding handle
numbers-own liid cin kind (announced msg) es ss h own = cc
numbers-own liid cin kind (altered msg) es ss h own = cc
numbers-own liid cin kind (ended msg) es ss h own = cc
numbers-own liid cin kind reconfigured es ss h own = cc
numbers-own liid cin kind (received r) es ss {cs} h own =
    let same_liid : bytes_eq r.liid liid ≡ true = ground (arith, own) in
    let same_cin : r.cin ≡ cin = ground (arith, own) in
    let same : is_cc r.type ≡ kind = same_kind-eq (is_cc r.type) kind (ground (arith, own)) in
    let (s, found, cins) = known liid ss h in
    let found' : hash_find (has_liid r.liid) ss ≡ some s =
      ap (λ k. hash_find (has_liid k) ss) (bytes_eq-eq r.liid liid same_liid) ∙ found in
    let run = run-known r ss found' in
    let number : (take_seqno r.cin (is_cc r.type) s.cinsequencing).0 ≡ next_of cin kind cs =
      ap₂ (λ n k. (take_seqno n k s.cinsequencing).0) same_cin same
      ∙ ap (λ l. (take_seqno cin kind l).0) cins in
    (
      (take_seqno cin kind cs).1,
      ap (λ x. sequencing liid x.1) run
          ∙ taken-own r liid ss same_liid h
          ∙ ap₂ (λ n k. some (take_seqno n k cs).1) same_cin same,
      take_seqno-same cin kind cs,
      ap (λ x. joined liid cin kind x.0 (numbers liid cin kind es x.1)) run
          ∙ rw own (ap₂ (λ n x. n ∷ numbers liid cin kind es x) number (sym (ap (λ x. x.1) run))),
    )

consecutive :
    (liid : List ℕ) (cin : ℕ) (kind : Bool) (es : List Event) (ss : List InterceptState)
    {cs : List CinSeqno}
    → sequencing liid ss ≡ some cs
    → lasts liid es ≡ true
    → numbers liid cin kind es ss ≡ upfrom (next_of cin kind cs) (count liid cin kind es)
consecutive liid cin kind [] ss h live = refl
consecutive liid cin kind (e ∷ es) ss {cs} h live =
    elim (Bool-cases (event_belongs liid cin kind e)) [
      | inl own ↦
          let (cs', after, number, split) = numbers-own liid cin kind e es ss h own in
          split
          ∙ ap (λ l. next_of cin kind cs ∷ l)
              (consecutive liid cin kind es (handle e ss).1 after (ground (arith, live))
                ∙ ap (λ n. upfrom n (count liid cin kind es)) number)
          ∙ rw own refl
      | inr ne ↦
          let (cs', after, same) = handle-other liid cin kind e ss h (ground (arith, live)) ne in
          numbers-skip liid cin kind e es ss ne
          ∙ consecutive liid cin kind es (handle e ss).1 after (ground (arith, live))
          ∙ ap (λ n. upfrom n (count liid cin kind es)) same
          ∙ rw ne refl
    ]

-- The records of one communication of a known intercept get consecutive numbers, in the order in which
-- they arrive, through any mix of events in which the intercept itself does not end: records of other
-- communications and intercepts, repeated announcements, changes, ends of other intercepts and
-- reconfigurations.
pub run_encoding_job-consecutive :
    (liid : List ℕ) (cin : ℕ) (kind : Bool) (es : List Event) (ss : List InterceptState)
    (s : InterceptState)
    → hash_find (has_liid liid) ss ≡ some s
    → lasts liid es ≡ true
    → numbers liid cin kind es ss
      ≡ upfrom (take_seqno cin kind s.cinsequencing).0 (count liid cin kind es)
run_encoding_job-consecutive liid cin kind es ss s found live =
    consecutive liid cin kind es ss (ap cins_of found) live
