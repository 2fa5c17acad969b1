-- ===== src/SeqTracker/Sequencing.antt =====
-- The numbers that an intercept keeps for its communications, and what changes them.
use https_github_com_open_li.Prelude.{
  ℕ, ◌+◌, ◌≡◌, refl, sym, ap, ◌∙◌, Bool, true, false, ◌&&◌, Option, none, some, List, [], ◌∷◌,
  arith, ◌==◌, Bool-cases, inl, inr,
}
use https_github_com_open_li.Uthash.{bytes_eq, hash_find, hash_add, hash_delete}
use https_github_com_open_li.Uthash.Keys.{bytes_eq-eq}
use https_github_com_open_li.SeqTracker.{
  u32, CinSeqno, InterceptState, has_liid, change_intercept, reconfigure_intercepts, take_seqno,
}

-- the number that the next record of a CIN takes
abbrev pub next_of : ℕ → Bool → List CinSeqno → ℕ
next_of cin cc cs = (take_seqno cin cc cs).0

abbrev pub same_kind : Bool → Bool → Bool
same_kind true b = b
same_kind false true = false
same_kind false false = true

pub take_seqno-same :
    (cin : ℕ) (cc : Bool) (cs : List CinSeqno)
    → next_of cin cc (take_seqno cin cc cs).1 ≡ u32 (next_of cin cc cs + 1)
unfolding take_seqno
take_seqno-same cin true [] = ground arith
take_seqno-same cin false [] = ground arith
take_seqno-same cin true (c ∷ cs) = ground (arith, take_seqno-same cin true cs)
take_seqno-same cin false (c ∷ cs) = ground (arith, take_seqno-same cin false cs)

pub take_seqno-other :
    (cin cin' : ℕ) (cc cc' : Bool) (cs : List CinSeqno)
    → ((cin == cin') && same_kind cc cc') ≡ false
    → next_of cin' cc' (take_seqno cin cc cs).1 ≡ next_of cin' cc' cs
unfolding take_seqno
take_seqno-other cin cin' true true [] ne = ground arith
take_seqno-other cin cin' true false [] ne = ground arith
take_seqno-other cin cin' false true [] ne = ground arith
take_seqno-other cin cin' false false [] ne = ground arith
take_seqno-other cin cin' true true (c ∷ cs) ne =
    ground (arith, take_seqno-other cin cin' true true cs ne)
take_seqno-other cin cin' true false (c ∷ cs) ne =
    ground (arith, take_seqno-other cin cin' true false cs ne)
take_seqno-other cin cin' false true (c ∷ cs) ne =
    ground (arith, take_seqno-other cin cin' false true cs ne)
take_seqno-other cin cin' false false (c ∷ cs) ne =
    ground (arith, take_seqno-other cin cin' false false cs ne)

-- the numbers of an intercept, `none` when it is unknown
abbrev pub cins_of : Option InterceptState → Option (List CinSeqno)
cins_of none = none
cins_of (some s) = some s.cinsequencing

abbrev pub sequencing : List ℕ → List InterceptState → Option (List CinSeqno)
sequencing liid ss = cins_of (hash_find (has_liid liid) ss)

abbrev pub map_cins :
    (List CinSeqno → List CinSeqno) → Option (List CinSeqno) → Option (List CinSeqno)
map_cins f none = none
map_cins f (some cs) = some (f cs)

sequencing-found :
    (liid : List ℕ) (s : InterceptState) (ss : List InterceptState)
    → bytes_eq s.details.liid liid ≡ true
    → sequencing liid (s ∷ ss) ≡ some s.cinsequencing
unfolding hash_find has_liid
sequencing-found liid s ss e = ground (arith, e)

sequencing-skip :
    (liid : List ℕ) (s : InterceptState) (ss : List InterceptState)
    → bytes_eq s.details.liid liid ≡ false
    → sequencing liid (s ∷ ss) ≡ sequencing liid ss
unfolding hash_find has_liid
sequencing-skip liid s ss e = ground (arith, e)

pub sequencing-change_same :
    (liid : List ℕ) (f : InterceptState → InterceptState) (g : List CinSeqno → List CinSeqno)
    (ss : List InterceptState)
    → ((s : InterceptState) → (f s).details.liid ≡ s.details.liid)
    → ((s : InterceptState) → (f s).cinsequencing ≡ g s.cinsequencing)
    → sequencing liid (change_intercept liid f ss) ≡ map_cins g (sequencing liid ss)
unfolding change_intercept hash_find has_liid
sequencing-change_same liid f g [] same cins = refl
sequencing-change_same liid f g (s ∷ ss) same cins =
    elim (Bool-cases (bytes_eq s.details.liid liid)) [
      | inl e ↦
          let e' : bytes_eq (f s).details.liid liid ≡ true =
            ap (λ k. bytes_eq k liid) (same s) ∙ e in
          rw e (sequencing-found liid (f s) ss e' ∙ ap some (cins s))
      | inr e ↦ rw (e, e) (sequencing-change_same liid f g ss same cins)
    ]

pub sequencing-change_other :
    (a liid : List ℕ) (f : InterceptState → InterceptState) (ss : List InterceptState)
    → ((s : InterceptState) → (f s).details.liid ≡ s.details.liid)
    → bytes_eq a liid ≡ false
    → sequencing liid (change_intercept a f ss) ≡ sequencing liid ss
unfolding change_intercept hash_find has_liid
sequencing-change_other a liid f [] same ne = refl
sequencing-change_other a liid f (s ∷ ss) same ne = elim (Bool-cases (bytes_eq s.details.liid a)) [
  | inl e ↦
      let other : bytes_eq s.details.liid liid ≡ false =
        ap (λ k. bytes_eq k liid) (bytes_eq-eq s.details.liid a e) ∙ ne in
      let other' : bytes_eq (f s).details.liid liid ≡ false =
        ap (λ k. bytes_eq k liid) (same s) ∙ other in
      rw e (sequencing-skip liid (f s) ss other' ∙ sym (sequencing-skip liid s ss other))
  | inr e ↦ rw e (ground (arith, sequencing-change_other a liid f ss same ne))
]

pub sequencing-delete_other :
    (a liid : List ℕ) (ss : List InterceptState)
    → bytes_eq a liid ≡ false
    → sequencing liid (hash_delete (has_liid a) ss) ≡ sequencing liid ss
unfolding hash_delete hash_find has_liid
sequencing-delete_other a liid [] ne = refl
sequencing-delete_other a liid (s ∷ ss) ne = elim (Bool-cases (bytes_eq s.details.liid a)) [
  | inl e ↦
      let other : bytes_eq s.details.liid liid ≡ false =
        ap (λ k. bytes_eq k liid) (bytes_eq-eq s.details.liid a e) ∙ ne in
      rw e (sym (sequencing-skip liid s ss other))
  | inr e ↦ rw e (ground (arith, sequencing-delete_other a liid ss ne))
]

pub sequencing-reconfigure :
    (liid : List ℕ) (ss : List InterceptState)
    → sequencing liid (reconfigure_intercepts ss) ≡ sequencing liid ss
unfolding reconfigure_intercepts hash_find has_liid
sequencing-reconfigure liid [] = refl
sequencing-reconfigure liid (s ∷ ss) = ground (arith, sequencing-reconfigure liid ss)

pub sequencing-add :
    (liid : List ℕ) (s : InterceptState) (ss : List InterceptState) {cs : List CinSeqno}
    → sequencing liid ss ≡ some cs
    → sequencing liid (hash_add s ss) ≡ some cs
unfolding hash_find has_liid
sequencing-add liid s [] h = cc
sequencing-add liid s (t ∷ ss) {cs} h = ground (arith, sequencing-add liid s ss {cs = cs})
