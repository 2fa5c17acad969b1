-- ===== src/Reassembler/Fragment/Agreement.antt =====
-- `is_ip_reassembled` and `get_next_ip_reassembled` walk the fragments alike.
use https_github_com_open_li.Prelude.{
  ℕ, ◌+◌, ◌*◌, ◌<◌, ◌≡◌, refl, ap, sym, ◌∙◌, Bool, true, false, Option, none, some, List, [], ◌∷◌,
  ◌++◌, length, arith, Outcome, done, aborted, Bool-cases, inl, inr,
}
use https_github_com_open_li.Uthash.{Sorter}
use https_github_com_open_li.Reassembler.Fragment.{
  IpFragment, IpStream, Ret, ready, u16, Gather, Gathered, gap, no_memory, copied, Reassembled,
  sort_fragments, check_fragments, checked, is_ip_reassembled, make_room, grown, must_grow,
  copy_fragment, gather, finished, get_next_ip_reassembled,
}
use https_github_com_open_li.Reassembler.Fragment.InOrder.{Plentiful, cut, total}

abbrev pub is_ready : Ret → Bool
is_ready ready = true
is_ready _ = false

-- what `is_ip_reassembled` would say of what `get_next_ip_reassembled` returned
abbrev pub verdict : Outcome (Reassembled × IpStream) → Outcome (Bool × IpStream)
verdict aborted = aborted
verdict Outcome.out_of_fuel = Outcome.out_of_fuel
verdict (done (r, s)) = done (is_ready r.ret, s)

abbrev reached : Outcome Gathered → Outcome (Option ℕ)
reached aborted = aborted
reached Outcome.out_of_fuel = Outcome.out_of_fuel
reached (done (gap g)) = done none
reached (done (no_memory g)) = done none
reached (done (copied n g)) = done (some n)

make_room-some :
    (mem : ℕ → Bool) (g : Gather) (off n : ℕ)
    → Plentiful mem
    → (g' : Gather) × (make_room mem g off n ≡ some g')
unfolding make_room
make_room-some mem g off n big = elim (Bool-cases (must_grow g off n)) [
  | inl e ↦ (grown g (off + n * 2), rw (e, big (off + n * 2)))
  | inr e ↦ (g, rw e)
]

reached-gather :
    (mem : ℕ → Bool) (fs : List IpFragment) (off : ℕ) (g : Gather)
    → Plentiful mem
    → reached (gather mem fs off g) ≡ check_fragments fs off
unfolding gather check_fragments
reached-gather mem [] off g big = refl
reached-gather mem (f ∷ fs) off g big =
    let (g', e) = make_room-some mem g off f.length big in
    ground (arith, e, reached-gather mem fs (u16 (off + f.length)) (copy_fragment g' off f) big)

-- `checked` reads only where the loop got to
verdict-finished :
    (s : IpStream) (o : Outcome Gathered) → verdict (finished s o) ≡ checked s (reached o)
verdict-finished s aborted = refl
verdict-finished s Outcome.out_of_fuel = refl
verdict-finished s (done (gap g)) = refl
verdict-finished s (done (no_memory g)) = refl
verdict-finished s (done (copied n g)) = ground arith

-- While memory lasts, `is_ip_reassembled` says yes exactly when `get_next_ip_reassembled` would hand
-- back a datagram, fails its assertion exactly when that does, and leaves the same stream.
pub is_ip_reassembled-get_next :
    (sorter : Sorter IpFragment) (mem : ℕ → Bool) (stream : IpStream) (content : Option (List ℕ))
    → Plentiful mem
    → is_ip_reassembled sorter stream ≡ verdict (get_next_ip_reassembled sorter mem stream content)
unfolding is_ip_reassembled get_next_ip_reassembled
is_ip_reassembled-get_next sorter mem stream content big =
    let s = sort_fragments sorter stream in
    let g : Gather = record { content = content; contalloced = 0; len = 0 } in
    sym (
      verdict-finished s (gather mem s.fragments 0 g)
      ∙ ap (checked s) (reached-gather mem s.fragments 0 g big))

check_fragments-cut :
    (cs : List (List ℕ)) (off : ℕ) (more : List IpFragment)
    → off + total cs < 65536
    → check_fragments (cut off cs ++ more) off ≡ check_fragments more (off + total cs)
unfolding check_fragments
check_fragments-cut [] off more room = ap (check_fragments more) (omega arith)
check_fragments-cut (c ∷ cs) off more room =
    let u : u16 (off + length c) ≡ off + length c = omega arith in
    let v : off + length c + total cs ≡ off + total (c ∷ cs) = omega arith in
    ground (arith, u, v, check_fragments-cut cs (off + length c) more (omega arith))

-- Fragments that overlap make both functions fail their assertion: in the sorted table, one that
-- starts before the end of those in front of it, which follow on from offset 0.
pub overlap_aborts :
    (sorter : Sorter IpFragment) (stream : IpStream) (cs : List (List ℕ)) (f : IpFragment)
    (more : List IpFragment)
    → (sort_fragments sorter stream).fragments ≡ cut 0 cs ++ f ∷ more
    → total cs < 65536
    → f.fragoff < total cs
    → is_ip_reassembled sorter stream ≡ aborted
unfolding is_ip_reassembled check_fragments
overlap_aborts sorter stream cs f more e room over =
    let reach =
      ap (λ t. check_fragments t 0) e ∙ check_fragments-cut cs 0 (f ∷ more) (omega arith) in
    let stop : check_fragments (f ∷ more) (0 + total cs) ≡ aborted = ground arith in
    ap (checked (sort_fragments sorter stream)) (reach ∙ stop)
