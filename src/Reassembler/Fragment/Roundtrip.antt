-- ===== src/Reassembler/Fragment/Roundtrip.antt =====
-- A datagram that is cut into fragments is rebuilt from them, in whatever order they arrive.
use native.Mathlib.Bridge.{le_prop}
use native.Mathlib.Nat.{ℕ_set}
use mathlib.Core.Logic.Or
use mathlib.Core.List.{
  Mem, Perm, Pairwise, Pairwise-map, mem-cons, mem-cons_self, not-mem-nil, mem-cons_of_mem, flatten,
}
use mathlib.Core.List.Pairwise
use mathlib.Core.List.Perm
use https_github_com_open_li.Prelude.{
  ℕ, ◌+◌, ◌≤◌, ◌<◌, ◌≡◌, refl, sym, ap, ap₂, ◌∙◌, subst, Bool, true, false, none, some, List, [],
  ◌∷◌, map, arith, length, length-append, done,
}
use https_github_com_open_li.Uthash.{Sorter, sorted_unique}
use https_github_com_open_li.Reassembler.Fragment.{
  IpFragment, IpStream, ready, Ipv4Packet, Reassembled, ipfrag_sort, sort_fragments,
  create_new_ipfrag_reassemble_stream, get_next_ip_reassembled, gather, Gather, finished,
}
use https_github_com_open_li.Reassembler.Fragment.InOrder.{cut, total, Plentiful, gather-cut}
use https_github_com_open_li.Reassembler.Fragment.Arrival.{
  Arrival, fragment, Distinct, Carries, Delivers, deliver, afters, deliver-afters, fragments-afters,
  sorted-afters, subproto-afters, EndsAt, endfrag-afters,
}

-- A datagram cut into chunks: the pieces, the last one flagged.
abbrev pub pieces : ℕ → List (List ℕ) → List Arrival
pieces off [] = []
pieces off (c ∷ []) = record { fragoff = off; more = false; bytes = c } ∷ []
pieces off (c ∷ d ∷ cs) =
    record { fragoff = off; more = true; bytes = c } ∷ pieces (off + length c) (d ∷ cs)

abbrev pub NonEmpty : List (List ℕ) → Type 0
NonEmpty [] = Unit
NonEmpty (c ∷ cs) = (0 < length c) × NonEmpty cs

length-flatten : (cs : List (List ℕ)) → length (flatten cs) ≡ total cs
unfolding flatten
length-flatten [] = refl
length-flatten (c ∷ cs) = omega (arith, length-append c (flatten cs), length-flatten cs)

fragment-pieces : (off : ℕ) (cs : List (List ℕ)) → map fragment (pieces off cs) ≡ cut off cs
fragment-pieces off [] = refl
fragment-pieces off (c ∷ []) = refl
fragment-pieces off (c ∷ d ∷ cs) = ap₂ ◌∷◌ refl (fragment-pieces (off + length c) (d ∷ cs))

pieces-from : (off : ℕ) (cs : List (List ℕ)) (a : Arrival) → Mem a (pieces off cs) → off ≤ a.fragoff
pieces-from off [] a m = absurd (not-mem-nil m)
pieces-from off (c ∷ []) a m =
    Or.elim le_prop (mem-cons.0 m) (λ e. rw e (omega arith)) (λ k. absurd (not-mem-nil k))
pieces-from off (c ∷ d ∷ cs) a m =
    Or.elim le_prop (mem-cons.0 m) (λ e. rw e (omega arith))
      (λ k. omega (arith, pieces-from (off + length c) (d ∷ cs) a k))

pieces-ascending :
    (off : ℕ) (cs : List (List ℕ))
    → NonEmpty cs
    → Pairwise (λ (a b : Arrival). a.fragoff < b.fragoff) (pieces off cs)
pieces-ascending off [] h = Pairwise.nil
pieces-ascending off (c ∷ []) h = Pairwise.cons (λ b k. absurd (not-mem-nil k)) Pairwise.nil
pieces-ascending off (c ∷ d ∷ cs) h =
    Pairwise.cons (λ b k. omega (arith, pieces-from (off + length c) (d ∷ cs) b k))
      (pieces-ascending (off + length c) (d ∷ cs) h.1)

-- a last piece ends where the datagram ends
pieces-end :
    (off : ℕ) (cs : List (List ℕ)) (a : Arrival)
    → Mem a (pieces off cs)
    → a.more ≡ false
    → a.fragoff + length a.bytes ≡ off + total cs
pieces-end off [] a m last = absurd (not-mem-nil m)
pieces-end off (c ∷ []) a m last =
    Or.elim (ℕ_set _ _) (mem-cons.0 m) (λ e. rw e (omega arith)) (λ k. absurd (not-mem-nil k))
pieces-end off (c ∷ d ∷ cs) a m last =
    Or.elim (ℕ_set _ _) (mem-cons.0 m)
      (λ e. let f : true ≡ false = ap (λ (x : Arrival). x.more) (sym e) ∙ last in cc)
      (λ k. omega (arith, pieces-end (off + length c) (d ∷ cs) a k last))

pieces-last :
    (off : ℕ) (c : List ℕ) (cs : List (List ℕ))
    → (a : Arrival) × Mem a (pieces off (c ∷ cs)) × (a.more ≡ false)
pieces-last off c [] = (record { fragoff = off; more = false; bytes = c }, mem-cons_self, refl)
pieces-last off c (d ∷ cs) =
    let (a, m, l) = pieces-last (off + length c) d cs in (a, mem-cons_of_mem _ m, l)

pieces_positive :
    (c d : List ℕ) (cs : List (List ℕ)) (a : Arrival)
    → 0 < length c
    → Mem a (pieces 0 (c ∷ d ∷ cs))
    → a.more ≡ false
    → 0 < a.fragoff
pieces_positive c d cs a h m last =
    Or.elim le_prop (mem-cons.0 m)
      (λ e. let f : true ≡ false = ap (λ (x : Arrival). x.more) (sym e) ∙ last in cc)
      (λ k. omega (arith, pieces-from (0 + length c) (d ∷ cs) a k))

Distinct-pieces :
    (l : List Arrival) (cs : List (List ℕ)) → NonEmpty cs → Perm l (pieces 0 cs) → Distinct l
Distinct-pieces l cs h p =
    Perm.pairwise (λ a b. hlevel) (λ a b ne e. ne (sym e)) (Perm.symm p)
      (Pairwise.imp (λ a b lt e. omega arith) (pieces-ascending 0 cs h))

pub IpFragment-set : IsSet IpFragment
IpFragment-set = hlevel

-- The sort puts the fragments of a datagram into the order of their offsets.
pub sort-cut :
    (sorter : Sorter IpFragment) (l : List Arrival) (cs : List (List ℕ))
    → NonEmpty cs
    → Perm l (pieces 0 cs)
    → sorter.sort ipfrag_sort (map fragment l) ≡ cut 0 cs
unfolding ipfrag_sort
sort-cut sorter l cs h p =
    let key = λ (f : IpFragment). f.fragoff in
    sorted_unique IpFragment-set key (sorter.sort ipfrag_sort (map fragment l)) (cut 0 cs)
      (sorter.sort-ascending ipfrag_sort key (map fragment l) (λ a b. refl))
      (subst (Pairwise (λ (a b : IpFragment). a.fragoff < b.fragoff)) (fragment-pieces 0 cs)
        ((Pairwise-map (λ a b. le_prop) fragment).1 (pieces-ascending 0 cs h)))
      (Perm.trans (sorter.sort-perm ipfrag_sort (map fragment l))
        (subst (λ t. Perm (map fragment l) t) (fragment-pieces 0 cs) (Perm.map fragment p)))

-- what the caller sees of a datagram that is complete
abbrev pub handed_back : List (List ℕ) → ℕ → Reassembled
handed_back cs proto = record {
  ret = ready;
  content = some (flatten cs);
  len = total cs;
  proto = proto;
}

abbrev start : Gather
start = record { content = none; contalloced = 0; len = 0 }

-- A stream whose fragments are those of a datagram, in order, gives the datagram back.
finish-cut :
    (mem : ℕ → Bool) (s : IpStream) (cs : List (List ℕ))
    → Plentiful mem
    → 0 < total cs
    → total cs < 65536
    → s.fragments ≡ cut 0 cs
    → s.endfrag ≡ total cs
    → finished s (gather mem s.fragments 0 start) ≡ done (handed_back cs s.subproto, s)
finish-cut mem s cs big pos room frags end =
    let (g, e, b, l) = gather-cut mem cs 0 start big refl (omega arith) (omega arith) in
    rw (frags, e) (ground (arith, b, l, end, length-flatten cs))

pub sort_fragments-unsorted :
    (sorter : Sorter IpFragment) (stream : IpStream)
    → stream.sorted ≡ false
    → sort_fragments sorter stream
      ≡ record stream { fragments = sorter.sort ipfrag_sort stream.fragments; sorted = true }
unfolding sort_fragments
sort_fragments-unsorted sorter stream h = rw h refl

-- An IPv4 datagram's payload of fewer than 65536 bytes, cut into two or more pieces, none of them
-- empty, that arrive in any order, each once and each in a packet that carries it whole, is handed
-- back by joining the fragments, with its bytes, its length and its protocol, if memory suffices.
pub get_next_ip_reassembled-deliver :
    (sorter : Sorter IpFragment) (mem : ℕ → Bool) (wrap : Arrival → Ipv4Packet) (ipid : List ℕ)
    (proto : ℕ) (c d : List ℕ) (cs : List (List ℕ)) (l : List Arrival)
    → Plentiful mem
    → NonEmpty (c ∷ d ∷ cs)
    → total (c ∷ d ∷ cs) < 65536
    → Perm l (pieces 0 (c ∷ d ∷ cs))
    → ((a : Arrival) → Mem a l → Carries (wrap a) a.bytes)
    → (s : IpStream) × (get_next_ip_reassembled sorter mem
          (deliver wrap (create_new_ipfrag_reassemble_stream ipid proto) l)
          none
        ≡ done (handed_back (c ∷ d ∷ cs) proto, s))
unfolding get_next_ip_reassembled create_new_ipfrag_reassemble_stream
get_next_ip_reassembled-deliver sorter mem wrap ipid proto c d cs l big full room p held =
    let all = c ∷ d ∷ cs in
    let new = create_new_ipfrag_reassemble_stream ipid proto in
    let stream = afters new l in
    let sent : Delivers wrap l =
      λ a m. (held a m, pieces_positive c d cs a full.0 ((Perm.mem_iff p).0 m)) in
    let e : deliver wrap new l ≡ stream =
      deliver-afters wrap new l sent (Distinct-pieces l all full p)
        (λ a m f k. absurd (not-mem-nil k)) in
    let (a, m, last) = pieces-last 0 c (d ∷ cs) in
    let ends : EndsAt (total all) l =
      λ b k q. let h = pieces-end 0 all b ((Perm.mem_iff p).0 k) q in omega arith in
    let end : stream.endfrag ≡ total all =
      endfrag-afters (total all) a new l ends ((Perm.mem_iff p).1 m) last in
    let s = record stream { fragments = sorter.sort ipfrag_sort stream.fragments; sorted = true } in
    let order : s.fragments ≡ cut 0 all =
      ap (sorter.sort ipfrag_sort) (fragments-afters new l) ∙ sort-cut sorter l all full p in
    (
      s,
      ap (λ t. get_next_ip_reassembled sorter mem t none) e
          ∙ ap (λ t. finished t (gather mem t.fragments 0 start))
              (sort_fragments-unsorted sorter stream (sorted-afters new l refl))
          ∙ finish-cut mem s all big (omega (arith, full.0)) room order end
          ∙ ap (λ q. done (handed_back all q, s)) (subproto-afters new l),
    )
