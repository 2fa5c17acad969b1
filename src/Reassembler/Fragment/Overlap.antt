-- ===== src/Reassembler/Fragment/Overlap.antt =====
-- What two overlapping fragments do to the reassembly.
use native.Mathlib.Bridge.{le_prop}
use mathlib.Core.List.{Mem, Perm, Pairwise, Pairwise-map, not-mem-nil, mem-cons}
use mathlib.Core.Logic.Or
use mathlib.Core.List.Pairwise
use mathlib.Core.List.Perm
use https_github_com_open_li.Prelude.{
  ℕ, ◌<◌, ◌≡◌, refl, sym, ap, ◌∙◌, true, false, List, [], ◌∷◌, ◌++◌, map, arith, aborted, length,
}
use https_github_com_open_li.Uthash.{Sorter, sorted_unique}
use https_github_com_open_li.Reassembler.Fragment.{
  IpFragment, IpStream, Ipv4Packet, ipfrag_sort, sort_fragments, is_ip_reassembled,
  create_new_ipfrag_reassemble_stream,
}
use https_github_com_open_li.Reassembler.Fragment.InOrder.{cut}
use https_github_com_open_li.Reassembler.Fragment.Arrival.{
  Arrival, fragment, Carries, Distinct, deliver, deliver-afters, afters, fragments-afters,
  sorted-afters,
}
use https_github_com_open_li.Reassembler.Fragment.Roundtrip.{
  sort_fragments-unsorted, IpFragment-set,
}
use https_github_com_open_li.Reassembler.Fragment.Agreement.{overlap_aborts}

pair_ascending :
    (a b : Arrival)
    → a.fragoff < b.fragoff
    → Pairwise (λ (x y : Arrival). x.fragoff < y.fragoff) (a ∷ b ∷ [])
pair_ascending a b h =
    Pairwise.cons
      (λ c m. Or.elim le_prop (mem-cons.0 m) (λ e. rw e h) (λ k. absurd (not-mem-nil k)))
      (Pairwise.cons (λ c m. absurd (not-mem-nil m)) Pairwise.nil)

-- Two fragments of one stream, the first at offset 0 and the second starting before the first one
-- ends, in either order of arrival: the next call fails its assertion, which stops the collector.
pub overlapping_packets_abort :
    (sorter : Sorter IpFragment) (wrap : Arrival → Ipv4Packet) (ipid : List ℕ) (proto : ℕ)
    (a b : Arrival) (l : List Arrival)
    → Perm l (a ∷ b ∷ [])
    → ((x : Arrival) → Mem x l → Carries (wrap x) x.bytes)
    → a.fragoff ≡ 0
    → a.more ≡ true
    → 0 < b.fragoff
    → b.fragoff < length a.bytes
    → length a.bytes < 65536
    → is_ip_reassembled sorter (deliver wrap (create_new_ipfrag_reassemble_stream ipid proto) l)
      ≡ aborted
unfolding create_new_ipfrag_reassemble_stream ipfrag_sort
overlapping_packets_abort sorter wrap ipid proto a b l p held first more past over room =
    let new = create_new_ipfrag_reassemble_stream ipid proto in
    let asc = pair_ascending a b (omega arith) in
    let apart : Distinct l =
      Perm.pairwise (λ x y. hlevel) (λ x y ne e. ne (sym e)) (Perm.symm p)
        (Pairwise.imp (λ x y lt e. omega arith) asc) in
    let e : deliver wrap new l ≡ afters new l =
      deliver-afters wrap new l (λ x m. (held x m, positive x ((Perm.mem_iff p).0 m))) apart
        (λ x m f k. absurd (not-mem-nil k)) in
    let order : sorter.sort ipfrag_sort (map fragment l) ≡ fragment a ∷ fragment b ∷ [] =
      sorted_unique IpFragment-set (λ f. f.fragoff) (sorter.sort ipfrag_sort (map fragment l))
        (fragment a ∷ fragment b ∷ [])
        (sorter.sort-ascending ipfrag_sort (λ f. f.fragoff) (map fragment l) (λ x y. refl))
        ((Pairwise-map (λ x y. le_prop) fragment).1 asc)
        (Perm.trans (sorter.sort-perm ipfrag_sort (map fragment l)) (Perm.map fragment p)) in
    let table : (sort_fragments sorter (afters new l)).fragments
        ≡ cut 0 (a.bytes ∷ []) ++ fragment b ∷ [] =
      ap (λ (s : IpStream). s.fragments)
        (sort_fragments-unsorted sorter (afters new l) (sorted-afters new l refl))
      ∙ ap (sorter.sort ipfrag_sort) (fragments-afters new l)
      ∙ order
      ∙ ground (arith, first) in
    ap (is_ip_reassembled sorter) e
    ∙ overlap_aborts sorter (afters new l) (a.bytes ∷ []) (fragment b) [] table (omega arith)
        (omega arith)
  where
    positive : (x : Arrival) → Mem x (a ∷ b ∷ []) → x.more ≡ false → 0 < x.fragoff
    positive x m last =
        Or.elim le_prop (mem-cons.0 m)
          (λ e. let f : true ≡ false = sym more ∙ ap (λ (y : Arrival). y.more) (sym e) ∙ last in cc)
          (λ k. Or.elim le_prop (mem-cons.0 k) (λ e. rw e past) (λ n. absurd (not-mem-nil n)))
