-- ===== src/Reassembler/Fragment/Tests.antt =====
-- Runs of the fragment reassembly, and the theorems at concrete datagrams.
use native.Mathlib.Bridge.{le_prop}
use mathlib.Core.Logic.Or
use mathlib.Core.List.{Mem, mem-cons, not-mem-nil}
use mathlib.Core.List.Perm
use https_github_com_open_li.Prelude.{
  ℕ, ◌+◌, ◌≡◌, refl, sym, subst, true, false, none, List, [], ◌∷◌, arith, done, aborted, length,
}
use https_github_com_open_li.Uthash.{Sorter}
use https_github_com_open_li.Uthash.Insertion.{insertion_sorter}
use https_github_com_open_li.Reassembler.Fragment.{
  IpFragment, IpStream, Ipv4Packet, payload_length, create_new_ipfrag_reassemble_stream,
  get_next_ip_reassembled, is_ip_reassembled,
}
use https_github_com_open_li.Reassembler.Fragment.Arrival.{Arrival, Carries, deliver}
use https_github_com_open_li.Reassembler.Fragment.Roundtrip.{
  handed_back, get_next_ip_reassembled-deliver,
}
use https_github_com_open_li.Reassembler.Fragment.Agreement.{verdict, is_ip_reassembled-get_next}
use https_github_com_open_li.Reassembler.Fragment.Overlap.{overlapping_packets_abort}

abbrev sorter : Sorter IpFragment
sorter = insertion_sorter IpFragment

abbrev first : List ℕ
first = 1 ∷ 2 ∷ 3 ∷ 4 ∷ 5 ∷ 6 ∷ 7 ∷ 8 ∷ []

abbrev second : List ℕ
second = 9 ∷ 10 ∷ []

-- a packet with a header of 20 bytes
abbrev wrap : Arrival → Ipv4Packet
wrap a = record {
  has_header = true;
  ethertype = 0x0800;
  rem = 20 + length a.bytes;
  ip_hl = 5;
  ip_len = 20 + length a.bytes;
  transport = a.bytes;
}

abbrev head_piece : Arrival
head_piece = record { fragoff = 0; more = true; bytes = first }

abbrev tail_piece : Arrival
tail_piece = record { fragoff = 8; more = false; bytes = second }

-- the last piece comes first
abbrev swapped : List Arrival
swapped = tail_piece ∷ head_piece ∷ []

Carries-prop : (a : Arrival) → IsProp (Carries (wrap a) a.bytes)
Carries-prop a = hlevel le_prop

head_piece-Carries : Carries (wrap head_piece) first
unfolding payload_length
head_piece-Carries = record {
  header = refl;
  captured = omega arith;
  beyond = omega arith;
  ipv4 = omega arith;
  sized = refl;
  held = refl;
}

tail_piece-Carries : Carries (wrap tail_piece) second
unfolding payload_length
tail_piece-Carries = record {
  header = refl;
  captured = omega arith;
  beyond = omega arith;
  ipv4 = omega arith;
  sized = refl;
  held = refl;
}

swapped-Carries : (a : Arrival) → Mem a swapped → Carries (wrap a) a.bytes
swapped-Carries a m =
    Or.elim (Carries-prop a) (mem-cons.0 m)
      (λ e. subst (λ x. Carries (wrap x) x.bytes) (sym e) tail_piece-Carries)
      (λ k.
        Or.elim (Carries-prop a) (mem-cons.0 k)
          (λ e. subst (λ x. Carries (wrap x) x.bytes) (sym e) head_piece-Carries)
          (λ n. absurd (not-mem-nil n)))

abbrev id : List ℕ
id = 10 ∷ 0 ∷ 0 ∷ 1 ∷ []

get_next_ip_reassembled-deliver_example :
    (s : IpStream) × (get_next_ip_reassembled sorter
        (λ n. true)
        (deliver wrap (create_new_ipfrag_reassemble_stream id 17) swapped)
        none
      ≡ done (handed_back (first ∷ second ∷ []) 17, s))
get_next_ip_reassembled-deliver_example =
    get_next_ip_reassembled-deliver sorter (λ n. true) wrap id 17 first second [] swapped
      (λ n. refl) (omega arith) (omega arith) (Perm.swap head_piece tail_piece []) swapped-Carries

is_ip_reassembled-get_next_example :
    is_ip_reassembled sorter (deliver wrap (create_new_ipfrag_reassemble_stream id 17) swapped)
    ≡ verdict (
        get_next_ip_reassembled sorter
          (λ n. true)
          (deliver wrap (create_new_ipfrag_reassemble_stream id 17) swapped)
          none)
is_ip_reassembled-get_next_example =
    is_ip_reassembled-get_next sorter (λ n. true)
      (deliver wrap (create_new_ipfrag_reassemble_stream id 17) swapped) none (λ n. refl)

-- the second piece starts at offset 4, inside the first one
abbrev inner_piece : Arrival
inner_piece = record { fragoff = 4; more = false; bytes = second }

inner_piece-Carries : Carries (wrap inner_piece) second
unfolding payload_length
inner_piece-Carries = record {
  header = refl;
  captured = omega arith;
  beyond = omega arith;
  ipv4 = omega arith;
  sized = refl;
  held = refl;
}

overlap-Carries : (a : Arrival) → Mem a (head_piece ∷ inner_piece ∷ []) → Carries (wrap a) a.bytes
overlap-Carries a m =
    Or.elim (Carries-prop a) (mem-cons.0 m)
      (λ e. subst (λ x. Carries (wrap x) x.bytes) (sym e) head_piece-Carries)
      (λ k.
        Or.elim (Carries-prop a) (mem-cons.0 k)
          (λ e. subst (λ x. Carries (wrap x) x.bytes) (sym e) inner_piece-Carries)
          (λ n. absurd (not-mem-nil n)))

overlapping_packets_abort_example :
    is_ip_reassembled sorter
      (deliver wrap (create_new_ipfrag_reassemble_stream id 17) (head_piece ∷ inner_piece ∷ []))
    ≡ aborted
overlapping_packets_abort_example =
    overlapping_packets_abort sorter wrap id 17 head_piece inner_piece
      (head_piece ∷ inner_piece ∷ []) (Perm.refl (head_piece ∷ inner_piece ∷ [])) overlap-Carries
      refl refl (omega arith) (omega arith) (omega arith)
