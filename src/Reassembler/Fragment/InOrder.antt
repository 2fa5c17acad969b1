-- ===== src/Reassembler/Fragment/InOrder.antt =====
-- The loop of `get_next_ip_reassembled` over the fragments of one datagram, in order.
use mathlib.Core.List.{flatten}
use https_github_com_open_li.Prelude.{
  ℕ, ◌+◌, ◌*◌, ◌%◌, ◌<◌, ◌≡◌, refl, sym, ap, ◌∙◌, Bool, true, some, List, [], ◌∷◌, ◌++◌, append-nil,
  append_assoc, arith, done, length, drop, take-of_le, drop-of_le, length-append, Bool-cases, inl,
  inr,
}
use https_github_com_open_li.Reassembler.Fragment.{
  IpFragment, u16, write_at, Gather, copied, buffer, must_grow, grown, make_room, copy_fragment,
  gather,
}

-- The fragments that carry the chunks one after the other, from offset `off` on.
abbrev pub cut : ℕ → List (List ℕ) → List IpFragment
cut off [] = []
cut off (c ∷ cs) =
    record { fragoff = off; length = length c; content = c } ∷ cut (off + length c) cs

abbrev pub total : List (List ℕ) → ℕ
total [] = 0
total (c ∷ cs) = length c + total cs

pub write_at_end :
    (off : ℕ) (bytes buf : List ℕ) → length buf ≡ off → write_at off bytes buf ≡ buf ++ bytes
write_at_end off bytes buf h =
    ap (λ t. t ++ bytes ++ drop (off + length bytes) buf) (take-of_le off buf (omega arith))
    ∙ ap (λ t. buf ++ bytes ++ t) (drop-of_le (off + length bytes) buf (omega arith))
    ∙ append-nil (buf ++ bytes)

-- every `realloc` succeeds
abbrev pub Plentiful : (ℕ → Bool) → Type 0
Plentiful mem = (n : ℕ) → mem n ≡ true

make_room_keeps :
    (mem : ℕ → Bool) (g : Gather) (off n : ℕ)
    → Plentiful mem
    → length (buffer g.content) ≡ off
    → (g' : Gather) × (make_room mem g off n ≡ some g')
      × (buffer g'.content ≡ buffer g.content)
      × (g'.len ≡ g.len)
unfolding make_room
make_room_keeps mem g off n big h = elim (Bool-cases (must_grow g off n)) [
  | inl e ↦ (
    grown g (off + n * 2),
    rw (e, big (off + n * 2)),
    take-of_le (off + n * 2) (buffer g.content) (omega arith),
    refl,
  )
  | inr e ↦ (g, rw e, refl, refl)
]

-- One round of the loop, at a fragment that starts where the last one ended.
gather_step :
    (mem : ℕ → Bool) (f : IpFragment) (fs : List IpFragment) (off : ℕ) (g g' : Gather)
    → f.fragoff ≡ off
    → off + f.length < 65536
    → make_room mem g off f.length ≡ some g'
    → gather mem (f ∷ fs) off g ≡ gather mem fs (off + f.length) (copy_fragment g' off f)
unfolding gather
gather_step mem f fs off g g' e room m =
    ground (arith, let u : u16 (off + f.length) ≡ off + f.length = omega arith in u)

-- Over the fragments of `cs` the loop copies the bytes of `cs` behind those already there, and it
-- reaches the offset behind them.
pub gather-cut :
    (mem : ℕ → Bool) (cs : List (List ℕ)) (off : ℕ) (g : Gather)
    → Plentiful mem
    → length (buffer g.content) ≡ off
    → off + total cs < 65536
    → g.len < 65536
    → (g' : Gather) × (gather mem (cut off cs) off g ≡ done (copied (off + total cs) g'))
      × (buffer g'.content ≡ buffer g.content ++ flatten cs)
      × (g'.len ≡ (g.len + total cs) % 65536)
unfolding gather copy_fragment flatten
gather-cut mem [] off g big h room small =
    (g, ap (λ k. done (copied k g)) (omega arith), sym (append-nil (buffer g.content)), omega arith)
gather-cut mem (c ∷ cs) off g big h room small =
    let (g1, e1, b1, l1) = make_room_keeps mem g off (length c) big h in
    let f : IpFragment = record { fragoff = off; length = length c; content = c } in
    let g2 : Gather = copy_fragment g1 off f in
    let b2 : buffer g2.content ≡ buffer g.content ++ c =
      write_at_end off c (buffer g1.content) (ap length b1 ∙ h) ∙ ap (λ t. t ++ c) b1 in
    let n2 : length (buffer g2.content) ≡ off + length c =
      omega (arith, ap length b2, length-append (buffer g.content) c) in
    let (g3, e3, b3, l3) =
      gather-cut mem cs (off + length c) g2 big n2 (omega arith) (omega arith) in
    (
      g3,
      gather_step mem f (cut (off + length c) cs) off g g1 refl (omega arith) e1
          ∙ e3
          ∙ ap (λ k. done (copied k g3)) (omega arith),
      b3 ∙ ap (λ t. t ++ flatten cs) b2 ∙ append_assoc (buffer g.content) c (flatten cs),
      omega (arith, l3, l1),
    )
