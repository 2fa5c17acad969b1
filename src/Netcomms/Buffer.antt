-- ===== src/Netcomms/Buffer.antt =====
-- The net buffer is a queue: a push adds bytes behind it, a parsed message leaves it from the front.
use https_github_com_open_li.Prelude.{
  ℕ, suc, ◌+◌, ◌-◌, ◌*◌, ◌≤◌, ◌<◌, ◌≡◌, refl, sym, ap, ap₂, ◌∙◌, Bool, true, false, some, List, [],
  ◌∷◌, ◌++◌, append-nil, arith, ltb, leb, ◌==◌, done, length, take, drop, length-append,
  take-append, take-append-drop, drop-append, drop-drop, Bool-cases, inl, inr,
}
use https_github_com_open_li.Netcomms.Bytes.{load16-be16, load64-be64}
use https_github_com_open_li.Netcomms.{
  NetBuffer, netbuf_alloc_size, space_rem, extend_net_buffer, make_space,
  push_generic_onto_net_buffer, Reply, sent, again, broken, advance, transmitted,
  transmit_net_buffer, load16, load64, populate_header, Parsed, message, parse_received_message,
}

-- The free front and the content are inside the allocation.
abbrev pub IsSound : NetBuffer → Type 0
IsSound nb = nb.front + length nb.content ≤ nb.alloced

module _ (mem : ℕ → Bool) (big : (n : ℕ) → mem n ≡ true) where
  -- One extension makes room for any push.
  extend_net_buffer-room :
      (nb : NetBuffer) (len : ℕ)
      → IsSound nb
      → len < 65536
      → (nb' : NetBuffer) × ((extend_net_buffer mem nb len).0 ≡ some nb')
        × (nb'.content ≡ nb.content)
        × (nb'.front + length nb'.content + len ≤ nb'.alloced)
  unfolding extend_net_buffer
  extend_net_buffer-room nb len h short = elim (Bool-cases (leb (3 * nb.alloced) (4 * nb.front))) [
    | inl e ↦ elim (Bool-cases (leb len (nb.alloced - (0 + length nb.content)))) [
      | inl q ↦ (record nb { front = 0 }, rw (e, q), refl, ground (arith, q))
      | inr q ↦ (
        record nb { front = 0; alloced = nb.alloced + netbuf_alloc_size },
        rw (e, q, big (nb.alloced + netbuf_alloc_size)),
        refl,
        omega arith,
      )
    ]
    | inr e ↦ (
      record nb { alloced = nb.alloced + netbuf_alloc_size },
      rw (e, big (nb.alloced + netbuf_alloc_size)),
      refl,
      omega arith,
    )
  ]

  make_space-room :
      (fuel : ℕ) (nb : NetBuffer) (len : ℕ)
      → IsSound nb
      → len < 65536
      → (nb' : NetBuffer) × (make_space mem (suc (suc fuel)) nb len ≡ done (true, nb'))
        × (nb'.content ≡ nb.content)
        × (nb'.front + length nb'.content + len ≤ nb'.alloced)
  unfolding make_space
  make_space-room fuel nb len h short = elim (Bool-cases (ltb (space_rem nb) len)) [
    | inr e ↦ (nb, rw (e, make_space), refl, ground (arith, e))
    | inl e ↦
        let (nb', extended, same, room) = extend_net_buffer-room nb len h short in
        let fits : ltb (space_rem nb') len ≡ false = ground arith in
        (nb', rw (e, extended, fits, make_space), same, room)
  ]

  -- A push puts its bytes behind the content: with memory, one extension is enough.
  pub push_generic-content :
      (fuel : ℕ) (nb : NetBuffer) (pushed : List ℕ)
      → IsSound nb
      → length pushed < 65536
      → (nb' : NetBuffer) × (push_generic_onto_net_buffer mem (suc (suc fuel)) nb pushed
          ≡ done (some (length pushed), nb'))
        × (nb'.content ≡ nb.content ++ pushed)
        × IsSound nb'
  unfolding push_generic_onto_net_buffer make_space
  push_generic-content fuel nb [] h short = (nb, refl, sym (append-nil nb.content), h)
  push_generic-content fuel nb (x ∷ pushed) h short =
      let some_bytes : (length (x ∷ pushed) == 0) ≡ false = ground arith in
      let (nb', made, same, room) = make_space-room fuel nb (length (x ∷ pushed)) h short in
      (
        record nb' { content = nb'.content ++ x ∷ pushed },
        rw (some_bytes, made, push_generic_onto_net_buffer),
        ap (λ l. l ++ x ∷ pushed) same,
        omega (arith, room, length-append nb'.content (x ∷ pushed)),
      )

-- the same for a buffer that holds just that
parse-header :
    (front alloced msgtype intid : ℕ) (body rest : List ℕ)
    → msgtype < 65536
    → length body < 65536
    → intid < 18446744073709551616
    → parse_received_message (record {
      front = front;
      content = populate_header msgtype (length body) intid ++ (body ++ rest);
      alloced = alloced;
    })
      ≡ (
        message msgtype body intid,
        record { front = front + (length body + 16); content = rest; alloced = alloced },
      )
unfolding parse_received_message populate_header
parse-header front alloced msgtype intid body rest small short fits =
    let size = length body in
    let content = populate_header msgtype size intid ++ (body ++ rest) in
    let w = load16 (drop 4 content) in
    let same : w ≡ size = load16-be16 size [] ∙ omega arith in
    let t : load16 (drop 6 content) ≡ msgtype = load16-be16 msgtype [] ∙ omega arith in
    let i : load64 (drop 8 content) ≡ intid = load64-be64 intid [] ∙ omega arith in
    let all = length-append body rest in
    let whole : ltb (length content) 16 ≡ false = ground arith in
    let enough : ltb (length content) (16 + w) ≡ false = ground (arith, same, all) in
    let behind : drop (w + 16) content ≡ rest =
      ap (λ k. drop k content) (let e : w + 16 ≡ 16 + size = omega (arith, same) in e)
      ∙ sym (drop-drop size 16 content)
      ∙ drop-append body rest size refl in
    let answer : ℕ → List ℕ → ℕ → ℕ → List ℕ → Parsed × NetBuffer = λ ty b id k r.
      (message ty b id, record { front = front + (k + 16); content = r; alloced = alloced }) in
    let parsed : parse_received_message
          (record { front = front; content = content; alloced = alloced })
        ≡ answer (load16 (drop 6 content)) (take w (drop 16 content)) (load64 (drop 8 content)) w
            (drop (w + 16) content) =
      rw (whole, enough) in
    parsed
    ∙ ap₂ (λ ty b. answer ty b (load64 (drop 8 content)) w (drop (w + 16) content)) t
        (ap (λ k. take k (body ++ rest)) same ∙ take-append body rest size refl)
    ∙ ap₂ (λ id k. answer msgtype body id k (drop (w + 16) content)) i same
    ∙ ap (answer msgtype body intid size) behind

-- Header and body come back from the front of a buffer, and the bytes behind them stay.
pub parse_received_message-populate_header :
    (nb : NetBuffer) (msgtype intid : ℕ) (body rest : List ℕ)
    → nb.content ≡ populate_header msgtype (length body) intid ++ (body ++ rest)
    → msgtype < 65536
    → length body < 65536
    → intid < 18446744073709551616
    → (nb' : NetBuffer) × (parse_received_message nb ≡ (message msgtype body intid, nb'))
      × (nb'.content ≡ rest)
unfolding parse_received_message populate_header
parse_received_message-populate_header nb msgtype intid body rest h small short fits = (
  record { front = nb.front + (length body + 16); content = rest; alloced = nb.alloced },
  ap (λ c. parse_received_message (record { front = nb.front; content = c; alloced = nb.alloced }))
        h
      ∙ parse-header nb.front nb.alloced msgtype intid body rest small short fits,
  refl,
)

advance-content : (nb : NetBuffer) (ret : ℕ) → (advance nb ret).content ≡ drop ret nb.content
unfolding advance
advance-content nb ret = ground arith

transmitted-content :
    (nb : NetBuffer) (r : Reply)
    → let (ret, wire, nb') = transmitted nb r in wire ++ nb'.content ≡ nb.content
transmitted-content nb again = refl
transmitted-content nb broken = refl
transmitted-content nb (sent ret) =
    ap (λ l. take ret nb.content ++ l) (advance-content nb ret) ∙ take-append-drop ret nb.content

-- A transmission sends bytes from the front of the content and keeps the others, in order, whatever the
-- connection answers.
pub transmit_net_buffer-content :
    (reply : List ℕ → Reply) (nb : NetBuffer)
    → let (ret, wire, nb') = transmit_net_buffer reply nb in wire ++ nb'.content ≡ nb.content
unfolding transmit_net_buffer
transmit_net_buffer-content reply nb = elim (Bool-cases (length nb.content == 0)) [
  | inl e ↦ rw e refl
  | inr e ↦ rw e (transmitted-content nb (reply nb.content))
]
