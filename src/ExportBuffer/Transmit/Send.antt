-- ===== src/ExportBuffer/Transmit/Send.antt =====
-- Sending takes bytes from the front of the queue.
use https_github_com_open_li.Prelude.{
  ℕ, ◌+◌, ◌-◌, ◌≤◌, ◌<◌, ◌≡◌, refl, sym, ap, ◌∙◌, false, some, List, [], ◌++◌, arith, ltb, ◌==◌,
  done, length, take, drop, length-take, length-drop, drop-drop, take-append-drop, Bool-cases, inl,
  inr, ◌⊎◌,
}
use https_github_com_open_li.Prelude.Int.{ℤ, pos, negsuc, to_int}
use https_github_com_open_li.ExportBuffer.{ExportBuffer, u32}
use https_github_com_open_li.ExportBuffer.Transmit.{
  Reply, sent, again, broken, amount_to_send, after_send, sent_some, transmit_buffered_records,
}
use https_github_com_open_li.ExportBuffer.Settled.{IsSound, post_transmit-IsSettled}

-- what has not been sent yet: a partial send has taken `partialfront` bytes of the queue already
abbrev pub unsent : ExportBuffer → List ℕ
unsent buf = drop (buf.deadfront + buf.partialfront) buf.bytes

-- a connection does not take more than the length that it is given
abbrev pub Honest : (ℤ → List ℕ → Reply) → Type 0
Honest reply = (n k : ℕ) (offered : List ℕ) → reply (pos n) offered ≡ sent k → k ≤ n

-- the value returned: -1 when nothing went out, or the number of bytes that did
abbrev pub Tells : ℤ → List ℕ → Type 0
Tells ret wire = ((ret ≡ negsuc 0) × (wire ≡ [])) ⊎ (ret ≡ pos (length wire))

sent_some-unsent :
    (buf : ExportBuffer) (n : ℕ) (r : Reply)
    → IsSound buf
    → buf.deadfront + buf.partialfront ≤ length buf.bytes
    → length buf.bytes < 4294967296
    → n < 2147483648
    → n ≤ length (unsent buf)
    → ((k : ℕ) → r ≡ sent k → k ≤ n)
    → (ret : ℤ) × (wire : List ℕ) × (after : ExportBuffer) × (sent_some buf n (unsent buf) r
        ≡ done (ret, wire, after))
      × Tells ret wire
      × (wire ++ unsent after ≡ unsent buf)
      × IsSound after
unfolding sent_some after_send
sent_some-unsent buf n broken h inside small few le honest =
    (negsuc 0, [], buf, refl, inl (refl, refl), refl, h)
sent_some-unsent buf n again h inside small few le honest =
    (pos 0, [], buf, refl, inr refl, refl, h)
sent_some-unsent buf n (sent ret) h inside small few le honest =
    let all = unsent buf in
    let size = length-drop (buf.deadfront + buf.partialfront) buf.bytes in
    let bound : ret ≤ n = honest ret refl in
    let taken : length (take ret all) ≡ ret = omega (arith, length-take ret all) in
    elim (Bool-cases (ltb ret n)) [
      | inl e ↦
          let front : buf.deadfront + u32 (buf.partialfront + ret)
              ≡ buf.deadfront + buf.partialfront + ret =
            omega (arith, size) in
          (
            pos ret,
            take ret all,
            record buf {
              partialfront = u32 (buf.partialfront + ret);
              partialrem = u32 (buf.partialrem + 4294967296 - u32 ret);
            },
            rw e,
            inr (ap pos (sym taken)),
            ap (λ l. take ret all ++ l)
                  (ap (λ k. drop k buf.bytes) front
                    ∙ sym (drop-drop ret (buf.deadfront + buf.partialfront) buf.bytes))
                ∙ take-append-drop ret all,
            record { front = h.front; room = h.room },
          )
      | inr e ↦
          let front : u32 (buf.deadfront + u32 (u32 ret + buf.partialfront))
              ≡ buf.deadfront + buf.partialfront + ret =
            omega (arith, size) in
          let moved : ExportBuffer = record buf {
            deadfront = u32 (buf.deadfront + u32 (u32 ret + buf.partialfront));
          } in
          let (after, eq, settled) =
            post_transmit-IsSettled moved
              (record { front = omega (arith, front, size); room = h.room }) in
          (
            to_int (u32 n),
            take ret all,
            after,
            rw (e, eq, after_send),
            inr (ground (arith, e, taken)),
            ap (λ l. take ret all ++ l)
                  (ap (λ k. drop k after.bytes)
                      (let z : after.deadfront + after.partialfront ≡ after.deadfront =
                          omega (arith, settled.partialfront) in
                        z)
                    ∙ settled.same
                    ∙ ap (λ k. drop k buf.bytes) front
                    ∙ sym (drop-drop ret (buf.deadfront + buf.partialfront) buf.bytes))
                ∙ take-append-drop ret all,
            settled.sound,
          )
    ]

-- A send from a sound buffer of less than 2 ^ 32 bytes, whose fronts lie inside it, puts bytes from
-- the front of the unsent ones on the wire and keeps the others in order, and returns the number of
-- bytes that went out, or -1 if none did, whatever the connection answers, if the amount that the
-- call chooses is at least one byte, below 2 ^ 31 and no more than there is, and the connection
-- takes no more than it is told to.
pub transmit_buffered_records-unsent :
    (reply : ℤ → List ℕ → Reply) (buf : ExportBuffer) (bytelimit n : ℕ)
    → Honest reply
    → IsSound buf
    → buf.deadfront + buf.partialfront ≤ length buf.bytes
    → length buf.bytes < 4294967296
    → amount_to_send buf bytelimit ≡ some n
    → 0 < n
    → n < 2147483648
    → n ≤ length (unsent buf)
    → (ret : ℤ) × (wire : List ℕ) × (after : ExportBuffer) × (transmit_buffered_records reply buf
          bytelimit
        ≡ done (ret, wire, after))
      × Tells ret wire
      × (wire ++ unsent after ≡ unsent buf)
      × IsSound after
unfolding transmit_buffered_records
transmit_buffered_records-unsent reply buf bytelimit n honest h inside small amount some_bytes few
      le =
    let told : to_int (u32 n) ≡ pos n = ground arith in
    let answer = reply (pos n) (unsent buf) in
    let bound : (k : ℕ) → answer ≡ sent k → k ≤ n = λ k e. honest n k (unsent buf) e in
    let some_left : (n == 0) ≡ false = ground arith in
    elim (Bool-cases (ltb 0 buf.partialrem)) [
      | inl e ↦
          rw (amount, e, some_left, told, transmit_buffered_records)
            (sent_some-unsent buf n answer h inside small few le bound)
      | inr e ↦
          rw (amount, e, some_left, told, transmit_buffered_records)
            (sent_some-unsent (record buf { partialrem = u32 n }) n answer
              (record { front = h.front; room = h.room }) inside small few le bound)
    ]
