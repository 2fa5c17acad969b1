-- ===== src/ExportBuffer/Settled.antt =====
-- `post_transmit`: reusing the dead front and giving memory back keep the bytes of the queue.
use https_github_com_open_li.Prelude.{
  ℕ, ◌+◌, ◌-◌, ◌*◌, ◌/◌, ◌≤◌, ◌≡◌, refl, sym, ap, ◌∙◌, true, false, ◌&&◌, List, arith, ltb, leb,
  ◌==◌, done, length, take, drop, take-of_le, drop-of_le, take-append, length-take, length-drop,
  Bool-cases, inl, inr,
}
use https_github_com_open_li.ExportBuffer.{
  ExportBuffer, buffer_alloc_size, reset_export_buffer, slide_buffer, slid_front, post_transmit,
}

-- what is still to be sent or advanced over
abbrev pub live : ExportBuffer → List ℕ
live buf = drop buf.deadfront buf.bytes

-- The dead front is inside the used bytes, and these are inside the allocation.
pub record IsSound (buf : ExportBuffer) : Type 0 where
  pub front : buf.deadfront ≤ length buf.bytes
  pub room : length buf.bytes ≤ buf.alloced

pub slid_bytes :
    (buf : ExportBuffer)
    → IsSound buf
    → take
        (length buf.bytes - buf.deadfront)
        (slide_buffer buf (length buf.bytes - buf.deadfront)).bytes
      ≡ live buf
unfolding slide_buffer
slid_bytes buf h =
    let rem = length buf.bytes - buf.deadfront in
    let size : length (live buf) ≡ rem = length-drop buf.deadfront buf.bytes in
    elim (Bool-cases (rem == 0)) [
      | inl e ↦
          let none_left : rem ≡ 0 = ground (arith, e) in
          rw e (
            ap (λ k. take k buf.bytes) none_left
            ∙ sym (drop-of_le buf.deadfront buf.bytes (omega arith)))
      | inr e ↦ rw e (
          take-append (take rem (live buf)) (drop rem buf.bytes) rem
            (omega (arith, length-take rem (live buf), size))
          ∙ take-of_le rem (live buf) (omega (arith, size)))
    ]

-- the same queue, sound again, and no partial send under way
pub record IsSettled (buf after : ExportBuffer) : Type 0 where
  pub same : live after ≡ live buf
  pub sound : IsSound after
  pub partialfront : after.partialfront ≡ 0
  pub partialrem : after.partialrem ≡ 0

slid_front-IsSettled :
    (buf : ExportBuffer) (alloced : ℕ)
    → IsSound buf
    → length buf.bytes - buf.deadfront ≤ alloced
    → IsSettled buf (
        reset_export_buffer
          (record (slid_front buf (length buf.bytes - buf.deadfront)) { alloced = alloced }))
unfolding reset_export_buffer
slid_front-IsSettled buf alloced h enough =
    let same = slid_bytes buf h in
    record {
      same = same;
      sound = record {
        front = omega arith;
        room = omega (arith, ap length same, length-drop buf.deadfront buf.bytes);
      };
      partialfront = refl;
      partialrem = refl;
    }

pub slide_buffer-alloced : (buf : ExportBuffer) (n : ℕ) → (slide_buffer buf n).alloced ≡ buf.alloced
unfolding slide_buffer
slide_buffer-alloced buf n = ground arith

-- Neither assertion of `post_transmit` fails, and it keeps the queue.
pub post_transmit-IsSettled :
    (buf : ExportBuffer)
    → IsSound buf
    → (after : ExportBuffer) × (post_transmit buf ≡ done after) × IsSettled buf after
unfolding post_transmit reset_export_buffer
post_transmit-IsSettled buf h =
    let used = length buf.bytes in
    let rem = used - buf.deadfront in
    let front : ltb used buf.deadfront ≡ false = ground (arith, h.front) in
    elim (Bool-cases (ltb rem (buf.alloced / 2) && ltb (10 * buffer_alloc_size) buf.alloced)) [
      | inl e ↦ (
        reset_export_buffer (record (slid_front buf rem) {
          alloced = (rem / buffer_alloc_size + 1) * buffer_alloc_size;
        }),
        rw (front, e),
        slid_front-IsSettled buf ((rem / buffer_alloc_size + 1) * buffer_alloc_size) h
            (omega arith),
      )
      | inr e ↦
          elim (Bool-cases
            (ltb (4 * (buf.alloced - used)) buf.alloced && leb buf.alloced (4 * buf.deadfront))) [
              | inl q ↦
                  let below : ltb rem buf.alloced ≡ true = ground (arith, q, h.front, h.room) in
                  (
                    reset_export_buffer (slid_front buf rem),
                    rw (front, e, q, below),
                    slid_front-IsSettled buf (slide_buffer buf rem).alloced h
                        (omega (arith, slide_buffer-alloced buf rem, h.room)),
                  )
              | inr q ↦ (
                reset_export_buffer buf,
                rw (front, e, q),
                record {
                  same = refl;
                  sound = record { front = h.front; room = h.room };
                  partialfront = refl;
                  partialrem = refl;
                },
              )
            ]
    ]
