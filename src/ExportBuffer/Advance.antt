-- ===== src/ExportBuffer/Advance.antt =====
-- Advancing the export buffer takes bytes from the front of the queue.
use https_github_com_open_li.Prelude.{
  ℕ, ◌+◌, ◌-◌, ◌<◌, ◌≡◌, sym, ap, ◌∙◌, List, arith, if◌then◌else◌, ltb, done, length, drop,
  drop-of_le, length-drop, drop-drop, Bool-cases, inl, inr,
}
use https_github_com_open_li.ExportBuffer.{
  ExportBuffer, u32, get_buffered_amount, advance_export_buffer_head,
}
use https_github_com_open_li.ExportBuffer.Settled.{live, IsSound, post_transmit-IsSettled}

drop-capped :
    (xs : List ℕ) (k r : ℕ) → r ≡ length xs → drop (if ltb r k then r else k) xs ≡ drop k xs
drop-capped xs k r h = elim (Bool-cases (ltb r k)) [
  | inl e ↦ rw e (drop-of_le r xs (omega arith) ∙ sym (drop-of_le k xs (ground (arith, e))))
  | inr e ↦ rw e
]

-- Advancing drops that many bytes from the front of the queue, or all of them when it has fewer, and
-- no assertion fails.
pub advance_export_buffer_head-drop :
    (buf : ExportBuffer) (amount : ℕ)
    → IsSound buf
    → length buf.bytes < 4294967296
    → (after : ExportBuffer) × (advance_export_buffer_head buf amount ≡ done after)
      × (live after ≡ drop amount (live buf))
      × (get_buffered_amount after ≡ get_buffered_amount buf - amount)
      × IsSound after
unfolding advance_export_buffer_head get_buffered_amount
advance_export_buffer_head-drop buf amount h small =
    let rem = length buf.bytes - buf.deadfront in
    let n = if ltb rem amount then rem else amount in
    let fits : u32 (buf.deadfront + n) ≡ buf.deadfront + n = ground (arith, h.front) in
    let moved : ExportBuffer = record buf { deadfront = u32 (buf.deadfront + n) } in
    let sound : IsSound moved = record { front = ground (arith, h.front); room = h.room } in
    let (after, eq, settled) = post_transmit-IsSettled moved sound in
    let size = length-drop buf.deadfront buf.bytes in
    let cut : drop n (live buf) ≡ drop amount (live buf) =
      drop-capped (live buf) amount rem (sym size) in
    let same : live after ≡ drop amount (live buf) =
      settled.same
      ∙ ap (λ k. drop k buf.bytes) fits
      ∙ sym (drop-drop n buf.deadfront buf.bytes)
      ∙ cut in
    (
      after,
      eq,
      same,
      omega (
        arith,
        ap length same,
        length-drop after.deadfront after.bytes,
        length-drop amount (live buf),
        size,
      ),
      settled.sound,
    )
