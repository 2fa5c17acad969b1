-- ===== src/ExportBuffer/Tests.antt =====
-- The export buffer at a small allocation with a dead front.
use https_github_com_open_li.Prelude.{
  ℕ, ◌≡◌, ◌-◌, refl, true, List, [], ◌∷◌, ◌++◌, arith, done, length,
}
use https_github_com_open_li.ExportBuffer.{
  ExportBuffer, EncodedResult, init_export_buffer, get_buffered_amount, append_message_to_buffer,
  advance_export_buffer_head,
}
use https_github_com_open_li.ExportBuffer.Settled.{live, IsSound}
use https_github_com_open_li.ExportBuffer.Append.{append_message_to_buffer-append}
use https_github_com_open_li.ExportBuffer.Advance.{advance_export_buffer_head-drop}

-- one byte of eight is dead, four are used
abbrev buf : ExportBuffer
buf = record init_export_buffer {
  bytes = 1 ∷ 2 ∷ 3 ∷ 4 ∷ [];
  alloced = 8;
  deadfront = 1;
  partialfront = 1;
}

buf-IsSound : IsSound buf
buf-IsSound = record { front = omega arith; room = omega arith }

-- more than the four bytes that are free
abbrev pdu : List ℕ
pdu = 5 ∷ 6 ∷ 7 ∷ 8 ∷ 9 ∷ []

abbrev result : EncodedResult
result = record {
  header = 5 ∷ 6 ∷ [];
  msglen = 3;
  encoded = 7 ∷ [];
  ipclen = 2;
  ipcontents = 8 ∷ 9 ∷ [];
}

append_message_to_buffer-append_example :
    (after : ExportBuffer) × (append_message_to_buffer (λ n. true) 83 buf result 0
      ≡ done (length after.bytes, after))
    × (live after ≡ live buf ++ pdu)
    × IsSound after
append_message_to_buffer-append_example =
    append_message_to_buffer-append (λ n. true) buf result 0 (λ n. refl) buf-IsSound (omega arith)
      (omega arith) refl refl

advance_export_buffer_head-drop_example :
    (after : ExportBuffer) × (advance_export_buffer_head buf 2 ≡ done after)
    × (live after ≡ 4 ∷ [])
    × (get_buffered_amount after ≡ get_buffered_amount buf - 2)
    × IsSound after
advance_export_buffer_head-drop_example =
    advance_export_buffer_head-drop buf 2 buf-IsSound (omega arith)
