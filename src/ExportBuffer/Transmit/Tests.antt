-- ===== src/ExportBuffer/Transmit/Tests.antt =====
-- Sending from a small export buffer with a dead front.
use https_github_com_open_li.Prelude.{ℕ, zero, suc, ◌≡◌, refl, List, [], ◌∷◌, ◌++◌, arith, done}
use https_github_com_open_li.Prelude.Int.{ℤ, pos, negsuc}
use https_github_com_open_li.ExportBuffer.{ExportBuffer, init_export_buffer}
use https_github_com_open_li.ExportBuffer.Settled.{IsSound}
use https_github_com_open_li.ExportBuffer.Transmit.Send.{
  unsent, Honest, Tells, transmit_buffered_records-unsent,
}
use https_github_com_open_li.ExportBuffer.Transmit.{
  Reply, sent, broken, amount_to_send, transmit_buffered_records,
}

-- one byte of eight is dead, four are used
abbrev buf : ExportBuffer
buf = record init_export_buffer {
  bytes = 1 ∷ 2 ∷ 3 ∷ 4 ∷ [];
  alloced = 8;
  deadfront = 1;
  partialfront = 1;
}

buf-IsSound : IsSound buf
buf-IsSound = record { front = omega arith; room = omega arith }

-- a connection that takes one byte at a time
abbrev slow : ℤ → List ℕ → Reply
slow (negsuc n) offered = broken
slow (pos zero) offered = sent 0
slow (pos (suc n)) offered = sent 1

slow-Honest : Honest slow
slow-Honest zero k offered e = ground (arith, e)
slow-Honest (suc n) k offered e = ground (arith, e)

transmit_buffered_records-unsent_example :
    (ret : ℤ) × (wire : List ℕ) × (after : ExportBuffer) × (transmit_buffered_records slow buf 100
      ≡ done (ret, wire, after))
    × Tells ret wire
    × (wire ++ unsent after ≡ 3 ∷ 4 ∷ [])
    × IsSound after
unfolding amount_to_send init_export_buffer
transmit_buffered_records-unsent_example =
    transmit_buffered_records-unsent slow buf 100 2 slow-Honest buf-IsSound (omega arith)
      (omega arith) refl (omega arith) (omega arith) (omega arith)
