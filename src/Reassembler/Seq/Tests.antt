-- ===== src/Reassembler/Seq/Tests.antt =====
-- Sequence numbers compared across the wrap of the 32-bit space.
use https_github_com_open_li.Prelude.{◌≡◌, refl, arith}
use https_github_com_open_li.Prelude.Int.{pos, negsuc}
use https_github_com_open_li.Reassembler.Seq.{seq_cmp, seq_cmp-difference}

seq_cmp_runs : seq_cmp 5 4294967290 ≡ pos 11
unfolding seq_cmp
seq_cmp_runs = refl

seq_cmp-difference_example : seq_cmp 4294967290 5 ≡ negsuc 10
seq_cmp-difference_example = seq_cmp-difference 4294967290 5 (omega arith) (omega arith)
