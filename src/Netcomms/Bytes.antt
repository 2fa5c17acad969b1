-- ===== src/Netcomms/Bytes.antt =====
-- Numbers in network order are read back as they were written, up to their width.
use https_github_com_open_li.Prelude.{ℕ, ◌+◌, ◌*◌, ◌/◌, ◌%◌, ◌≡◌, ap₂, ◌∙◌, List, [], ◌++◌, arith}
use https_github_com_open_li.Netcomms.{be16, be32, be64, load16, load32, load64}

pub load16-be16 : (n : ℕ) (rest : List ℕ) → load16 (be16 n ++ rest) ≡ n % 65536
load16-be16 n rest = omega arith

pub load32-be32 : (n : ℕ) (rest : List ℕ) → load32 (be32 n ++ rest) ≡ n % 4294967296
load32-be32 n rest =
    ap₂ (λ a b. a * 65536 + b) (load16-be16 (n / 65536) []) (load16-be16 n []) ∙ omega arith

pub load64-be64 : (n : ℕ) (rest : List ℕ) → load64 (be64 n ++ rest) ≡ n % 18446744073709551616
load64-be64 n rest =
    ap₂ (λ a b. a * 4294967296 + b) (load32-be32 (n / 4294967296) []) (load32-be32 n [])
    ∙ omega arith
