-- ===== src/Size/Units.antt =====
-- The arithmetic of sizes (enova/common/utils.py).
use enova.Prelude.{◌≡◌, ap, ◌+◌, arith}
use enova.Prelude.Int.{ℤ, pos, negsuc, pos_part, neg_part, sub_ℕ}
use enova.Size.{DiskSize, add, sub}

sub_ℕ-restore :
    (m n : ℤ)
    → sub_ℕ
        (pos_part (sub_ℕ (pos_part m + pos_part n) (neg_part m + neg_part n)) + neg_part n)
        (neg_part (sub_ℕ (pos_part m + pos_part n) (neg_part m + neg_part n)) + pos_part n)
      ≡ m
sub_ℕ-restore (pos a) (pos b) = ground arith
sub_ℕ-restore (pos a) (negsuc b) = ground arith
sub_ℕ-restore (negsuc a) (pos b) = ground arith
sub_ℕ-restore (negsuc a) (negsuc b) = ground arith

-- Subtracting a size that was added gives back the size.
pub sub-add : (d e : DiskSize) → (sub (add d e) e ≡ d)
unfolding sub add
sub-add d e =
    ap (λ n. record { bytes = n; is_binary = d.is_binary }) (sub_ℕ-restore d.bytes e.bytes)
