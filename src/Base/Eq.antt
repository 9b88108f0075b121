-- ===== src/Base/Eq.antt =====
-- Decidable equality of keys as an interface.
use Prim.Native.Nat.{ℕ}
use mathlib.Core.Path.{◌≡◌}
use mathlib.Core.Logic.{◌↔◌}
use mathlib.Core.Bool.{Bool, true}
use proto_relay.Base.Tests.{==_iff, ◌==◌ as nat_beq}
use proto_relay.Base.ByteString.{Bytes, bytes_eq, bytes_eq_iff}

pub record KeyEq {ℓ} (A : Type ℓ) : Type ℓ where
  pub beq : A → A → Bool
  pub beq_iff : (a b : A) → (beq a b ≡ true) ↔ (a ≡ b)

instance abbrev pub nat_key : KeyEq ℕ
nat_key = record { beq = nat_beq; beq_iff = ==_iff }

instance abbrev pub bytes_key : KeyEq Bytes
bytes_key = record { beq = bytes_eq; beq_iff = bytes_eq_iff }
