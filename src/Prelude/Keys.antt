-- ===== src/Prelude/Keys.antt =====
-- Types with a Boolean equality, as Go's `comparable` types have.
use Prim.Native.Nat.{ℕ}
use mathlib.Core.Path.{◌≡◌}
use mathlib.Core.Logic.{◌↔◌}
use mathlib.Core.Bool.{Bool, true}
use access_management.Prelude.Tests.{◌==◌, ==_iff}
use access_management.Prelude.Text.{Str, str_eq, str_eq_iff}

pub record Comparable {ℓ} (A : Type ℓ) : Type ℓ where
  pub beq : A → A → Bool
  pub beq_iff : (a b : A) → (beq a b ≡ true) ↔ (a ≡ b)

instance abbrev pub nat_comparable : Comparable ℕ
nat_comparable = record { beq = ◌==◌; beq_iff = ==_iff }

instance abbrev pub str_comparable : Comparable Str
str_comparable = record { beq = str_eq; beq_iff = str_eq_iff }
