-- ===== src/Base/Eq.antt =====
-- A Boolean equality, as `operator==` of a key type.
use core_desk.Base.Lists.{text_eq, text_eq→≡, text_eq_refl}
use core_desk.Base.Tests.{◌==◌, ==→≡, ==_refl}
use Prim.Native.Nat.{ℕ}
use mathlib.Core.Bool.{Bool, true}
use mathlib.Core.List.{List}
use mathlib.Core.Path.{◌≡◌}

pub record Eq {ℓ} (A : Type ℓ) : Type ℓ where
  pub beq : A → A → Bool
  pub sound : (a b : A) → beq a b ≡ true → a ≡ b
  pub reflexive : (a : A) → beq a a ≡ true

instance abbrev pub text_has_eq : Eq (List ℕ)
text_has_eq = record { beq = text_eq; sound = text_eq→≡; reflexive = text_eq_refl }

instance abbrev pub nat_has_eq : Eq ℕ
nat_has_eq = record { beq = ◌==◌; sound = ==→≡; reflexive = ==_refl }
