-- ===== src/Prelude/Equality.antt =====
-- Types whose values a program can compare, with instances for texts, numbers and optional numbers.
use Prim.Native.Nat.{ℕ}
use Prim.Native.String.{String}
use mathlib.Core.Path.{◌≡◌}
use mathlib.Core.Logic.{◌↔◌}
use mathlib.Core.Bool.{Bool, true, false}
use mathlib.Core.Option.{Option, none, some}
use native.Mathlib.Omega.{arith}
use text.Mathlib.TextEquality.{eq_iff}
use text.Mathlib.Text.{◌==◌ as same_text}
use smarty_trader.Prelude.Tests.{nat_beq, nat_beq_iff}

pub record Comparable {ℓ} (K : Type ℓ) : Type ℓ where
  pub test : K → K → Bool
  pub test_iff : (j k : K) → (test j k ≡ true) ↔ (j ≡ k)

module _ {ℓ} {K : Type ℓ} ⦃c : Comparable K⦄ where
  infix 50 ◌==◌
  abbrev pub ◌==◌ : K → K → Bool
  j == k = c.test j k

abbrev pub same_option : Option ℕ → Option ℕ → Bool
same_option none none = true
same_option none (some b) = false
same_option (some a) none = false
same_option (some a) (some b) = nat_beq a b

pub same_option_iff : (a b : Option ℕ) → (same_option a b ≡ true) ↔ (a ≡ b)
same_option_iff none none = ground arith
same_option_iff none (some b) = ground arith
same_option_iff (some a) none = ground arith
same_option_iff (some a) (some b) = ground arith

instance abbrev pub option_eq : Comparable (Option ℕ)
option_eq = record { test = same_option; test_iff = same_option_iff }

instance abbrev pub string_eq : Comparable String
string_eq = record { test = same_text; test_iff = eq_iff }

instance abbrev pub nat_eq : Comparable ℕ
nat_eq = record { test = nat_beq; test_iff = nat_beq_iff }
