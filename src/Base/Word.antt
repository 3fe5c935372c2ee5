-- ===== src/Base/Word.antt =====
-- Machine words over the native numbers: the casts of openmac/types.hpp, shifts, tests.
use Prim.Native.Nat.{ℕ, ◌+◌, ◌-◌, ◌*◌, ◌/◌, ◌%◌, ◌^◌, compare, Ordering}
use mathlib.Core.Path.{◌≡◌, refl}
use mathlib.Core.Logic.{◌↔◌, ◌⊎◌, inl, inr}
use mathlib.Core.Bool.{Bool, true, false}
use native.Mathlib.Omega.{arith}

abbrev pub u8 : ℕ → ℕ
u8 n = n % 2 ^ 8

abbrev pub u16 : ℕ → ℕ
u16 n = n % 2 ^ 16

abbrev pub u32 : ℕ → ℕ
u32 n = n % 2 ^ 32

infixl 75 ◌<<<◌ ◌>>>◌
abbrev pub ◌<<<◌ : ℕ → ℕ → ℕ
x <<< k = x * 2 ^ k

abbrev pub ◌>>>◌ : ℕ → ℕ → ℕ
x >>> k = x / 2 ^ k

-- `~x` cut to 8, 16 or 32 bits.
abbrev pub not8 : ℕ → ℕ
not8 x = 255 - x % 256

abbrev pub not16 : ℕ → ℕ
not16 x = 65535 - x % 65536

abbrev pub not32 : ℕ → ℕ
not32 x = 4294967295 - x % 4294967296

-- Subtraction of 32-bit words.
abbrev pub sub32 : ℕ → ℕ → ℕ
sub32 a b = (a + 2 ^ 32 - b) % 2 ^ 32

abbrev pub ltb : ℕ → ℕ → Bool
ltb a b = elim (compare a b) [ Ordering.lt ↦ true | _ ↦ false ]

abbrev pub leb : ℕ → ℕ → Bool
leb a b = elim (compare a b) [ Ordering.gt ↦ false | _ ↦ true ]

infix 50 ◌==◌ ◌!=◌
abbrev pub ◌==◌ : ℕ → ℕ → Bool
a == b = elim (compare a b) [ Ordering.eq ↦ true | _ ↦ false ]

abbrev pub ◌!=◌ : ℕ → ℕ → Bool
a != b = elim (compare a b) [ Ordering.eq ↦ false | _ ↦ true ]

infix 1 if◌then◌else◌
abbrev pub if◌then◌else◌ {ℓ} : {A : Type ℓ} → Bool → A → A → A
if true then x else y = x
if false then x else y = y

abbrev pub from_bool : Bool → ℕ
from_bool true = 1
from_bool false = 0

-- Equality of two Boolean values.
abbrev pub same : Bool → Bool → Bool
same true b = b
same false true = false
same false false = true

pub ==_iff : (a b : ℕ) → ((a == b) ≡ true) ↔ (a ≡ b)
==_iff a b = ground arith

-- To split on a computed value and keep the equation.
pub Bool-cases : (b : Bool) → (b ≡ true) ⊎ (b ≡ false)
Bool-cases true = inl refl
Bool-cases false = inr refl
