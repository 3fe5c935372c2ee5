-- ===== src/Base/Bits.antt =====
-- The binary digits of `&`, `|` and `^`: each digit of the result is that of the two digits.
use Prim.Native.Nat.{ℕ, zero, suc, ◌+◌, ◌-◌, ◌*◌, ◌/◌, ◌%◌, ◌^◌, ◌≤◌, ◌<◌, min, max}
use Prim.Native.Nat.{bit_and, bit_or, bit_xor, digits, bitwise, differ}
use Prim.Native.Nat.{bit_and-bitwise, bit_or-bitwise, bit_xor-bitwise}
use mathlib.Core.Path.{◌≡◌, refl, ap, ap₂, ◌∙◌, sym}
use mathlib.Core.Bool.{Bool, true, ◌&&◌}
use open_mac_for_linux.Base.Word.{from_bool, ◌==◌, if◌then◌else◌, ◌!=◌, not8, not16}
use native.Mathlib.Nat.{
  pow-suc, one-le-pow, le_refl, mod-eq_of_lt, add-mul-mod_self_left, mod-lt, div-add-mod,
  div-div-eq-div-mul, zero-mul,
}
use native.Mathlib.Omega.{arith}

-- Digit `k` of `x`, 0 or 1.
abbrev pub bit : ℕ → ℕ → ℕ
bit x zero = x % 2
bit x (suc k) = bit (x / 2) k

module _ (z : ℕ → ℕ) (f : ℕ → ℕ → ℕ) where
  -- Any two counts that cover `a` give the same digits.
  digits_cover : (m n a b : ℕ) → a ≤ m → a ≤ n → digits z f m a b ≡ digits z f n a b
  digits_cover (suc m) (suc n) (suc a) b h k =
      ap (λ (t : ℕ). t * 2 + f (suc a % 2) (b % 2))
        (digits_cover m n (suc a / 2) (b / 2) (omega arith) (omega arith))
  digits_cover zero zero a b h k = refl
  digits_cover (suc m) (suc n) zero b h k = refl
  digits_cover zero (suc n) zero b h k = refl
  digits_cover zero (suc n) (suc a) b h k = elim h [ ]
  digits_cover (suc m) zero zero b h k = refl
  digits_cover (suc m) zero (suc a) b h k = elim k [ ]

  bitwise_unroll :
      (a b : ℕ)
      → bitwise z f (suc a) b ≡ bitwise z f (suc a / 2) (b / 2) * 2 + f (suc a % 2) (b % 2)
  bitwise_unroll a b =
      ap (λ (t : ℕ). t * 2 + f (suc a % 2) (b % 2))
        (digits_cover a (suc a / 2) (suc a / 2) (b / 2) (omega arith) (le_refl _))

pub bit_and-half : (a b : ℕ) → bit_and a b ≡ bit_and (a / 2) (b / 2) * 2 + min (a % 2) (b % 2)
bit_and-half zero b = simp bit_and-bitwise (omega arith)
bit_and-half (suc a) b = simp bit_and-bitwise (bitwise_unroll (λ y. 0) min a b)

pub bit_or-half : (a b : ℕ) → bit_or a b ≡ bit_or (a / 2) (b / 2) * 2 + max (a % 2) (b % 2)
bit_or-half zero b = simp bit_or-bitwise (omega arith)
bit_or-half (suc a) b = simp bit_or-bitwise (bitwise_unroll (λ y. y) max a b)

differ-digits : (x y : ℕ) → x < 2 → y < 2 → differ x y ≡ (x + y) % 2
differ-digits zero y h k = omega arith
differ-digits (suc zero) zero h k = refl
differ-digits (suc zero) (suc zero) h k = refl
differ-digits (suc zero) (suc (suc y)) h k = absurd (omega arith)
differ-digits (suc (suc x)) y h k = absurd (omega arith)

pub bit_xor-half : (a b : ℕ) → bit_xor a b ≡ bit_xor (a / 2) (b / 2) * 2 + (a % 2 + b % 2) % 2
bit_xor-half zero b = simp bit_xor-bitwise (omega arith)
bit_xor-half (suc a) b =
    rw (← differ-digits (suc a % 2) (b % 2) (omega arith) (omega arith))
      (simp bit_xor-bitwise (bitwise_unroll (λ y. y) differ a b))

-- The digit laws.
pub bit-lt : (x k : ℕ) → bit x k < 2
bit-lt x zero = omega arith
bit-lt x (suc k) = bit-lt (x / 2) k

zero-bit : (k : ℕ) → bit 0 k ≡ 0
zero-bit zero = refl
zero-bit (suc k) = zero-bit k

pub bit-bit_and : (a b k : ℕ) → bit (bit_and a b) k ≡ min (bit a k) (bit b k)
bit-bit_and a b zero = omega (arith, bit_and-half a b)
bit-bit_and a b (suc k) =
    let halved : bit_and a b / 2 ≡ bit_and (a / 2) (b / 2) = omega (arith, bit_and-half a b) in
    rw halved (bit-bit_and (a / 2) (b / 2) k)

pub bit-bit_or : (a b k : ℕ) → bit (bit_or a b) k ≡ max (bit a k) (bit b k)
bit-bit_or a b zero = omega (arith, bit_or-half a b)
bit-bit_or a b (suc k) =
    let halved : bit_or a b / 2 ≡ bit_or (a / 2) (b / 2) = omega (arith, bit_or-half a b) in
    rw halved (bit-bit_or (a / 2) (b / 2) k)

pub bit-bit_xor : (a b k : ℕ) → bit (bit_xor a b) k ≡ (bit a k + bit b k) % 2
bit-bit_xor a b zero = omega (arith, bit_xor-half a b)
bit-bit_xor a b (suc k) =
    let halved : bit_xor a b / 2 ≡ bit_xor (a / 2) (b / 2) = omega (arith, bit_xor-half a b) in
    rw halved (bit-bit_xor (a / 2) (b / 2) k)

-- Numbers of `n` digits with the same digits are equal.
pub bits_ext : (n a b : ℕ) → a < 2 ^ n → b < 2 ^ n → ((k : ℕ) → k < n → bit a k ≡ bit b k) → a ≡ b
bits_ext zero a b h k e = omega arith
bits_ext (suc n) a b h k e = omega (
  arith,
  e 0 (omega arith),
  bits_ext n (a / 2) (b / 2) (omega (arith, pow-suc 2 n)) (omega (arith, pow-suc 2 n))
      (λ j below. e (suc j) (omega arith)),
)

-- Nothing on one side.
pub zero-bit_and : (b : ℕ) → bit_and 0 b ≡ 0
zero-bit_and b = simp bit_and-bitwise

bit_and-zero_upto : (n a : ℕ) → a ≤ n → bit_and a 0 ≡ 0
bit_and-zero_upto n zero h = refl
bit_and-zero_upto zero (suc a) h = elim h [ ]
bit_and-zero_upto (suc n) (suc a) h =
    omega (arith, bit_and-half (suc a) 0, bit_and-zero_upto n (suc a / 2) (omega arith))

pub bit_and-zero : (a : ℕ) → bit_and a 0 ≡ 0
bit_and-zero a = bit_and-zero_upto a a (le_refl _)

bit_or-zero_upto : (n a : ℕ) → a ≤ n → bit_or a 0 ≡ a
bit_or-zero_upto n zero h = refl
bit_or-zero_upto zero (suc a) h = elim h [ ]
bit_or-zero_upto (suc n) (suc a) h =
    omega (arith, bit_or-half (suc a) 0, bit_or-zero_upto n (suc a / 2) (omega arith))

pub bit_or-zero : (a : ℕ) → bit_or a 0 ≡ a
bit_or-zero a = bit_or-zero_upto a a (le_refl _)

-- Bounds.
bit_and-le_upto : (n a b : ℕ) → a ≤ n → (bit_and a b ≤ a) × (bit_and a b ≤ b)
bit_and-le_upto n zero b h = omega (arith, zero-bit_and b)
bit_and-le_upto zero (suc a) b h = elim h [ ]
bit_and-le_upto (suc n) (suc a) b h =
    omega (arith, bit_and-half (suc a) b, bit_and-le_upto n (suc a / 2) (b / 2) (omega arith))

pub bit_and-le_left : (a b : ℕ) → bit_and a b ≤ a
bit_and-le_left a b = (bit_and-le_upto a a b (le_refl _)).0

pub bit_and-le_right : (a b : ℕ) → bit_and a b ≤ b
bit_and-le_right a b = (bit_and-le_upto a a b (le_refl _)).1

pub bit_or-lt : (n a b : ℕ) → a < 2 ^ n → b < 2 ^ n → bit_or a b < 2 ^ n
bit_or-lt zero zero zero h k = omega arith
bit_or-lt zero zero (suc b) h k = absurd (omega arith)
bit_or-lt zero (suc a) b h k = absurd (omega arith)
bit_or-lt (suc n) a b h k = omega (
  arith,
  bit_or-half a b,
  pow-suc 2 n,
  bit_or-lt n (a / 2) (b / 2) (omega (arith, pow-suc 2 n)) (omega (arith, pow-suc 2 n)),
)

pub bit_xor-lt : (n a b : ℕ) → a < 2 ^ n → b < 2 ^ n → bit_xor a b < 2 ^ n
bit_xor-lt zero zero zero h k = omega arith
bit_xor-lt zero zero (suc b) h k = absurd (omega arith)
bit_xor-lt zero (suc a) b h k = absurd (omega arith)
bit_xor-lt (suc n) a b h k = omega (
  arith,
  bit_xor-half a b,
  pow-suc 2 n,
  bit_xor-lt n (a / 2) (b / 2) (omega (arith, pow-suc 2 n)) (omega (arith, pow-suc 2 n)),
)

-- One digit, low digits, and fields side by side.
pub bit_and_pow : (k a : ℕ) → bit_and a (2 ^ k) ≡ bit a k * 2 ^ k
bit_and_pow zero a = omega (arith, bit_and-half a 1, bit_and-zero (a / 2))
bit_and_pow (suc k) a = omega (
  arith,
  bit_and-half a (2 ^ suc k),
  pow-suc 2 k,
  bit_and_pow k (a / 2),
  ap (λ (t : ℕ). bit (a / 2) k * t) (pow-suc 2 k),
  ap (λ (t : ℕ). bit_and (a / 2) t) (half_pow k),
)
  where
    half_pow : (k : ℕ) → 2 ^ suc k / 2 ≡ 2 ^ k
    half_pow k = omega (arith, pow-suc 2 k)

half_low : (k : ℕ) → (2 ^ suc k - 1) / 2 ≡ 2 ^ k - 1
half_low k = omega (arith, pow-suc 2 k, one-le-pow k 2 (omega arith))

mod_double : (a m : ℕ) → 1 ≤ m → a % (2 * m) ≡ 2 * (a / 2 % m) + a % 2
mod_double a m h =
    ap (λ (t : ℕ). t % (2 * m)) parts
    ∙ add-mul-mod_self_left (2 * (a / 2 % m) + a % 2) (2 * m) (a / 2 / m)
    ∙ mod-eq_of_lt small
  where
    below : a / 2 % m < m
    below = mod-lt (a / 2) h

    parts : a ≡ 2 * (a / 2 % m) + a % 2 + 2 * m * (a / 2 / m)
    parts = omega (arith, div-add-mod (a / 2) m)

    small : 2 * (a / 2 % m) + a % 2 < 2 * m
    small = omega (arith, below)

mod_pow_suc : (k a : ℕ) → a % 2 ^ suc k ≡ 2 * (a / 2 % 2 ^ k) + a % 2
mod_pow_suc k a =
    ap (λ (t : ℕ). a % t) (omega (arith, pow-suc 2 k))
    ∙ mod_double a (2 ^ k) (one-le-pow k 2 (omega arith))

div_pow_suc : (k a : ℕ) → a / 2 ^ suc k ≡ a / 2 / 2 ^ k
div_pow_suc k a =
    ap (λ (t : ℕ). a / t) (omega (arith, pow-suc 2 k)) ∙ sym (div-div-eq-div-mul a 2 (2 ^ k))

mod_one : (a : ℕ) → a % 2 ^ zero ≡ 0
mod_one a = omega arith

div_one : (a : ℕ) → a / 2 ^ zero ≡ a
div_one a = omega arith

module _ (op d : ℕ → ℕ → ℕ) (zeros : op 0 0 ≡ 0)
    (half : (a b : ℕ) → op a b ≡ op (a / 2) (b / 2) * 2 + d (a % 2) (b % 2)) where
  -- The digits below `k + 1` are the lowest one and those of the halves.
  op_mod :
      (k a b : ℕ)
      → op (a % 2 ^ suc k) (b % 2 ^ suc k)
        ≡ op (a / 2 % 2 ^ k) (b / 2 % 2 ^ k) * 2 + d (a % 2) (b % 2)
  op_mod k a b =
      half (a % 2 ^ suc k) (b % 2 ^ suc k)
      ∙ ap₂ (λ (s t : ℕ). s * 2 + t)
          (ap₂ op (omega (arith, mod_pow_suc k a)) (omega (arith, mod_pow_suc k b)))
          (ap₂ d (omega (arith, mod_pow_suc k a)) (omega (arith, mod_pow_suc k b)))

  -- A digit-wise operation acts on the digits from `k` up and on those below.
  op_split : (k a b : ℕ) → op a b ≡ op (a / 2 ^ k) (b / 2 ^ k) * 2 ^ k + op (a % 2 ^ k) (b % 2 ^ k)
  op_split zero a b =
      omega (arith, zeros, ap₂ op (mod_one a) (mod_one b), ap₂ op (div_one a) (div_one b))
  op_split (suc k) a b = omega (
    arith,
    half a b,
    op_split k (a / 2) (b / 2),
    op_mod k a b,
    ap₂ (λ (s t : ℕ). op s t * 2 ^ k) (div_pow_suc k a) (div_pow_suc k b),
    ap (λ (t : ℕ). op (a / 2 ^ suc k) (b / 2 ^ suc k) * t) (pow-suc 2 k),
  )

-- The same for the three operations.
pub bit_and_split :
    (k a b : ℕ)
    → bit_and a b ≡ bit_and (a / 2 ^ k) (b / 2 ^ k) * 2 ^ k + bit_and (a % 2 ^ k) (b % 2 ^ k)
bit_and_split = op_split bit_and min refl bit_and-half

pub bit_or_split :
    (k a b : ℕ)
    → bit_or a b ≡ bit_or (a / 2 ^ k) (b / 2 ^ k) * 2 ^ k + bit_or (a % 2 ^ k) (b % 2 ^ k)
bit_or_split = op_split bit_or max refl bit_or-half

pub bit_xor_split :
    (k a b : ℕ)
    → bit_xor a b ≡ bit_xor (a / 2 ^ k) (b / 2 ^ k) * 2 ^ k + bit_xor (a % 2 ^ k) (b % 2 ^ k)
bit_xor_split = op_split bit_xor (λ x y. (x + y) % 2) refl bit_xor-half

pub bit_and_low : (k a : ℕ) → bit_and a (2 ^ k - 1) ≡ a % 2 ^ k
bit_and_low zero a = omega (arith, bit_and-zero a)
bit_and_low (suc k) a = omega (
  arith,
  bit_and-half a (2 ^ suc k - 1),
  pow-suc 2 k,
  one-le-pow k 2 (omega arith),
  bit_and_low k (a / 2),
  ap (λ (t : ℕ). bit_and (a / 2) t) (half_low k),
  mod_pow_suc k a,
)

pub bit_or_join : (k q r : ℕ) → r < 2 ^ k → bit_or (q * 2 ^ k) r ≡ q * 2 ^ k + r
bit_or_join zero q r h =
    omega (arith, bit_or-zero (q * 1), ap (λ (t : ℕ). bit_or (q * 1) t) (r_zero r h))
  where
    r_zero : (r : ℕ) → r < 1 → r ≡ 0
    r_zero r h = omega arith
bit_or_join (suc k) q r h = omega (
  arith,
  bit_or-half (q * 2 ^ suc k) r,
  double,
  ap (λ (t : ℕ). bit_or t (r / 2)) halved,
  bit_or_join k q (r / 2) (omega (arith, pow-suc 2 k)),
)
  where
    double : q * 2 ^ suc k ≡ 2 * (q * 2 ^ k)
    double = omega (arith, ap (λ (t : ℕ). q * t) (pow-suc 2 k))

    halved : q * 2 ^ suc k / 2 ≡ q * 2 ^ k
    halved = omega (arith, double)

-- `^` by the same number twice changes nothing.
pub bit_or_comm : (n a b : ℕ) → a < 2 ^ n → b < 2 ^ n → bit_or a b ≡ bit_or b a
bit_or_comm n a b ha hb =
    bits_ext n (bit_or a b) (bit_or b a) (bit_or-lt n a b ha hb) (bit_or-lt n b a hb ha)
      (λ k h. omega (arith, bit-bit_or a b k, bit-bit_or b a k))

pub bit_xor-bit_xor : (n a b : ℕ) → a < 2 ^ n → b < 2 ^ n → bit_xor (bit_xor a b) b ≡ a
bit_xor-bit_xor n a b h k =
    bits_ext n (bit_xor (bit_xor a b) b) a (bit_xor-lt n (bit_xor a b) b (bit_xor-lt n a b h k) k) h
      (λ j below.
        omega (arith, bit-bit_xor (bit_xor a b) b j, bit-bit_xor a b j, bit-lt a j, bit-lt b j))

-- The digits of a power of two, of a remainder and of a complement.
pub bit-pow : (s k : ℕ) → bit (2 ^ s) k ≡ from_bool (s == k)
bit-pow zero zero = refl
bit-pow zero (suc k) = zero-bit k ∙ ground arith
bit-pow (suc s) zero = grind (arith, pow-suc 2 s)
bit-pow (suc s) (suc k) =
    ap (λ (t : ℕ). bit t k) (omega (arith, pow-suc 2 s)) ∙ bit-pow s k ∙ ground arith

pub bit-mod : (n x k : ℕ) → k < n → bit (x % 2 ^ n) k ≡ bit x k
bit-mod zero x k h = elim h [ ]
bit-mod (suc n) x zero h = omega (arith, mod_pow_suc n x)
bit-mod (suc n) x (suc k) h =
    ap (λ (t : ℕ). bit t k) (omega (arith, mod_pow_suc n x)) ∙ bit-mod n (x / 2) k (omega arith)

pub bit-complement : (n x k : ℕ) → k < n → bit (2 ^ n - 1 - x % 2 ^ n) k ≡ 1 - bit x k
bit-complement zero x k h = elim h [ ]
bit-complement (suc n) x zero h =
    omega (arith, mod_pow_suc n x, pow-suc 2 n, mod-lt (x / 2) (one-le-pow n 2 (omega arith)))
bit-complement (suc n) x (suc k) h =
    ap (λ (t : ℕ). bit t k)
      (omega (arith, mod_pow_suc n x, pow-suc 2 n, mod-lt (x / 2) (one-le-pow n 2 (omega arith))))
    ∙ bit-complement n (x / 2) k (omega arith)

-- One digit set, and one digit cleared in a word of 16.
pub bit-bit_or-pow : (x s k : ℕ) → bit (bit_or x (2 ^ s)) k ≡ (if s == k then 1 else bit x k)
bit-bit_or-pow x s k = ground (arith, bit-bit_or x (2 ^ s) k, bit-pow s k, bit-lt x k)

pub bit-clear16 :
    (x m k : ℕ) → k < 16 → bit (bit_and x (not16 m)) k ≡ (if bit m k == 1 then 0 else bit x k)
bit-clear16 x m k h =
    ground (arith, bit-bit_and x (not16 m) k, bit-complement 16 m k h, bit-lt x k, bit-lt m k)

pub bit-clear8 :
    (x m k : ℕ) → k < 8 → bit (bit_and x (not8 m)) k ≡ (if bit m k == 1 then 0 else bit x k)
bit-clear8 x m k h =
    ground (arith, bit-bit_and x (not8 m) k, bit-complement 8 m k h, bit-lt x k, bit-lt m k)

digit-nonzero : (d m : ℕ) → d < 2 → 1 ≤ m → (d * m != 0) ≡ (d == 1)
digit-nonzero zero m h k = rw (zero-mul m) refl
digit-nonzero (suc zero) m h k = ground arith
digit-nonzero (suc (suc d)) m h k = absurd (omega arith)

-- The test `a & (1 << s)`.
pub test-bit : (a s : ℕ) → (bit_and a (2 ^ s) != 0) ≡ (bit a s == 1)
test-bit a s =
    rw (bit_and_pow s a)
      (digit-nonzero (bit a s) (2 ^ s) (bit-lt a s) (one-le-pow s 2 (omega arith)))

-- A test that holds of every number below `n`, by trying them all.
unfoldable pub every_below : ℕ → (ℕ → Bool) → Bool
every_below zero test = true
every_below (suc n) test = test n && every_below n test

pub every_below_sound :
    (n : ℕ) (test : ℕ → Bool) → every_below n test ≡ true → (x : ℕ) → x < n → test x ≡ true
unfolding every_below
every_below_sound zero test passed x h = elim h [ ]
every_below_sound (suc n) test passed x h =
    ground (arith, every_below_sound n test (ground arith) x)
