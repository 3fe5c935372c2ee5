-- ===== src/Cpu/Flags/Arithmetic.antt =====
-- Additions, subtractions and comparisons: their results and their condition codes.
use open_mac_for_linux.Base.{
  ℕ, zero, suc, ◌+◌, ◌-◌, ◌*◌, ◌/◌, ◌%◌, ◌^◌, ◌<◌, bit_and, bit_xor, Bool, true, ◌≡◌, ap, ◌∙◌, not,
  ◌&&◌, ◌||◌, u32, leb, ltb, ◌==◌, ◌!=◌, if◌then◌else◌, same, from_bool, Bool-cases, inl, inr,
  arith, bit, test-bit, bit-bit_and, bit-bit_xor, bit_and_low,
}
use native.Mathlib.Nat.{pow-suc, add-mod_right, mod-eq_of_lt}
use open_mac_for_linux.Cpu.Flags.{mask_for, sign_bit, carry_in, flag}

-- The highest digit of a number below 2 ^ suc n.
pub bit-top : (n a : ℕ) → a < 2 ^ suc n → bit a n ≡ from_bool (leb (2 ^ n) a)
bit-top zero a h = ground arith
bit-top (suc n) a h =
    let deeper : bit (a / 2) n ≡ from_bool (leb (2 ^ n) (a / 2)) =
      bit-top n (a / 2) (omega (arith, pow-suc 2 n, pow-suc 2 (suc n))) in
    ground (arith, deeper, pow-suc 2 n)

pub sub_overflow_digit :
    (n s t r : ℕ)
    → s < 2 ^ suc n
    → t < 2 ^ suc n
    → r < 2 ^ suc n
    → (bit_and (bit_and (bit_xor s t) (bit_xor t r)) (2 ^ n) != 0)
      ≡ (not (same (leb (2 ^ n) s) (leb (2 ^ n) t)) && not (same (leb (2 ^ n) t) (leb (2 ^ n) r)))
sub_overflow_digit n s t r hs ht hr = ground (
  arith,
  test-bit (bit_and (bit_xor s t) (bit_xor t r)) n,
  bit-bit_and (bit_xor s t) (bit_xor t r) n,
  bit-bit_xor s t n,
  bit-bit_xor t r n,
  bit-top n s hs,
  bit-top n t ht,
  bit-top n r hr,
)

-- The position of the sign in an operand of a size.
abbrev pub top_digit : ℕ → ℕ
top_digit size = if size == 0 then 7 else if size == 1 then 15 else 31

-- The signed value of an operand plus 2 ^ n, n its sign's position.
abbrev pub biased : ℕ → ℕ → ℕ
biased n a = if leb (2 ^ n) a then a - 2 ^ n else a + 2 ^ n

pub operand : (size a : ℕ) → bit_and a (mask_for size) ≡ a % 2 ^ suc (top_digit size)
unfolding mask_for
operand size a = ground (arith, bit_and_low 8 a, bit_and_low 16 a, bit_and_low 32 a)

pub sign-top : (size : ℕ) → sign_bit size ≡ 2 ^ top_digit size
unfolding sign_bit
sign-top size = ground arith

pub operand-lt : (size a : ℕ) → a % 2 ^ suc (top_digit size) < 2 ^ suc (top_digit size)
operand-lt size a = ground arith

pub top-small : (size : ℕ) → top_digit size < 32
top-small size = ground arith

pub negative-operand :
    (size a : ℕ)
    → a < 2 ^ suc (top_digit size)
    → (bit_and a (sign_bit size) != 0) ≡ leb (2 ^ top_digit size) a
negative-operand size a h =
    rw (sign-top size) (ground (arith, test-bit a (top_digit size), bit-top (top_digit size) a h))

pub narrow : (size a : ℕ) → bit_and (u32 a) (mask_for size) ≡ a % 2 ^ suc (top_digit size)
narrow size a = operand size (u32 a) ∙ ground arith

-- What an addition of two operands and a carry leaves: the sum in the operand's width, its carry in
-- C and X, a signed result out of range in V, its sign in N, and Z.
pub record IsSum (n s t c r old new k : ℕ) (sticky_z : Bool) : Type 0 where
  pub value : r ≡ (s + t + c) % 2 ^ suc n
  pub carry : flag new (2 ^ 0) ≡ leb (2 ^ suc n) (s + t + c)
  pub extend : flag new (2 ^ 4) ≡ leb (2 ^ suc n) (s + t + c)
  pub overflow :
      flag new (2 ^ 1)
      ≡ (ltb (biased n s + biased n t + c) (2 ^ n) || leb (3 * 2 ^ n) (biased n s + biased n t + c))
  pub negative : flag new (2 ^ 3) ≡ leb (2 ^ n) r
  pub zero_result : flag new (2 ^ 2) ≡ (if sticky_z then (r == 0) && flag old (2 ^ 2) else r == 0)
  pub kept : flag new (2 ^ k) ≡ flag old (2 ^ k)

pub wrap : (m a : ℕ) → a < 2 * m → a % m ≡ (if leb m a then a - m else a)
wrap m a h = elim (Bool-cases (leb m a)) [
  | inl e ↦
      let past : a % m ≡ (a - m) % m = ap (λ (z : ℕ). z % m) (apart e) ∙ add-mod_right (a - m) m in
      let rest : (a - m) % m ≡ a - m = mod-eq_of_lt (ground arith) in ground (arith, past, rest)
  | inr e ↦ let small : a % m ≡ a = mod-eq_of_lt (ground arith) in ground (arith, small)
]
  where
    apart : leb m a ≡ true → a ≡ a - m + m
    apart e = ground arith

pub carry_in-lt : (x : Bool) (sr : ℕ) → carry_in x sr < 2
unfolding carry_in
carry_in-lt x sr = ground arith
