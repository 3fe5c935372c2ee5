-- ===== src/R65c02/Arithmetic.antt =====
-- ADC and SBC of every pair of bytes: the checks behind their laws, which are in its children.
pub mod Sums
pub mod Decimal
use open_mac_for_linux.Base.{
  ℕ, zero, suc, ◌+◌, ◌-◌, ◌*◌, ◌/◌, ◌%◌, ◌^◌, ◌<◌, ◌≤◌, bit_and, bit_or, bit_xor, Bool, true, false,
  not, ◌&&◌, ◌||◌, same, ◌≡◌, refl, sym, ap, ap₂, ◌∙◌, u8, u32, sub32, not8, not32, ◌<<<◌, ◌>>>◌,
  ltb, leb, ◌==◌, ◌!=◌, if◌then◌else◌, from_bool, arith, every_below, every_below_sound, Bool-cases,
  inl, inr,
}
use open_mac_for_linux.R65c02.{
  R65c02, k_carry, k_zero, k_decimal, k_overflow, k_negative, flag, nz, carry_overflow, added, adc,
  subtracted, sbc, below_zero,
}

-- A property checked at every byte, or at every pair of bytes.
every_byte : (test : ℕ → Bool) → every_below 256 test ≡ true → (x : ℕ) → x < 256 → test x ≡ true
every_byte test e x h = every_below_sound 256 test e x h

pub every_pair :
    (n : ℕ) (test : ℕ → ℕ → Bool)
    → every_below n (λ x. every_below n (test x)) ≡ true
    → (x y : ℕ) → x < n
    → y < n
    → test x y ≡ true
every_pair n test e x y hx hy =
    every_below_sound n (test x) (every_below_sound n (λ x. every_below n (test x)) e x hx) y hy

pub same_equal : (a b : Bool) → same a b ≡ true → a ≡ b
same_equal true true e = refl
same_equal true false e = sym e
same_equal false true e = e
same_equal false false e = refl

pub both : (a b : Bool) → (a && b) ≡ true → (a ≡ true) × (b ≡ true)
both a b e = ground arith

-- The flags that a value leaves.
nz_test : ℕ → ℕ → Bool
nz_test v p =
    same (flag (nz v p) k_carry) (flag p k_carry)
    && (same (flag (nz v p) k_overflow) (flag p k_overflow)
        && (same (flag (nz v p) k_zero) (v == 0) && same (flag (nz v p) k_negative) (leb 128 v)))

nz_checked : every_below 256 (λ v. every_below 256 (nz_test v)) ≡ true
unfolding every_below nz_test nz
nz_checked = refl

pub record IsTold (v p : ℕ) : Type 0 where
  pub carry : flag (nz v p) k_carry ≡ flag p k_carry
  pub overflow : flag (nz v p) k_overflow ≡ flag p k_overflow
  pub zeroed : flag (nz v p) k_zero ≡ (v == 0)
  pub negative : flag (nz v p) k_negative ≡ leb 128 v

pub nz-IsTold : (v p : ℕ) → v < 256 → p < 256 → IsTold v p
unfolding nz_test
nz-IsTold v p hv hp =
    let all = every_pair 256 nz_test nz_checked v p hv hp in
    let first = both (same (flag (nz v p) k_carry) (flag p k_carry)) _ all in
    let second = both (same (flag (nz v p) k_overflow) (flag p k_overflow)) _ first.1 in
    let third = both (same (flag (nz v p) k_zero) (v == 0)) _ second.1 in
    record {
      carry = same_equal _ _ first.0;
      overflow = same_equal _ _ second.0;
      zeroed = same_equal _ _ third.0;
      negative = same_equal _ _ third.1;
    }

overflow_test : Bool → Bool → ℕ → Bool
overflow_test c o p =
    ltb (carry_overflow p c o) 256
    && (same (flag (carry_overflow p c o) k_carry) c
        && same (flag (carry_overflow p c o) k_overflow) o)

pub record IsCarried (c o : Bool) (p : ℕ) : Type 0 where
  pub byte : carry_overflow p c o < 256
  pub carry : flag (carry_overflow p c o) k_carry ≡ c
  pub overflow : flag (carry_overflow p c o) k_overflow ≡ o

overflow_checked : (c o : Bool) → every_below 256 (overflow_test c o) ≡ true
unfolding every_below overflow_test
overflow_checked true true = refl
overflow_checked true false = refl
overflow_checked false true = refl
overflow_checked false false = refl

pub carry_overflow-IsCarried : (c o : Bool) (p : ℕ) → p < 256 → IsCarried c o p
unfolding overflow_test
carry_overflow-IsCarried c o p h =
    let all = every_byte (overflow_test c o) (overflow_checked c o) p h in
    let first = both (ltb (carry_overflow p c o) 256) _ all in
    let second = both (same (flag (carry_overflow p c o) k_carry) c) _ first.1 in
    record {
      byte = omega arith;
      carry = same_equal _ _ second.0;
      overflow = same_equal _ _ second.1;
    }

-- Bytes as signed numbers, raised by 128; a sum of two is in range between 128 and 383.
abbrev pub raised : ℕ → ℕ
raised v = (v + 128) % 256

abbrev pub out_of_range : ℕ → Bool
out_of_range n = ltb n 128 || ltb 383 n

abbrev pub sum_overflow : ℕ → ℕ → ℕ → Bool
sum_overflow a v binary = bit_and (bit_and (not32 (bit_xor a v)) (bit_xor a binary)) 0x80 != 0

abbrev pub difference_overflow : ℕ → ℕ → ℕ → Bool
difference_overflow a v binary = bit_and (bit_and (bit_xor a v) (bit_xor a binary)) 0x80 != 0

pub sum_test : Bool → ℕ → ℕ → Bool
sum_test b a v =
    let carry = if b then 1 else 0 in
    same (sum_overflow a v (a + v + carry)) (out_of_range (raised a + raised v + carry))

pub sum_checked : (b : Bool) → every_below 256 (λ a. every_below 256 (sum_test b a)) ≡ true
unfolding every_below sum_test
sum_checked true = refl
sum_checked false = refl

-- A subtraction beside the addition of the complement.
pub difference_test : Bool → ℕ → ℕ → Bool
difference_test b a v =
    let carry = if b then 1 else 0 in
    let binary = sub32 (sub32 a v) (if b then 0 else 1) in
    let sum = a + (255 - v) + carry in
    (u8 binary == u8 sum)
    && (same (not (below_zero binary)) (ltb 0xFF sum)
        && same (difference_overflow a v binary) (sum_overflow a (255 - v) sum))

pub difference_checked :
    (b : Bool) → every_below 256 (λ a. every_below 256 (difference_test b a)) ≡ true
unfolding every_below difference_test
difference_checked true = refl
difference_checked false = refl
