-- ===== src/R65c02/Arithmetic/Sums.antt =====
-- What ADC and SBC compute, in binary and in decimal.
use open_mac_for_linux.Base.{
  ℕ, ◌+◌, ◌-◌, ◌*◌, ◌<◌, Bool, true, false, not, same, ◌≡◌, refl, sym, ap, ap₂, ◌∙◌, u8, sub32, ltb,
  leb, ◌==◌, if◌then◌else◌, from_bool, arith,
}
use open_mac_for_linux.R65c02.{
  R65c02, k_carry, k_zero, k_decimal, k_overflow, k_negative, flag, carry_overflow, added, adc,
  subtracted, sbc, below_zero,
}
use open_mac_for_linux.R65c02.Arithmetic.{
  every_pair, same_equal, both, nz-IsTold, carry_overflow-IsCarried, raised, out_of_range,
  sum_overflow, difference_overflow, sum_test, sum_checked, difference_test, difference_checked,
}

-- An addition in binary, before the sign and zero are set.
abbrev binary_sum : ℕ → ℕ → ℕ → ℕ × ℕ
binary_sum a p value =
    let binary = a + value + (if flag p k_carry then 1 else 0) in
    (u8 binary, carry_overflow p (ltb 0xFF binary) (sum_overflow a value binary))

added_binary : (a p value : ℕ) → flag p k_decimal ≡ false → added a p value ≡ binary_sum a p value
unfolding added
added_binary a p value e = rw e refl

sum_overflow_lem :
    (b : Bool) (a v : ℕ)
    → a < 256
    → v < 256
    → let carry : ℕ = if b then 1 else 0 in
      sum_overflow a v (a + v + carry) ≡ out_of_range (raised a + raised v + carry)
unfolding sum_test
sum_overflow_lem b a v ha hv =
    same_equal _ _ (every_pair 256 (sum_test b) (sum_checked b) a v ha hv)

-- What an addition of the accumulator, a byte and the carry leaves.
pub record IsSum {S : Type 0} (value : ℕ) (c c' : R65c02 S) : Type 0 where
  pub total :
      c'.a + 256 * from_bool (flag c'.p k_carry) ≡ c.a + value + from_bool (flag c.p k_carry)
  pub byte : c'.a < 256
  pub overflow :
      flag c'.p k_overflow ≡ out_of_range (raised c.a + raised value + from_bool (flag c.p k_carry))
  pub zeroed : flag c'.p k_zero ≡ (c'.a == 0)
  pub negative : flag c'.p k_negative ≡ leb 128 c'.a

carry_digit : (b : Bool) → (if b then 1 else 0) ≡ from_bool b
carry_digit true = refl
carry_digit false = refl

split_sum : (n : ℕ) → n < 512 → u8 n + 256 * from_bool (ltb 0xFF n) ≡ n
split_sum n h = ground arith

digit-lt : (b : Bool) → from_bool b < 2
digit-lt true = omega arith
digit-lt false = omega arith

-- In binary, ADC of a byte makes the accumulator and the carry flag the nine digits of the sum of
-- the accumulator, the byte and the old carry; the overflow flag tells whether the sum of the two as
-- signed bytes, with the carry, is no signed byte, and the zero and negative flags tell the result.
pub adc-IsSum :
    {S : Type 0} (value : ℕ) (c : R65c02 S)
    → c.a < 256
    → c.p < 256
    → value < 256
    → flag c.p k_decimal ≡ false
    → IsSum value c (adc value c)
unfolding adc
adc-IsSum value c ha hp hv binary =
    let b = flag c.p k_carry in
    let n = c.a + value + (if b then 1 else 0) in
    let e = added_binary c.a c.p value binary in
    let p = carry_overflow c.p (ltb 0xFF n) (sum_overflow c.a value n) in
    let carried = carry_overflow-IsCarried (ltb 0xFF n) (sum_overflow c.a value n) c.p hp in
    let flags = nz-IsTold (u8 n) p (omega arith) carried.byte in
    let digit = carry_digit b in
    let small = digit-lt b in
    let total : u8 n + 256 * from_bool (ltb 0xFF n) ≡ c.a + value + from_bool b =
      split_sum n (omega (arith, digit, small)) ∙ ap (λ (k : ℕ). c.a + value + k) digit in
    rw e (record {
      total = ap (λ (k : Bool). u8 n + 256 * from_bool k) (flags.carry ∙ carried.carry) ∙ total;
      byte = omega arith;
      overflow =
          flags.overflow
          ∙ (carried.overflow
              ∙ (sum_overflow_lem b c.a value ha hv
                  ∙ ap (λ (k : ℕ). out_of_range (raised c.a + raised value + k)) digit));
      zeroed = flags.zeroed;
      negative = flags.negative;
    })

-- A subtraction in binary.
abbrev binary_difference : ℕ → ℕ → ℕ → ℕ × ℕ
binary_difference a p value =
    let binary = sub32 (sub32 a value) (if flag p k_carry then 0 else 1) in
    (u8 binary, carry_overflow p (not (below_zero binary)) (difference_overflow a value binary))

subtracted_binary :
    (a p value : ℕ) → flag p k_decimal ≡ false → subtracted a p value ≡ binary_difference a p value
unfolding subtracted
subtracted_binary a p value e = rw e refl

test_equal : (a b : ℕ) → (a == b) ≡ true → a ≡ b
test_equal a b e = ground arith

complement :
    (a p value : ℕ)
    → a < 256
    → value < 256
    → binary_difference a p value ≡ binary_sum a p (255 - value)
unfolding difference_test
complement a p value ha hv =
    let b = flag p k_carry in
    let binary = sub32 (sub32 a value) (if b then 0 else 1) in
    let sum = a + (255 - value) + (if b then 1 else 0) in
    let all = every_pair 256 (difference_test b) (difference_checked b) a value ha hv in
    let first = both (u8 binary == u8 sum) _ all in
    let second = both (same (not (below_zero binary)) (ltb 0xFF sum)) _ first.1 in
    ap₂ (λ (x y : ℕ). (x, y)) (test_equal (u8 binary) (u8 sum) first.0)
      (ap₂ (carry_overflow p) (same_equal _ _ second.0) (same_equal _ _ second.1))

-- In binary, SBC of a byte does what ADC of its complement does, to the whole processor.
pub sbc-adc :
    {S : Type 0} (value : ℕ) (c : R65c02 S)
    → c.a < 256
    → value < 256
    → flag c.p k_decimal ≡ false
    → sbc value c ≡ adc (255 - value) c
unfolding sbc adc
sbc-adc value c ha hv binary =
    let e =
      subtracted_binary c.a c.p value binary
      ∙ (complement c.a c.p value ha hv ∙ sym (added_binary c.a c.p (255 - value) binary)) in
    rw e refl
