-- ===== src/R65c02/Arithmetic/Decimal.antt =====
-- ADC and SBC of two decimal digits.
use open_mac_for_linux.Base.{
  ℕ, ◌+◌, ◌-◌, ◌*◌, ◌/◌, ◌%◌, ◌<◌, bit_and, bit_or, Bool, true, false, not, ◌&&◌, same, ◌≡◌, refl,
  ap, ◌∙◌, u8, u32, sub32, ◌<<<◌, ◌>>>◌, ltb, leb, ◌==◌, if◌then◌else◌, from_bool, arith,
  every_below,
}
use open_mac_for_linux.R65c02.{
  R65c02, k_carry, k_decimal, flag, carry_overflow, added, adc, subtracted, sbc, below_zero,
}
use open_mac_for_linux.R65c02.Arithmetic.{
  every_pair, same_equal, both, nz-IsTold, carry_overflow-IsCarried, sum_overflow,
  difference_overflow,
}

-- Two decimal digits in a byte.
abbrev pub bcd : ℕ → ℕ
bcd n = n / 10 * 16 + n % 10

abbrev decimal_sum : ℕ → ℕ → ℕ → ℕ
decimal_sum a v carry =
    let low0 = bit_and a 0x0F + bit_and v 0x0F + carry in
    let result0 = bit_and a 0xF0 + bit_and v 0xF0 + (if ltb 9 low0 then low0 + 6 else low0) in
    if ltb 0x99 result0 then result0 + 0x60 else result0

abbrev decimal_difference : ℕ → ℕ → ℕ → ℕ
decimal_difference a v borrow =
    let low0 = sub32 (sub32 (bit_and a 0x0F) (bit_and v 0x0F)) borrow in
    let high0 = sub32 (a >>> 4) (v >>> 4) in
    let low = if below_zero low0 then sub32 low0 6 else low0 in
    let high1 = if below_zero low0 then sub32 high0 1 else high0 in
    let high = if below_zero high1 then sub32 high1 6 else high1 in
    u8 (bit_or (bit_and (u32 (high <<< 4)) 0xF0) (bit_and low 0x0F))

sum_test : Bool → ℕ → ℕ → Bool
sum_test b m n =
    let carry = if b then 1 else 0 in
    let r = decimal_sum (bcd m) (bcd n) carry in
    (u8 r == bcd ((m + n + carry) % 100)) && same (ltb 0xFF r) (leb 100 (m + n + carry))

difference_test : Bool → ℕ → ℕ → Bool
difference_test b m n =
    let borrow = if b then 0 else 1 in
    (decimal_difference (bcd m) (bcd n) borrow == bcd ((m + 100 - n - borrow) % 100))
    && same (not (below_zero (sub32 (sub32 (bcd m) (bcd n)) borrow))) (leb (n + borrow) m)

sum_checked : (b : Bool) → every_below 100 (λ m. every_below 100 (sum_test b m)) ≡ true
unfolding every_below sum_test
sum_checked true = refl
sum_checked false = refl

difference_checked :
    (b : Bool) → every_below 100 (λ m. every_below 100 (difference_test b m)) ≡ true
unfolding every_below difference_test
difference_checked true = refl
difference_checked false = refl

added_decimal :
    (a p value : ℕ)
    → flag p k_decimal ≡ true
    → let carry : ℕ = if flag p k_carry then 1 else 0 in
      let r = decimal_sum a value carry in
      added a p value
      ≡ (u8 r, carry_overflow p (ltb 0xFF r) (sum_overflow a value (a + value + carry)))
unfolding added
added_decimal a p value e = rw e refl

subtracted_decimal :
    (a p value : ℕ)
    → flag p k_decimal ≡ true
    → let borrow : ℕ = if flag p k_carry then 0 else 1 in
      let binary = sub32 (sub32 a value) borrow in
      subtracted a p value ≡ (
        decimal_difference a value borrow,
        carry_overflow p (not (below_zero binary)) (difference_overflow a value binary),
      )
unfolding subtracted
subtracted_decimal a p value e = rw e refl

carry_digit : (b : Bool) → (if b then 1 else 0) ≡ from_bool b
carry_digit true = refl
carry_digit false = refl

borrow_digit : (b : Bool) → (if b then 0 else 1) ≡ 1 - from_bool b
borrow_digit true = refl
borrow_digit false = refl

test_equal : (a b : ℕ) → (a == b) ≡ true → a ≡ b
test_equal a b e = ground arith

bcd-lt : (n : ℕ) → n < 100 → bcd n < 256
bcd-lt n h = omega arith

-- In decimal, ADC adds numbers of two digits and the carry: the accumulator becomes the two low
-- digits of the sum, and the carry flag tells whether there is a third.
pub adc_decimal_lem :
    {S : Type 0} (m n : ℕ) (c : R65c02 S)
    → m < 100
    → n < 100
    → c.p < 256
    → c.a ≡ bcd m
    → flag c.p k_decimal ≡ true
    → let sum = m + n + from_bool (flag c.p k_carry) in
      let c' = adc (bcd n) c in (c'.a ≡ bcd (sum % 100)) × (flag c'.p k_carry ≡ leb 100 sum)
unfolding adc sum_test
adc_decimal_lem m n c hm hn hp ea decimal =
    let b = flag c.p k_carry in
    let carry : ℕ = if b then 1 else 0 in
    let r = decimal_sum (bcd m) (bcd n) carry in
    let o = sum_overflow (bcd m) (bcd n) (bcd m + bcd n + carry) in
    let all = every_pair 100 (sum_test b) (sum_checked b) m n hm hn in
    let parts = both (u8 r == bcd ((m + n + carry) % 100)) _ all in
    let digits : u8 r ≡ bcd ((m + n + from_bool b) % 100) =
      test_equal (u8 r) (bcd ((m + n + carry) % 100)) parts.0
      ∙ ap (λ (k : ℕ). bcd ((m + n + k) % 100)) (carry_digit b) in
    let third : ltb 0xFF r ≡ leb 100 (m + n + from_bool b) =
      same_equal _ _ parts.1 ∙ ap (λ (k : ℕ). leb 100 (m + n + k)) (carry_digit b) in
    let carried = carry_overflow-IsCarried (ltb 0xFF r) o c.p hp in
    let flags = nz-IsTold (u8 r) (carry_overflow c.p (ltb 0xFF r) o) (omega arith) carried.byte in
    let e = ap (λ (a : ℕ). added a c.p (bcd n)) ea ∙ added_decimal (bcd m) c.p (bcd n) decimal in
    rw e (digits, flags.carry ∙ (carried.carry ∙ third))

-- In decimal, SBC of an operand of two decimal digits from an accumulator of two, with the status a
-- byte: the operand and the borrow, which is a cleared carry flag, are subtracted; the accumulator
-- becomes the two digits of the difference, a hundred added where it is below zero, and the carry flag
-- tells that it is not.
pub sbc_decimal_lem :
    {S : Type 0} (m n : ℕ) (c : R65c02 S)
    → m < 100
    → n < 100
    → c.p < 256
    → c.a ≡ bcd m
    → flag c.p k_decimal ≡ true
    → let borrow = 1 - from_bool (flag c.p k_carry) in
      let c' = sbc (bcd n) c in
      (c'.a ≡ bcd ((m + 100 - n - borrow) % 100)) × (flag c'.p k_carry ≡ leb (n + borrow) m)
unfolding sbc difference_test
sbc_decimal_lem m n c hm hn hp ea decimal =
    let b = flag c.p k_carry in
    let borrow : ℕ = if b then 0 else 1 in
    let r = decimal_difference (bcd m) (bcd n) borrow in
    let binary = sub32 (sub32 (bcd m) (bcd n)) borrow in
    let o = difference_overflow (bcd m) (bcd n) binary in
    let all = every_pair 100 (difference_test b) (difference_checked b) m n hm hn in
    let parts = both (r == bcd ((m + 100 - n - borrow) % 100)) _ all in
    let digits : r ≡ bcd ((m + 100 - n - (1 - from_bool b)) % 100) =
      test_equal r (bcd ((m + 100 - n - borrow) % 100)) parts.0
      ∙ ap (λ (k : ℕ). bcd ((m + 100 - n - k) % 100)) (borrow_digit b) in
    let above : not (below_zero binary) ≡ leb (n + (1 - from_bool b)) m =
      same_equal _ _ parts.1 ∙ ap (λ (k : ℕ). leb (n + k) m) (borrow_digit b) in
    let carried = carry_overflow-IsCarried (not (below_zero binary)) o c.p hp in
    let flags =
      nz-IsTold r (carry_overflow c.p (not (below_zero binary)) o) (omega arith) carried.byte in
    let e =
      ap (λ (a : ℕ). subtracted a c.p (bcd n)) ea
      ∙ subtracted_decimal (bcd m) c.p (bcd n) decimal in
    rw e (digits, flags.carry ∙ (carried.carry ∙ above))
