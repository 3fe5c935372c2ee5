-- ===== src/Cpu/Flags/Comparison.antt =====
-- Subtractions and comparisons, and the conditions that the branches test.
use open_mac_for_linux.Base.{
  ℕ, suc, ◌+◌, ◌-◌, ◌*◌, ◌%◌, ◌^◌, ◌<◌, bit_and, Bool, ◌≡◌, ◌∙◌, not, ◌&&◌, ◌||◌, sub32, leb, ltb,
  ◌==◌, ◌!=◌, if◌then◌else◌, same, arith,
}
use native.Mathlib.Nat.{pow-suc}
use open_mac_for_linux.Cpu.Flags.{
  k_c, k_v, k_z, k_n, mask_for, set_flag, cmp_flags, flag, test_cond,
}
use open_mac_for_linux.Cpu.Flags.Digits.{flag-set_flag}
use open_mac_for_linux.Cpu.Flags.Arithmetic.{
  top_digit, biased, operand, operand-lt, sign-top, negative-operand, wrap, sub_overflow_digit,
}

-- What t - s - c leaves: the difference in the operand's width, the borrow in C and X, a signed
-- result out of range in V, its sign in N, and Z.
pub record IsDifference (n s t c r old new k : ℕ) (sticky_z : Bool) : Type 0 where
  pub value : r ≡ (t + 2 ^ suc n - (s + c)) % 2 ^ suc n
  pub borrow : flag new (2 ^ 0) ≡ ltb t (s + c)
  pub extend : flag new (2 ^ 4) ≡ ltb t (s + c)
  pub overflow :
      flag new (2 ^ 1)
      ≡ (ltb (biased n t + 2 ^ n) (biased n s + c) || leb (biased n s + c + 2 ^ n) (biased n t))
  pub negative : flag new (2 ^ 3) ≡ leb (2 ^ n) r
  pub zero_result : flag new (2 ^ 2) ≡ (if sticky_z then (r == 0) && flag old (2 ^ 2) else r == 0)
  pub kept : flag new (2 ^ k) ≡ flag old (2 ^ k)

-- What each condition code says after a comparison of t with s.
pub record IsCompared (n s t new : ℕ) : Type 0 where
  pub higher : test_cond new 2 ≡ ltb s t
  pub lower_or_same : test_cond new 3 ≡ leb t s
  pub carry_clear : test_cond new 4 ≡ leb s t
  pub carry_set : test_cond new 5 ≡ ltb t s
  pub not_equal : test_cond new 6 ≡ (t != s)
  pub equal : test_cond new 7 ≡ (t == s)
  pub greater_or_equal : test_cond new 12 ≡ leb (biased n s) (biased n t)
  pub less_than : test_cond new 13 ≡ ltb (biased n t) (biased n s)
  pub greater_than : test_cond new 14 ≡ ltb (biased n s) (biased n t)
  pub less_or_equal : test_cond new 15 ≡ leb (biased n t) (biased n s)

-- The four flags of a comparison as its operands have them.
record HasFlags (n s t new : ℕ) : Type 0 where
  carry : flag new (2 ^ 0) ≡ ltb t s
  overflow :
      flag new (2 ^ 1)
      ≡ (ltb (biased n t + 2 ^ n) (biased n s) || leb (biased n s + 2 ^ n) (biased n t))
  zero_flag : flag new (2 ^ 2) ≡ (t == s)
  negative : flag new (2 ^ 3) ≡ leb (2 ^ n) ((t + 2 ^ suc n - s) % 2 ^ suc n)

flag-four :
    (v c neg z : Bool) (sr k : ℕ)
    → k < 4
    → flag (set_flag k_z z (set_flag k_n neg (set_flag k_c c (set_flag k_v v sr)))) (2 ^ k)
      ≡ (if k == 0 then c else if k == 1 then v else if k == 2 then z else neg)
flag-four v c neg z sr k h =
    let s1 = set_flag k_v v sr in
    let s2 = set_flag k_c c s1 in
    let s3 = set_flag k_n neg s2 in
    let below : k < 16 = omega arith in
    ground (
      arith,
      flag-set_flag 1 k v sr below,
      flag-set_flag 0 k c s1 below,
      flag-set_flag 3 k neg s2 below,
      flag-set_flag 2 k z s3 below,
    )

narrow_compared :
    (size s t : ℕ)
    → s < 2 ^ suc (top_digit size)
    → t < 2 ^ suc (top_digit size)
    → bit_and (sub32 t s) (mask_for size)
      ≡ ((t + 2 ^ suc (top_digit size) - s) % 2 ^ suc (top_digit size))
narrow_compared size s t hs ht = operand size (sub32 t s) ∙ ground arith

same_operands :
    (n s t : ℕ) → s < 2 ^ suc n → t < 2 ^ suc n → ((t + 2 ^ suc n - s) % 2 ^ suc n == 0) ≡ (t == s)
same_operands n s t hs ht = rw (wrap (2 ^ suc n) (t + 2 ^ suc n - s) (omega arith)) ground arith

compared_overflow :
    (n s t : ℕ)
    → s < 2 ^ suc n
    → t < 2 ^ suc n
    → let r = (t + 2 ^ suc n - s) % 2 ^ suc n in
      (not (same (leb (2 ^ n) s) (leb (2 ^ n) t)) && not (same (leb (2 ^ n) t) (leb (2 ^ n) r)))
      ≡ (ltb (biased n t + 2 ^ n) (biased n s) || leb (biased n s + 2 ^ n) (biased n t))
compared_overflow n s t hs ht =
    let doubled : 2 ^ suc n ≡ 2 * 2 ^ n = omega (arith, pow-suc 2 n) in
    rw (wrap (2 ^ suc n) (t + 2 ^ suc n - s) (omega arith)) (ground (arith, doubled))

HasFlags-cmp_flags :
    (s t size sr : ℕ)
    → let n = top_digit size in HasFlags n (s % 2 ^ suc n) (t % 2 ^ suc n) (cmp_flags s t size sr)
unfolding cmp_flags
HasFlags-cmp_flags s t size sr =
    let n = top_digit size in
    let s' = s % 2 ^ suc n in
    let t' = t % 2 ^ suc n in
    let s_lt : s' < 2 ^ suc n = operand-lt size s in
    let t_lt : t' < 2 ^ suc n = operand-lt size t in
    let r = (t' + 2 ^ suc n - s') % 2 ^ suc n in
    let r_lt : r < 2 ^ suc n = operand-lt size (t' + 2 ^ suc n - s') in
    rw (operand size s, operand size t, narrow_compared size s' t' s_lt t_lt)
      (record {
        carry = flag-four _ _ _ _ sr 0 (omega arith);
        overflow =
            flag-four _ _ _ _ sr 1 (omega arith)
            ∙ rw (sign-top size)
                (sub_overflow_digit n s' t' r s_lt t_lt r_lt ∙ compared_overflow n s' t' s_lt t_lt);
        zero_flag = flag-four _ _ _ _ sr 2 (omega arith) ∙ same_operands n s' t' s_lt t_lt;
        negative = flag-four _ _ _ _ sr 3 (omega arith) ∙ negative-operand size r r_lt;
      })

IsCompared-HasFlags :
    (n s t new : ℕ) → s < 2 ^ suc n → t < 2 ^ suc n → HasFlags n s t new → IsCompared n s t new
unfolding test_cond
IsCompared-HasFlags n s t new hs ht h =
    let doubled : 2 ^ suc n ≡ 2 * 2 ^ n = omega (arith, pow-suc 2 n) in
    let r = wrap (2 ^ suc n) (t + 2 ^ suc n - s) (omega arith) in
    let sign : flag new (2 ^ 3) ≡ not (same (ltb (biased n t) (biased n s)) (flag new (2 ^ 1))) =
      ground (arith, doubled, h.negative, h.overflow, r) in
    record {
      higher = ground (arith, h.carry, h.zero_flag);
      lower_or_same = ground (arith, h.carry, h.zero_flag);
      carry_clear = ground (arith, h.carry);
      carry_set = ground (arith, h.carry);
      not_equal = ground (arith, h.zero_flag);
      equal = ground (arith, h.zero_flag);
      greater_or_equal = ground (arith, sign);
      less_than = ground (arith, sign);
      greater_than = ground (arith, sign, h.zero_flag);
      less_or_equal = ground (arith, sign, h.zero_flag);
    }

-- After CMP, CMPA, CMPI or CMPM of t with s, operands cut to any size, the condition codes that
-- the branches test say what their names say: HI and CS order the operands as unsigned numbers, GE,
-- LT, GT and LE as signed ones, EQ and NE compare them, LS and CC negate HI and CS.
pub cmp_flags_conditions :
    (s t size sr : ℕ)
    → let n = top_digit size in IsCompared n (s % 2 ^ suc n) (t % 2 ^ suc n) (cmp_flags s t size sr)
cmp_flags_conditions s t size sr =
    IsCompared-HasFlags (top_digit size) _ _ _ (operand-lt size s) (operand-lt size t)
      (HasFlags-cmp_flags s t size sr)
