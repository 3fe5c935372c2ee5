-- ===== src/Cpu/MulDiv/Decimal/Digits.antt =====
-- Decimal sums and differences of bytes of two decimal digits.
use open_mac_for_linux.Base.{
  ℕ, ◌+◌, ◌-◌, ◌*◌, ◌/◌, ◌%◌, ◌^◌, ◌<◌, ◌≤◌, bit_and, Bool, Bool-cases, inl, inr, true, false, ◌≡◌,
  refl, ap, ◌∙◌, leb, ltb, ◌==◌, ◌!=◌, if◌then◌else◌, arith, bit_and_low, every_below,
  every_below_sound, sub32, ◌||◌,
}
use native.Mathlib.Nat.{mod-mod}
use open_mac_for_linux.Cpu.Flags.{k_c, k_v, k_n, k_x, set_flag, flag, carry_in}
use open_mac_for_linux.Cpu.Flags.Digits.{flag-set_flag}
use open_mac_for_linux.Cpu.Flags.Arithmetic.{carry_in-lt}
use open_mac_for_linux.Cpu.MulDiv.{is_negative}
use open_mac_for_linux.Cpu.MulDiv.Decimal.{abcd_byte, sbcd_byte, decimal_flags}

-- The byte of the last two decimal digits of a number.
abbrev pub decimal : ℕ → ℕ
decimal n = n / 10 % 10 * 16 + n % 10

every_high : every_below 256 (λ x. bit_and x 0xF0 == x / 16 * 16) ≡ true
unfolding every_below
every_high = refl

high-nibble : (x : ℕ) → x < 256 → bit_and x 0xF0 ≡ x / 16 * 16
high-nibble x h =
    let test = every_below_sound 256 (λ x. bit_and x 0xF0 == x / 16 * 16) every_high x h in
    ground arith

carry-decimal_flags :
    (carry v : Bool) (res sr : ℕ) → flag (decimal_flags carry v res sr) (2 ^ 0) ≡ carry
carry-decimal_flags carry v res sr =
    let s1 = set_flag k_c carry sr in
    let s2 = set_flag k_x carry s1 in
    let s3 = set_flag k_n (bit_and res 0x80 != 0) s2 in
    let s4 = set_flag k_v v s3 in
    ground (
      arith,
      flag-set_flag 0 0 carry sr (omega arith),
      flag-set_flag 4 0 carry s1 (omega arith),
      flag-set_flag 3 0 (bit_and res 0x80 != 0) s2 (omega arith),
      flag-set_flag 1 0 v s3 (omega arith),
      flag-set_flag 2 0 false s4 (omega arith),
    )

-- ABCD of two bytes of decimal digits gives the byte of the decimal digits of their sum and the
-- old X, modulo 100, and leaves in C whether that sum reaches 100.
pub abcd_byte_lem :
    (m n sr : ℕ)
    → m < 100
    → n < 100
    → let (r, sr') = abcd_byte (decimal m) (decimal n) sr in
      (r ≡ decimal (n + m + carry_in true sr))
      × (flag sr' (2 ^ 0) ≡ leb 100 (n + m + carry_in true sr))
unfolding abcd_byte
abcd_byte_lem m n sr hm hn =
    let x_lt = carry_in-lt true sr in
    rw
      (
        bit_and_low 4 (decimal m),
        bit_and_low 4 (decimal n),
        high-nibble (decimal m) (omega arith),
        high-nibble (decimal n) (omega arith),
      )
      (ground arith, carry-decimal_flags _ _ _ sr ∙ (ground arith))

borrowed :
    (a b x : ℕ) → a < 256 → b < 256 → x < 2 → is_negative (sub32 (sub32 a b) x) ≡ ltb a (b + x)
borrowed a b x ha hb hx = ground arith

byte-sub32 : (a k : ℕ) → a < 2 ^ 32 → k < 256 → sub32 a k % 256 ≡ (a % 256 + 256 - k) % 256
byte-sub32 a k ha hk = omega arith

byte-start :
    (a b x : ℕ) → a < 256 → b < 256 → x < 2 → sub32 (sub32 a b) x % 256 ≡ (a + 512 - b - x) % 256
byte-start a b x ha hb hx = omega arith

-- The corrections on bytes: `pre` less nothing, 6, 0x60 or both.
corrected_byte :
    (m n x pre p6 p60 p66 : ℕ)
    → m < 100
    → n < 100
    → x < 2
    → pre % 256 ≡ (decimal n + 512 - decimal m - x) % 256
    → p6 % 256 ≡ (pre % 256 + 256 - 6) % 256
    → p60 % 256 ≡ (pre % 256 + 256 - 0x60) % 256
    → p66 % 256 ≡ (p6 % 256 + 256 - 0x60) % 256
    → (if ltb n (m + x)
          then (if ltb (n % 10) (m % 10 + x) then p66 else p60)
          else if ltb (n % 10) (m % 10 + x)
          then p6
          else pre)
        % 256
      ≡ decimal (n + 100 - (m + x))
corrected_byte m n x pre p6 p60 p66 hm hn hx e0 e1 e2 e3 = ground arith

choose :
    (b b' : Bool) (f : ℕ → ℕ) (y z : ℕ)
    → (if b then f (if b' then y else z) else if b' then y else z)
      ≡ (if b then (if b' then f y else f z) else if b' then y else z)
choose true true f y z = refl
choose true false f y z = refl
choose false true f y z = refl
choose false false f y z = refl

-- A difference that is not negative stays so with its low digit corrected.
low-positive :
    (m n x : ℕ)
    → m < 100
    → n < 100
    → x < 2
    → m + x ≤ n
    → let pre = sub32 (sub32 (decimal n) (decimal m)) x in
      is_negative (if ltb (n % 10) (m % 10 + x) then sub32 pre 6 else pre) ≡ false
low-positive m n x hm hn hx h =
    let past : sub32 (sub32 (decimal n) (decimal m)) x ≡ decimal n - decimal m - x = omega arith in
    rw past ground arith

borrow-low :
    (m n x : ℕ)
    → m < 100
    → n < 100
    → x < 2
    → let pre = sub32 (sub32 (decimal n) (decimal m)) x in
      (ltb n (m + x) || is_negative (if ltb (n % 10) (m % 10 + x) then sub32 pre 6 else pre))
      ≡ (ltb n (m + x))
borrow-low m n x hm hn hx = elim (Bool-cases (ltb n (m + x))) [
  | inl e ↦ rw e refl
  | inr e ↦ rw e (low-positive m n x hm hn hx (ground arith))
]

-- The low byte of a difference and of its corrections.
corrected :
    (m n x : ℕ)
    → m < 100
    → n < 100
    → x < 2
    → let pre = sub32 (sub32 (decimal n) (decimal m)) x in
      let low = if ltb (n % 10) (m % 10 + x) then sub32 pre 6 else pre in
      (if ltb n (m + x) then sub32 low 0x60 else low) % 2 ^ 8 ≡ decimal (n + 100 - (m + x))
corrected m n x hm hn hx =
    let a = decimal n in
    let b = decimal m in
    let pre = sub32 (sub32 a b) x in
    let bytes =
      corrected_byte m n x pre (sub32 pre 6) (sub32 pre 0x60) (sub32 (sub32 pre 6) 0x60) hm hn hx
        (byte-start a b x (omega arith) (omega arith) hx)
        (byte-sub32 pre 6 (omega arith) (omega arith))
        (byte-sub32 pre 0x60 (omega arith) (omega arith))
        (byte-sub32 (sub32 pre 6) 0x60 (omega arith) (omega arith)) in
    ap (λ (z : ℕ). z % 2 ^ 8)
      (choose (ltb n (m + x)) (ltb (n % 10) (m % 10 + x)) (λ z. sub32 z 0x60) (sub32 pre 6) pre)
    ∙ bytes

-- SBCD of two bytes of decimal digits gives the byte of the decimal digits of their difference
-- less the old X, modulo 100, and leaves in C whether it is negative.
pub sbcd_byte_lem :
    (m n sr : ℕ)
    → m < 100
    → n < 100
    → let (r, sr') = sbcd_byte (decimal m) (decimal n) sr in
      (r ≡ decimal (n + 100 - (m + carry_in true sr)))
      × (flag sr' (2 ^ 0) ≡ ltb n (m + carry_in true sr))
unfolding sbcd_byte
sbcd_byte_lem m n sr hm hn =
    let x_lt = carry_in-lt true sr in
    let ordered : ltb (decimal n) (decimal m + carry_in true sr) ≡ ltb n (m + carry_in true sr) =
      ground arith in
    rw
      (
        bit_and_low 4 (decimal m),
        bit_and_low 4 (decimal n),
        low m,
        low n,
        borrowed (n % 10) (m % 10) (carry_in true sr) (omega arith) (omega arith) x_lt,
        borrowed (decimal n) (decimal m) (carry_in true sr) (omega arith) (omega arith) x_lt,
        ordered,
      )
      (
        rw (bit_and_low 8 _) (mod-mod _ (2 ^ 8) ∙ corrected m n (carry_in true sr) hm hn x_lt),
        carry-decimal_flags _ _ _ sr ∙ borrow-low m n (carry_in true sr) hm hn x_lt,
      )
  where
    low : (m : ℕ) → decimal m % 2 ^ 4 ≡ m % 10
    low m = omega arith
