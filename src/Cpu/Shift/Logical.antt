-- ===== src/Cpu/Shift/Logical.antt =====
-- What the logical shifts compute.
use open_mac_for_linux.Base.{
  ℕ, zero, suc, ◌+◌, ◌-◌, ◌*◌, ◌/◌, ◌%◌, ◌^◌, ◌<◌, Bool, true, false, ◌≡◌, ap, sym, ◌∙◌, leb, ◌==◌,
  if◌then◌else◌, arith, test-bit,
}
use native.Mathlib.Nat.{
  pow-suc, mod-eq_of_lt, div-add-mod, add-mul, mul_assoc, add-mul-mod_self_left, div-div-eq-div-mul,
}
use open_mac_for_linux.Cpu.Flags.{k_c, k_x, set_flag, flag, set_nz}
use open_mac_for_linux.Cpu.Flags.Digits.{flag-set_flag}
use open_mac_for_linux.Cpu.Flags.Arithmetic.{
  top_digit, operand, negative-operand, narrow, operand-lt,
}
use open_mac_for_linux.Cpu.Shift.{
  Shifting, shift_left_once, shift_right_once, shift_once, shift_times, shift_by_steps, do_shift,
}

carry-set_nz : (v size sr : ℕ) → flag (set_nz v size sr) (2 ^ 0) ≡ flag sr (2 ^ 0)
unfolding set_nz
carry-set_nz v size sr = flag-set_flag 2 0 _ _ (omega arith) ∙ flag-set_flag 3 0 _ sr (omega arith)

-- C after the carry has been set.
carry-set_carry :
    (carry : Bool) (sr : ℕ) → flag (set_flag k_x carry (set_flag k_c carry sr)) (2 ^ 0) ≡ carry
carry-set_carry carry sr =
    flag-set_flag 4 0 carry _ (omega arith) ∙ flag-set_flag 0 0 carry sr (omega arith)

-- One step of LSL, and of LSR.
left_once-value :
    (size : ℕ) (s : Shifting)
    → (shift_once 1 true size s).value ≡ s.value * 2 % 2 ^ suc (top_digit size)
unfolding shift_once shift_left_once
left_once-value size s = narrow size (s.value * 2)

left_once-carry :
    (size : ℕ) (s : Shifting)
    → s.value < 2 ^ suc (top_digit size)
    → flag (shift_once 1 true size s).status (2 ^ 0) ≡ leb (2 ^ top_digit size) s.value
unfolding shift_once shift_left_once
left_once-carry size s h = carry-set_carry _ s.status ∙ negative-operand size s.value h

right_once-value :
    (size : ℕ) (s : Shifting)
    → s.value < 2 ^ suc (top_digit size)
    → (shift_once 1 false size s).value ≡ s.value / 2
unfolding shift_once shift_right_once
right_once-value size s h = operand size (s.value / 2) ∙ ground arith

right_once-carry :
    (size : ℕ) (s : Shifting) → flag (shift_once 1 false size s).status (2 ^ 0) ≡ (s.value % 2 == 1)
unfolding shift_once shift_right_once
right_once-carry size s = carry-set_carry _ s.status ∙ test-bit s.value 0

-- A factor reduced first.
mod-mul : (a b m : ℕ) → a % m * b % m ≡ a * b % m
mod-mul a b m =
    let parts : a * b ≡ a % m * b + m * (a / m * b) =
      ap (λ (z : ℕ). z * b) (omega (arith, div-add-mod a m))
      ∙ (add-mul (a % m) (m * (a / m)) b ∙ ap (λ (z : ℕ). a % m * b + z) (mul_assoc m (a / m) b)) in
    sym (ap (λ (z : ℕ). z % m) parts ∙ add-mul-mod_self_left (a % m * b) m (a / m * b))

-- Many steps.
left_once-lt :
    (size : ℕ) (s : Shifting) → (shift_once 1 true size s).value < 2 ^ suc (top_digit size)
left_once-lt size s = rw (left_once-value size s) (operand-lt size (s.value * 2))

right_once-lt :
    (size : ℕ) (s : Shifting)
    → s.value < 2 ^ suc (top_digit size)
    → (shift_once 1 false size s).value < 2 ^ suc (top_digit size)
right_once-lt size s h = rw (right_once-value size s h) (omega arith)

double-pow : (v n : ℕ) → v * 2 * 2 ^ n ≡ v * 2 ^ suc n
double-pow v n = mul_assoc v 2 (2 ^ n) ∙ ap (λ (z : ℕ). v * z) (omega (arith, pow-suc 2 n))

left_times-value :
    (size n : ℕ) (s : Shifting)
    → s.value < 2 ^ suc (top_digit size)
    → (shift_times 1 true size n s).value ≡ s.value * 2 ^ n % 2 ^ suc (top_digit size)
unfolding shift_times
left_times-value size zero s h =
    let once : s.value * 2 ^ 0 ≡ s.value = omega arith in
    sym (ap (λ (z : ℕ). z % 2 ^ suc (top_digit size)) once ∙ mod-eq_of_lt h)
left_times-value size (suc n) s h =
    left_times-value size n (shift_once 1 true size s) (left_once-lt size s)
    ∙ (rw (left_once-value size s) (mod-mul (s.value * 2) (2 ^ n) (2 ^ suc (top_digit size)))
        ∙ ap (λ (z : ℕ). z % 2 ^ suc (top_digit size)) (double-pow s.value n))

right_times-value :
    (size n : ℕ) (s : Shifting)
    → s.value < 2 ^ suc (top_digit size)
    → (shift_times 1 false size n s).value ≡ s.value / 2 ^ n
unfolding shift_times
right_times-value size zero s h = omega arith
right_times-value size (suc n) s h =
    right_times-value size n (shift_once 1 false size s) (right_once-lt size s h)
    ∙ (rw (right_once-value size s h) (halved s.value))
  where
    halved : (v : ℕ) → v / 2 / 2 ^ n ≡ v / 2 ^ suc n
    halved v = div-div-eq-div-mul v 2 (2 ^ n) ∙ ap (λ (z : ℕ). v / z) (omega (arith, pow-suc 2 n))

-- The carry of the last step.
left_times-carry :
    (size n : ℕ) (s : Shifting)
    → s.value < 2 ^ suc (top_digit size)
    → flag (shift_times 1 true size (suc n) s).status (2 ^ 0)
      ≡ (leb (2 ^ top_digit size) (s.value * 2 ^ n % 2 ^ suc (top_digit size)))
unfolding shift_times
left_times-carry size zero s h =
    let kept : s.value * 1 % 2 ^ suc (top_digit size) ≡ s.value =
      ap (λ (z : ℕ). z % 2 ^ suc (top_digit size)) (omega arith) ∙ mod-eq_of_lt h in
    left_once-carry size s h ∙ ap (leb (2 ^ top_digit size)) (sym kept)
left_times-carry size (suc n) s h =
    left_times-carry size n (shift_once 1 true size s) (left_once-lt size s)
    ∙ ap (leb (2 ^ top_digit size)) (
        rw (left_once-value size s) (mod-mul (s.value * 2) (2 ^ n) (2 ^ suc (top_digit size)))
        ∙ ap (λ (z : ℕ). z % 2 ^ suc (top_digit size)) (double-pow s.value n))

right_times-carry :
    (size n : ℕ) (s : Shifting)
    → s.value < 2 ^ suc (top_digit size)
    → flag (shift_times 1 false size (suc n) s).status (2 ^ 0) ≡ (s.value / 2 ^ n % 2 == 1)
unfolding shift_times
right_times-carry size zero s h = right_once-carry size s ∙ ground arith
right_times-carry size (suc n) s h =
    right_times-carry size n (shift_once 1 false size s) (right_once-lt size s h)
    ∙ ap (λ (z : ℕ). z % 2 == 1) (rw (right_once-value size s h) (halved s.value))
  where
    halved : (v : ℕ) → v / 2 / 2 ^ n ≡ v / 2 ^ suc n
    halved v = div-div-eq-div-mul v 2 (2 ^ n) ∙ ap (λ (z : ℕ). v / z) (omega (arith, pow-suc 2 n))

positive : (n : ℕ) → (suc n == 0) ≡ false
positive n = ground arith

before : (n : ℕ) → suc n - 1 ≡ n
before n = omega arith

-- LSL by any count of an operand of any size gives v * 2 ^ count modulo the size, and leaves in C
-- the last digit shifted out: the sign digit of v * 2 ^ (count - 1), or 0 for a count of 0.
pub do_shift_left_logical :
    (v size count sr : ℕ)
    → v < 2 ^ suc (top_digit size)
    → let (r, sr') = do_shift v 1 true size count sr in
      (r ≡ v * 2 ^ count % 2 ^ suc (top_digit size))
      × (flag sr' (2 ^ 0) ≡ (
          if count == 0
          then false
          else leb (2 ^ top_digit size) (v * 2 ^ (count - 1) % 2 ^ suc (top_digit size))))
unfolding do_shift shift_by_steps
do_shift_left_logical v size zero sr h = (
  left_times-value size 0 _ h,
  carry-set_nz _ size _
      ∙ (flag-set_flag 1 0 _ _ (omega arith) ∙ flag-set_flag 0 0 _ _ (omega arith)),
)
do_shift_left_logical v size (suc n) sr h = (
  left_times-value size (suc n) _ h,
  rw (positive n, before n)
      (carry-set_nz _ size _ ∙ (flag-set_flag 1 0 _ _ (omega arith) ∙ left_times-carry size n _ h)),
)

-- LSR by any count of an operand of any size gives v / 2 ^ count, and leaves in C the last digit
-- shifted out: the lowest of v / 2 ^ (count - 1), or 0 for a count of 0.
pub do_shift_right_logical :
    (v size count sr : ℕ)
    → v < 2 ^ suc (top_digit size)
    → let (r, sr') = do_shift v 1 false size count sr in
      (r ≡ v / 2 ^ count)
      × (flag sr' (2 ^ 0) ≡ (if count == 0 then false else v / 2 ^ (count - 1) % 2 == 1))
unfolding do_shift shift_by_steps
do_shift_right_logical v size zero sr h = (
  right_times-value size 0 _ h,
  carry-set_nz _ size _
      ∙ (flag-set_flag 1 0 _ _ (omega arith) ∙ flag-set_flag 0 0 _ _ (omega arith)),
)
do_shift_right_logical v size (suc n) sr h = (
  right_times-value size (suc n) _ h,
  rw (positive n, before n)
      (carry-set_nz _ size _
        ∙ (flag-set_flag 1 0 _ _ (omega arith) ∙ right_times-carry size n _ h)),
)
