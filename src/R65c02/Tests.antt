-- ===== src/R65c02/Tests.antt =====
-- Runs of the R65C02 over a memory of bytes, and its theorems at concrete ones.
use open_mac_for_linux.Base.{
  ℕ, zero, suc, ◌-◌, ◌≤◌, true, false, ◌≡◌, refl, ◌==◌, if◌then◌else◌, leb, arith, u8, List, [],
  ◌∷◌, get_or,
}
use open_mac_for_linux.R65c02.{
  Bus, R65c02, adc, sbc, flag, k_carry, k_decimal, k_reserved, set_nmi, reset, read16, rb, fetch8,
  fetch16, operand, effective, added, nz,
}
use open_mac_for_linux.R65c02.Matrix.{decode}
use open_mac_for_linux.R65c02.Execute.{
  jsr, execute, step, run_instruction, load, read_op, arithmetic,
}
use open_mac_for_linux.R65c02.Arithmetic.Sums.{IsSum, adc-IsSum, sbc-adc}
use open_mac_for_linux.R65c02.Arithmetic.Decimal.{bcd, adc_decimal_lem, sbc_decimal_lem}
use open_mac_for_linux.R65c02.Timing.{step_cost}
use open_mac_for_linux.R65c02.Invariant.{IsValid}
use open_mac_for_linux.R65c02.Invariant.Accesses.{IsBytes}
use open_mac_for_linux.R65c02.Invariant.Reach.{stepped, nmi_set, from_reset, Reaches-IsValid}

-- A memory of bytes.
instance ram : Bus (ℕ → ℕ)
ram = record { read = λ a m. (u8 (m a), m); write = λ a v m b. if a == b then v else m b }

ram-IsBytes : IsBytes (ℕ → ℕ) ram
unfolding ram
ram-IsBytes a m = omega arith

-- Memory with a program at 0x200, where the reset vector points.
abbrev program : List ℕ → ℕ → ℕ
program code a = if a == 0xFFFD then 2 else if leb 0x200 a then get_or code (a - 0x200) 0 else 0

abbrev holding : ℕ → ℕ → List ℕ → R65c02 (ℕ → ℕ)
holding a p code = record {
  a = a;
  x = 0;
  y = 0;
  s = 0;
  p = p;
  pc = 0x200;
  waiting = false;
  stopped = false;
  irq = false;
  nmi_line = false;
  nmi_pending = false;
  instructions = 0;
  cycles = 0;
  world = program code;
}

-- LDA #$05; ADC #$07; JSR $0300.
abbrev sample : R65c02 (ℕ → ℕ)
sample = (reset (holding 0 0 (0xA9 ∷ 0x05 ∷ 0x69 ∷ 0x07 ∷ 0x20 ∷ 0x00 ∷ 0x03 ∷ []))).1

abbrev run : ℕ → R65c02 (ℕ → ℕ) → R65c02 (ℕ → ℕ)
run zero c = c
run (suc n) c = run n (step c).1

-- The second instruction leaves the sum in the accumulator, the third is a call.
sample_sum : (run 2 sample).a ≡ 12
unfolding step ram reset read16 rb run_instruction execute decode fetch8 load read_op operand
    effective arithmetic adc added nz
sample_sum = refl

sample_call : (run 3 sample).pc ≡ 0x300
unfolding step ram reset read16 rb run_instruction execute decode fetch8 fetch16 load read_op
    operand effective arithmetic adc jsr
sample_call = refl

-- An operation on five, with a status.
abbrev five : ℕ → R65c02 (ℕ → ℕ)
five p = holding 5 p []

adc-IsSum_example : IsSum 0xFB (five k_carry) (adc 0xFB (five k_carry))
adc-IsSum_example = adc-IsSum 0xFB (five k_carry) (omega arith) (omega arith) (omega arith) refl

sbc-adc_example : sbc 3 (five k_carry) ≡ adc 252 (five k_carry)
sbc-adc_example = sbc-adc 3 (five k_carry) (omega arith) (omega arith) refl

abbrev forty_five : R65c02 (ℕ → ℕ)
forty_five = holding 0x45 k_decimal []

adc_decimal_lem_example :
    ((adc (bcd 78) forty_five).a ≡ bcd 23) × (flag (adc (bcd 78) forty_five).p k_carry ≡ true)
adc_decimal_lem_example =
    adc_decimal_lem 45 78 forty_five (omega arith) (omega arith) (omega arith) refl refl

sbc_decimal_lem_example :
    ((sbc (bcd 46) forty_five).a ≡ bcd 98) × (flag (sbc (bcd 46) forty_five).p k_carry ≡ false)
sbc_decimal_lem_example =
    sbc_decimal_lem 45 46 forty_five (omega arith) (omega arith) (omega arith) refl refl

step_cost_example : (1 ≤ (step sample).0) × ((step sample).0 ≤ 8)
step_cost_example = step_cost sample

-- Two steps from a reset, with an NMI between them.
abbrev interrupted : R65c02 (ℕ → ℕ)
interrupted = (step (set_nmi true (step sample).1)).1

Reaches-IsValid_example : IsValid interrupted × (flag interrupted.p k_reserved ≡ true)
Reaches-IsValid_example =
    Reaches-IsValid ram-IsBytes (stepped (nmi_set true (stepped (from_reset _))))
