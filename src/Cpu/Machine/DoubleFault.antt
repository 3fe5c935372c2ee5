-- ===== src/Cpu/Machine/DoubleFault.antt =====
-- The double fault: an address error while the frame of an address error is pushed.
use open_mac_for_linux.Base.{
  ℕ, ◌%◌, ◌^◌, ◌<◌, bit_and, bit_or, true, false, ◌≡◌, refl, ap, ◌∙◌, Option, none, some, u16,
  not16, sub32, length, get_or-set_self, arith, bit_and_low, bit, bit-bit_and, bit-bit_or, bit-mod,
  bit-lt,
}
use open_mac_for_linux.Cpu.Flags.{k_s, k_t, k_sr_mask, flag}
use open_mac_for_linux.Cpu.Flags.Digits.{flag-bit}
use open_mac_for_linux.Cpu.Machine.{
  Bus, Cpu, Outcome, ok, fault, M, ◌>>=◌, a_reg, set_a, is_odd, AddressError, address_error,
  supervisor, undo_step, ssp_value, set_sr, push32, wr32, address_error_frame, enter_address_error,
}
use open_mac_for_linux.Cpu.Machine.Banking.{set_sr-IsBanked}

run-fault :
    {S A B : Type 0} (m : M S A) (f : A → M S B) (c c' : Cpu S) (e : AddressError)
    → m c ≡ fault e c'
    → (m >>= f) c ≡ fault e c'
run-fault {S} {A} {B} m f c c' e h =
    ap
      (λ (o : Outcome S A). elim o as (λ _. Outcome S B) [
        | ok y d ↦ f y d
        | fault err d ↦ fault err d
      ])
      h

odd-below : (a : ℕ) → a < 2 ^ 32 → a % 2 ≡ 1 → is_odd (sub32 a 4) ≡ true
odd-below a small h = rw (bit_and_low 1 (sub32 a 4)) (ground arith)

supervisor-set : (sr : ℕ) → flag (bit_and (supervisor sr) k_sr_mask) k_s ≡ true
supervisor-set sr =
    let mask_digit : bit k_sr_mask 13 ≡ 1 = refl in
    let stays : bit (not16 k_t) 13 ≡ 1 = refl in
    let sets : bit k_s 13 ≡ 1 = refl in
    let inner = bit_and (bit_or sr k_s) (not16 k_t) in
    let there : bit (bit_and (u16 inner) k_sr_mask) 13 ≡ 1 = omega (
      arith,
      bit-bit_and (u16 inner) k_sr_mask 13,
      bit-mod 16 inner 13 (omega arith),
      bit-bit_and (bit_or sr k_s) (not16 k_t) 13,
      bit-bit_or sr k_s 13,
      bit-lt sr 13,
      mask_digit,
      stays,
      sets,
    ) in
    flag-bit (bit_and (supervisor sr) k_sr_mask) 13 ∙ rw there refl

set_sr-world : {S : Type 0} (value : ℕ) (c : Cpu S) → (set_sr value c).world ≡ c.world
unfolding set_sr
set_sr-world value c = ground arith

undo_step-world :
    {S : Type 0} ⦃bus : Bus S⦄ (e : AddressError) (c : Cpu S) → (undo_step e c).world ≡ c.world
undo_step-world e c =
    elim c.ea_undo_reg
      as (λ (r : Option ℕ). (undo_step e (record c { ea_undo_reg = r })).world ≡ c.world) [
        | none ↦ refl
        | some r ↦ ground arith
      ]

module _ {S : Type 0} ⦃bus : Bus S⦄ where
  -- Pushing on an odd stack faults.
  push32-odd :
      (v : ℕ) (c : Cpu S)
      → 7 < length c.a
      → is_odd (sub32 (a_reg 7 c) 4) ≡ true
      → let low = sub32 (a_reg 7 c) 4 in
        push32 v c ≡ fault (address_error low false false 0) (set_a 7 low c)
  unfolding push32 wr32
  push32-odd v c long odd = rw (get_or-set_self c.a 7 (sub32 (a_reg 7 c) 4) 0 long, odd) refl

  -- The processor when it pushes the first long of the frame.
  abbrev pushing : AddressError → Cpu S → Cpu S
  pushing e c = record (set_sr (supervisor (undo_step e c).sr) (undo_step e c)) {
    ea_fault_cycles = 0;
  }

  abbrev lowered : Cpu S → Cpu S
  lowered c = set_a 7 (sub32 (a_reg 7 c) 4) c

  frame-odd :
      (e : AddressError) (c : Cpu S)
      → 7 < length (pushing e c).a
      → is_odd (sub32 (a_reg 7 (pushing e c)) 4) ≡ true
      → address_error_frame e c
        ≡ fault
            (address_error (sub32 (a_reg 7 (pushing e c)) 4) false false 0)
            (lowered (pushing e c))
  unfolding address_error_frame
  frame-odd e c long odd =
      run-fault (push32 _) _ (pushing e c) (lowered (pushing e c)) _
        (push32-odd _ (pushing e c) long odd)

  entered :
      (e err : AddressError) (c d : Cpu S)
      → address_error_frame e c ≡ fault err d
      → enter_address_error e c ≡ (4, record d { halted = true })
  unfolding enter_address_error
  entered e err c d h =
      ap
        (λ (o : Outcome S ℕ). elim o as (λ _. ℕ × Cpu S) [
          | ok cycles c' ↦ (cycles, c')
          | fault _ c' ↦ (4, record c' { halted = true })
        ])
        h

  -- An address error while the supervisor stack is odd stops the processor: the push of its frame
  -- faults again, nothing is written to the bus, and four cycles are counted. The processor has its
  -- eight address registers, and its stack pointer has 32 digits.
  pub enter_address_error-halts :
      (e : AddressError) (c : Cpu S)
      → 7 < length (undo_step e c).a
      → ssp_value (undo_step e c) % 2 ≡ 1
      → ssp_value (undo_step e c) < 2 ^ 32
      → let (cycles, c') = enter_address_error e c in
        (c'.halted ≡ true) × ((c'.world ≡ c.world) × (cycles ≡ 4))
  enter_address_error-halts e c long odd small =
      let before = undo_step e c in
      let banked = set_sr-IsBanked (supervisor before.sr) before long in
      let there = pushing e c in
      let mode : flag there.sr k_s ≡ true =
        ap (λ (sr : ℕ). flag sr k_s) banked.status ∙ supervisor-set before.sr in
      let top : a_reg 7 there ≡ ssp_value before = banked.active ∙ rw mode refl in
      let faults =
        frame-odd e c (omega (arith, banked.registers))
          (ap (λ (a : ℕ). is_odd (sub32 a 4)) top ∙ odd-below (ssp_value before) small odd) in
      rw (entered e _ c _ faults)
        (refl, (set_sr-world (supervisor before.sr) before ∙ undo_step-world e c, refl))
