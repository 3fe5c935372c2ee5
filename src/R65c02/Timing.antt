-- ===== src/R65c02/Timing.antt =====
-- The cycles that a step takes.
use open_mac_for_linux.Base.{
  ℕ, zero, suc, ◌+◌, ◌≤◌, Bool, true, false, ◌&&◌, ◌≡◌, refl, leb, if◌then◌else◌, arith, List, [],
  ◌∷◌, get_or,
}
use open_mac_for_linux.R65c02.{
  op_acc_shift, op_arithmetic, op_bit, op_bit_branch, op_bit_memory, op_bra, op_branch, op_brk,
  op_comparison, op_invalid, op_jsr, op_load, op_logic, op_rmw, op_rti, op_rts, op_store,
  op_test_memory, Instruction, Mode, operand, ret, Bus, R65c02, k_page_cost, fetch8, interrupt,
  branch, branch_to, bit_branch, invalid_nop,
}
use open_mac_for_linux.R65c02.Matrix.{decode, matrix}
use open_mac_for_linux.R65c02.Execute.{
  read_op, logic, load, arithmetic, comparison, store, rmw, acc_shift, bit_test, test_memory,
  bit_memory, jsr, rti, rts, execute, run_instruction, take_interrupt, step,
}

-- The cycles that an entry of the matrix carries.
carries : ℕ → Bool
carries base = leb 2 base && leb base 6

in_budget : Instruction → Bool
in_budget (op_logic mode base operation) = carries base
in_budget (op_arithmetic mode base subtract) = carries base
in_budget (op_load reg mode base) = carries base
in_budget (op_comparison reg mode base) = carries base
in_budget (op_store reg mode time) = carries time
in_budget (op_rmw mode time operation) = carries time
in_budget (op_bit mode base) = carries base
in_budget _ = true

all_in_budget : List Instruction → Bool
all_in_budget [] = true
all_in_budget (i ∷ is) = in_budget i && all_in_budget is

matrix_checked : all_in_budget matrix ≡ true
unfolding all_in_budget in_budget carries
matrix_checked = refl

in_budget-get_or :
    (is : List Instruction) (n : ℕ)
    → all_in_budget is ≡ true
    → in_budget (get_or is n op_invalid) ≡ true
unfolding all_in_budget
in_budget-get_or [] n h = unfold in_budget in refl
in_budget-get_or (i ∷ is) zero h = ground arith
in_budget-get_or (i ∷ is) (suc n) h = in_budget-get_or is n (ground arith)

in_budget-decode : (opcode : ℕ) → in_budget (decode opcode) ≡ true
unfolding decode
in_budget-decode opcode = in_budget-get_or matrix opcode matrix_checked

abbrev IsCost : ℕ → Type 0
IsCost n = (1 ≤ n) × (n ≤ 8)

crossed_cost :
    (base : ℕ) (crossed : Bool)
    → carries base ≡ true
    → (1 ≤ base + k_page_cost crossed) × (base + k_page_cost crossed ≤ 7)
unfolding carries
crossed_cost base crossed h = ground arith

widened : (t : ℕ) → (1 ≤ t) × (t ≤ 7) → IsCost t
widened t h = (h.0, omega (arith, h.1))

lengthened : (t : ℕ) (b : Bool) → (1 ≤ t) × (t ≤ 7) → IsCost (t + (if b then 1 else 0))
lengthened t b h = ground (arith, h)

module _ {S : Type 0} ⦃bus : Bus S⦄ where
  branch_to-IsCost :
      (base d : ℕ) (c : R65c02 S) → 1 ≤ base → base ≤ 7 → IsCost (branch_to base d c).0
  unfolding branch_to
  branch_to-IsCost base d c low high = ground arith

  branch-IsCost : (take : Bool) (c : R65c02 S) → IsCost (branch take c).0
  unfolding branch
  branch-IsCost true c = branch_to-IsCost 3 _ _ (omega arith) (omega arith)
  branch-IsCost false c = (omega arith, omega arith)

  bit_branch-IsCost : (opcode : ℕ) (c : R65c02 S) → IsCost (bit_branch opcode c).0
  unfolding bit_branch
  bit_branch-IsCost opcode c = taken _ _ _
    where
      taken : (b : Bool) (d : ℕ) (c : R65c02 S) → IsCost ((if b then branch_to 7 d else ret 5) c).0
      taken true d c = branch_to-IsCost 7 d c (omega arith) (omega arith)
      taken false d c = (omega arith, omega arith)

  invalid_nop-IsCost : (opcode : ℕ) (c : R65c02 S) → IsCost (invalid_nop opcode c).0
  unfolding invalid_nop
  invalid_nop-IsCost opcode c = ground arith

  read_op_cost :
      (mode : Mode) (base : ℕ) (c : R65c02 S)
      → carries base ≡ true
      → (1 ≤ (read_op mode base c).0.1) × ((read_op mode base c).0.1 ≤ 7)
  unfolding read_op
  read_op_cost mode base c h = crossed_cost base (operand mode c).0.1 h

  execute-IsCost :
      (i : Instruction) (op : ℕ) (c : R65c02 S) → in_budget i ≡ true → IsCost (execute i op c).0
  unfolding execute in_budget
  execute-IsCost (op_logic mode base operation) op c h =
      unfold logic in widened _ (read_op_cost mode base c h)
  execute-IsCost (op_arithmetic mode base subtract) op c h =
      unfold arithmetic in lengthened _ _ (read_op_cost mode base c h)
  execute-IsCost (op_load reg mode base) op c h =
      unfold load in widened _ (read_op_cost mode base c h)
  execute-IsCost (op_comparison reg mode base) op c h =
      unfold comparison in widened _ (read_op_cost mode base c h)
  execute-IsCost (op_store reg mode time) op c h = unfold store carries in ground arith
  execute-IsCost (op_rmw mode time operation) op c h = unfold rmw carries in ground arith
  execute-IsCost (op_bit mode base) op c h =
      unfold bit_test in widened _ (read_op_cost mode base c h)
  execute-IsCost (op_branch mask wanted) op c h = branch-IsCost _ c
  execute-IsCost op_bra op c h = branch-IsCost true c
  execute-IsCost op_bit_branch op c h = bit_branch-IsCost op c
  execute-IsCost op_invalid op c h = invalid_nop-IsCost op c
  execute-IsCost op_test_memory op c h = unfold test_memory in ground arith
  execute-IsCost op_brk op c h = unfold interrupt in (omega arith, omega arith)
  execute-IsCost (op_acc_shift operation) op c h = unfold acc_shift in (omega arith, omega arith)
  execute-IsCost op_bit_memory op c h = unfold bit_memory in (omega arith, omega arith)
  execute-IsCost op_jsr op c h = unfold jsr in (omega arith, omega arith)
  execute-IsCost op_rti op c h = unfold rti in (omega arith, omega arith)
  execute-IsCost op_rts op c h = unfold rts in (omega arith, omega arith)
  execute-IsCost _ op c h = (omega arith, omega arith)

  run_instruction-IsCost : (c : R65c02 S) → IsCost (run_instruction c).0
  unfolding run_instruction
  run_instruction-IsCost c =
      let opcode = (fetch8 c).0 in execute-IsCost (decode opcode) opcode _ (in_budget-decode opcode)

  take_interrupt-IsCost : (vector : ℕ) (c : R65c02 S) → IsCost (take_interrupt vector c).0
  unfolding take_interrupt interrupt
  take_interrupt-IsCost vector c = (omega arith, omega arith)

  -- A step takes one cycle at least and eight at most, whatever the opcode, its addressing mode,
  -- crossed pages and decimal mode add, and so do interrupts and the steps of a processor that waits
  -- or has stopped.
  pub step_cost : (c : R65c02 S) → (1 ≤ (step c).0) × ((step c).0 ≤ 8)
  unfolding step
  step_cost c = ground (
    arith,
    run_instruction-IsCost c,
    take_interrupt-IsCost 0xFFFA (record c { nmi_pending = false }),
    take_interrupt-IsCost 0xFFFE c,
  )
