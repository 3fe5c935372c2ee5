-- ===== src/Cpu/Step.antt =====
-- One step of the processor, `M68000::step`.
-- `table` is the dispatch table, which the source builds at start-up.
use open_mac_for_linux.Base.{
  ℕ, ◌+◌, bit_and, Bool, not, ◌&&◌, ◌||◌, none, ◌>>>◌, ltb, ◌==◌, if◌then◌else◌,
}
use open_mac_for_linux.Cpu.Flags.{k_t, flag}
use open_mac_for_linux.Cpu.Machine.{
  Bus, Cpu, ok, fault, M, ◌>>=◌, ◌>>◌, ret, get, modify, fetch16, exception, do_interrupt,
  enter_address_error,
}

-- An interrupt that the mask lets through; level 7 always passes.
unfoldable pub accepts : {S : Type 0} → Cpu S → Bool
accepts c = ltb 0 c.irq_level && ((c.irq_level == 7) || ltb (bit_and (c.sr >>> 8) 7) c.irq_level)

module _ {S : Type 0} ⦃bus : Bus S⦄ where
  unfoldable pub execute : (ℕ → ℕ → M S ℕ) → M S ℕ
  execute table = do
    traced ← get (λ c. flag c.sr k_t)
    modify λ c. record c { instr_start = c.pc; ea_undo_reg = none; ea_fault_cycles = 0 }
    op ← fetch16
    modify λ c. record c { ir = op }
    cycles ← table op op
    modify λ c. record c { ea_undo_reg = none }
    trace ← get (λ c. traced && not c.stopped && not c.halted)
    if trace then (do more ← exception 9 34; ret (cycles + more)) else ret cycles

  -- A fault that the entry into an interrupt throws leaves the step.
  unfoldable pub step : (ℕ → ℕ → M S ℕ) → M S ℕ
  step table c =
      if c.halted
      then ok 4 c
      else if accepts c
      then do_interrupt c.irq_level c
      else if c.stopped
      then ok 4 c
      else elim (execute table c) [
        | ok cycles c' ↦ ok cycles c'
        | fault e c' ↦ let (cycles, c'') = enter_address_error e c' in ok cycles c''
      ]
