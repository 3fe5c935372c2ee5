-- ===== src/R65c02/Invariant/Reach.antt =====
-- The states that a processor comes to, and what holds in them.
use open_mac_for_linux.Base.{
  ℕ, ◌+◌, ◌<◌, bit_and, bit_or, Bool, true, false, ◌≡◌, refl, u8, not8, arith, every_below,
  every_below_sound,
}
use open_mac_for_linux.R65c02.{
  Bus, R65c02, set_nmi, set_irq, flag, k_reserved, k_irq_disable, k_decimal, rb, wb, read16, push,
  reset, interrupt,
}
use open_mac_for_linux.R65c02.Execute.{run_instruction, take_interrupt, step}
use open_mac_for_linux.R65c02.Invariant.{IsValid, counted-IsValid}
use open_mac_for_linux.R65c02.Invariant.Accesses.{IsBytes, fetch8-Keeps}
use open_mac_for_linux.R65c02.Invariant.Step.{execute-IsValid, step-IsValid}

-- The states after a reset, steps, changes of the two interrupt lines, and whatever the chips beside
-- the processor do between its steps.
pub data Reaches (S : Type 0) (bus : Bus S) : R65c02 S → Type 0 where
  from_reset : (c : R65c02 S) → Reaches S bus (reset ⦃bus = bus⦄ c).1
  stepped : {c : R65c02 S} → Reaches S bus c → Reaches S bus (step ⦃bus = bus⦄ c).1
  nmi_set : {c : R65c02 S} (level : Bool) → Reaches S bus c → Reaches S bus (set_nmi level c)
  irq_set : {c : R65c02 S} (level : Bool) → Reaches S bus c → Reaches S bus (set_irq level c)
  elsewhere : {c : R65c02 S} (w : S) → Reaches S bus c → Reaches S bus (record c { world = w })

-- The bit that is always set.
IsReserved : {S : Type 0} → R65c02 S → Type 0
IsReserved c = flag c.p k_reserved ≡ true

reserved_checked : every_below 256 (λ p. flag (u8 (bit_or p k_reserved)) k_reserved) ≡ true
unfolding every_below
reserved_checked = refl

entered_checked :
    every_below 256
      (λ p. flag (u8 (bit_and (bit_or p (k_irq_disable + k_reserved)) (not8 k_decimal))) k_reserved)
    ≡ true
unfolding every_below
entered_checked = refl

module _ {S : Type 0} ⦃bus : Bus S⦄ (bytes : IsBytes S bus) where
  run_instruction-IsReserved : (c : R65c02 S) → IsValid c → IsReserved (run_instruction c).1
  unfolding IsReserved run_instruction
  run_instruction-IsReserved c v =
      let fetched = counted-IsValid _ (fetch8-Keeps bytes c v).1 in
      every_below_sound 256 _ reserved_checked _ (execute-IsValid bytes _ _ _ fetched).p_byte

  take_interrupt-IsReserved :
      (vector : ℕ) (c : R65c02 S) → c.p < 256 → IsReserved (take_interrupt vector c).1
  unfolding IsReserved take_interrupt interrupt push read16 rb wb
  take_interrupt-IsReserved vector c h = every_below_sound 256 _ entered_checked c.p h

  step-IsReserved : (c : R65c02 S) → IsValid c → IsReserved c → IsReserved (step c).1
  unfolding IsReserved step
  step-IsReserved c v r = ground (
    arith,
    r,
    run_instruction-IsReserved c v,
    take_interrupt-IsReserved 0xFFFE c v.p_byte,
    take_interrupt-IsReserved 0xFFFA (record c { nmi_pending = false }) v.p_byte,
  )

  reset-IsValid : (c : R65c02 S) → IsValid (reset c).1 × IsReserved (reset c).1
  unfolding IsReserved reset read16 rb
  reset-IsValid c = (
    record {
      a_byte = omega arith;
      x_byte = omega arith;
      y_byte = omega arith;
      s_byte = omega arith;
      p_byte = omega arith;
      pc_word = omega arith;
      counted = omega arith;
      timed = omega arith;
    },
    refl,
  )

  lines-IsValid :
      (irq nmi pending : Bool) (c : R65c02 S)
      → IsValid c
      → IsValid (record c { irq = irq; nmi_line = nmi; nmi_pending = pending })
  lines-IsValid irq nmi pending c v = record {
    a_byte = v.a_byte;
    x_byte = v.x_byte;
    y_byte = v.y_byte;
    s_byte = v.s_byte;
    p_byte = v.p_byte;
    pc_word = v.pc_word;
    counted = v.counted;
    timed = v.timed;
  }

  elsewhere-IsValid : (w : S) (c : R65c02 S) → IsValid c → IsValid (record c { world = w })
  elsewhere-IsValid w c v = record {
    a_byte = v.a_byte;
    x_byte = v.x_byte;
    y_byte = v.y_byte;
    s_byte = v.s_byte;
    p_byte = v.p_byte;
    pc_word = v.pc_word;
    counted = v.counted;
    timed = v.timed;
  }

  -- On a bus that gives bytes, whatever a processor comes to from a reset by steps, by changes of
  -- the NMI and IRQ lines and by what the chips beside it do, its registers stay within their widths:
  -- the accumulator, the index registers, the stack pointer and the status below 2 ^ 8, the program
  -- counter below 2 ^ 16, the counts of instructions and cycles below 2 ^ 64; and the reserved bit of the
  -- status stays set.
  pub Reaches-IsValid : {c : R65c02 S} → Reaches S bus c → IsValid c × (flag c.p k_reserved ≡ true)
  unfolding IsReserved set_nmi set_irq
  Reaches-IsValid (from_reset c) = reset-IsValid c
  Reaches-IsValid (stepped {c = c} r) =
      let (v, reserved) = Reaches-IsValid r in
      (step-IsValid bytes c v, step-IsReserved c v reserved)
  Reaches-IsValid (nmi_set {c = c} level r) =
      let (v, reserved) = Reaches-IsValid r in (lines-IsValid c.irq _ _ c v, reserved)
  Reaches-IsValid (irq_set {c = c} level r) =
      let (v, reserved) = Reaches-IsValid r in
      (lines-IsValid level c.nmi_line c.nmi_pending c v, reserved)
  Reaches-IsValid (elsewhere {c = c} w r) =
      let (v, reserved) = Reaches-IsValid r in (elsewhere-IsValid w c v, reserved)
