-- ===== src/Cpu/Decode/Privilege.antt =====
-- Which opcodes and handlers refuse to run in user mode.
use open_mac_for_linux.Base.{
  ℕ, ◌/◌, ◌<◌, bit_and, Bool, true, false, not, ◌&&◌, ◌||◌, ◌≡◌, refl, sym, ◌∙◌, Option, leb, ◌==◌,
  ◌!=◌, arith, every_below, every_below_sound,
}
use open_mac_for_linux.Cpu.Address.{ea_index}
use open_mac_for_linux.Cpu.Flags.{flag, k_s}
use open_mac_for_linux.Cpu.Machine.{Bus, Cpu, exception}
use open_mac_for_linux.Cpu.Alu.Logic.{op_logic_imm}
use open_mac_for_linux.Cpu.Flow.{op_rte, op_stop, op_reset}
use open_mac_for_linux.Cpu.Move.{op_move_to_sr, op_move_usp}
use open_mac_for_linux.Cpu.Decode.{
  Handler, h_stop, h_reset, h_rte, h_move_to_sr, h_move_usp, h_logic_imm, run_handler, decode,
  ea_valid, valid, line_0, line_move, line_4e, line_4, line_5, line_8, line_add, line_b, line_c,
  line_e, claimed,
}

-- STOP, RESET, RTE, MOVE to SR, MOVE USP and the immediate logic on SR.
unfoldable pub is_privileged : Handler → ℕ → Bool
is_privileged h_stop op = true
is_privileged h_reset op = true
is_privileged h_rte op = true
is_privileged h_move_to_sr op = true
is_privileged h_move_usp op = true
is_privileged h_logic_imm op = bit_and op 0x00FF == 0x7C
is_privileged _ op = false

-- The opcodes that the 68000's instruction set reserves to the supervisor: ORI, ANDI and EORI to SR,
-- MOVE to SR from an operand that holds data, MOVE to and from USP, RESET, STOP and RTE.
unfoldable pub is_reserved : ℕ → Bool
is_reserved op =
    (op == 0x007C || (op == 0x027C || op == 0x0A7C))
    || ((leb 0x46C0 op && (leb op 0x46FC && op / 8 != 0x8D9))
        || ((leb 0x4E60 op && leb op 0x4E6F) || (op == 0x4E70 || (op == 0x4E72 || op == 0x4E73))))

agree : Bool → Bool → Bool
agree true b = b
agree false b = not b

agree_same : (a b : Bool) → agree a b ≡ true → a ≡ b
unfolding agree
agree_same a b h = ground arith

every_opcode :
    every_below 65536 (λ op. agree (is_reserved op) (is_privileged (decode op) op)) ≡ true
unfolding every_below agree is_reserved is_privileged decode claimed ea_index ea_valid valid line_0
    line_move line_4 line_4e line_5 line_8 line_add line_b line_c line_e
every_opcode = refl

module _ {S : Type 0} ⦃bus : Bus S⦄ where
  run_handler-privileged :
      (on_reset : Option (S → S)) (h : Handler) (op : ℕ) (c : Cpu S)
      → is_privileged h op ≡ true
      → flag c.sr k_s ≡ false
      → run_handler on_reset h op c ≡ exception 8 34 (record c { pc = c.instr_start })
  unfolding is_privileged run_handler
  run_handler-privileged on_reset h_stop op c e user = unfold op_stop in rw user refl
  run_handler-privileged on_reset h_reset op c e user = unfold op_reset in rw user refl
  run_handler-privileged on_reset h_rte op c e user = unfold op_rte in rw user refl
  run_handler-privileged on_reset h_move_to_sr op c e user = unfold op_move_to_sr in rw user refl
  run_handler-privileged on_reset h_move_usp op c e user = unfold op_move_usp in rw user refl
  run_handler-privileged on_reset h_logic_imm op c e user =
      let other : (bit_and op 0x00FF == 0x3C) ≡ false = ground arith in
      unfold op_logic_imm in rw (other, e, user) refl
  run_handler-privileged on_reset _ op c e user = absurd (ground arith)

  -- In user mode every opcode that the instruction set reserves to the supervisor reaches, through the
  -- dispatch table, a handler that does nothing of its own: it goes back to the start of the
  -- instruction and takes the exception of a privilege violation, in 34 cycles.
  pub decode-is_reserved :
      (on_reset : Option (S → S)) (op : ℕ) (c : Cpu S)
      → op < 65536
      → is_reserved op ≡ true
      → flag c.sr k_s ≡ false
      → run_handler on_reset (decode op) op c ≡ exception 8 34 (record c { pc = c.instr_start })
  decode-is_reserved on_reset op c h reserved user =
      run_handler-privileged on_reset (decode op) op c
        (sym (
            agree_same (is_reserved op) (is_privileged (decode op) op) (
              every_below_sound 65536 (λ n. agree (is_reserved n) (is_privileged (decode n) n))
                every_opcode op h))
          ∙ reserved)
        user
