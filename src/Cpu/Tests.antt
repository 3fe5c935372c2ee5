-- ===== src/Cpu/Tests.antt =====
-- Runs of the processor over a memory of words, and its theorems at concrete ones.
use open_mac_for_linux.Base.{
  ℕ, ◌+◌, ◌-◌, ◌*◌, ◌/◌, ◌%◌, true, false, ◌≡◌, refl, none, [], ◌∷◌, replicate, ◌==◌, if◌then◌else◌,
  arith,
}
use open_mac_for_linux.Cpu.Flags.{cmp_flags, flag}
use open_mac_for_linux.Cpu.Flags.Comparison.{IsCompared, cmp_flags_conditions}
use open_mac_for_linux.Cpu.Machine.{
  AddressError, ssp_value, address_error, enter_address_error, exception, Bus, Cpu, set_sr,
}
use open_mac_for_linux.Cpu.Machine.Stack.{IsMemory}
use open_mac_for_linux.Cpu.Machine.Banking.{IsBanked, set_sr-IsBanked}
use open_mac_for_linux.Cpu.Machine.DoubleFault.{enter_address_error-halts}
use open_mac_for_linux.Cpu.Decode.{decode, run_handler}
use open_mac_for_linux.Cpu.Decode.Operands.{suits, decode-suits}
use open_mac_for_linux.Cpu.Decode.Privilege.{is_reserved, decode-is_reserved}

-- A memory of words at even addresses.
instance ram : Bus (ℕ → ℕ)
ram = record {
  read8 = λ a m. (if a % 2 == 0 then m a / 256 else m (a - 1) % 256, m);
  read16 = λ a m. (m a, m);
  write8 = λ a v m b.
      if a == b then v * 256 + m b % 256 else if a == b + 1 then m b / 256 * 256 + v else m b;
  write16 = λ a v m b. if a == b then v else m b;
}

-- In user mode, about to run at 0x1001, an odd address.
abbrev astray : Cpu (ℕ → ℕ)
astray = record {
  d = replicate 8 0;
  a = 0 ∷ 0 ∷ 0 ∷ 0 ∷ 0 ∷ 0 ∷ 0 ∷ 0x8000 ∷ [];
  usp = 0;
  ssp = 0x4000;
  pc = 0x1001;
  sr = 0x0700;
  stopped = false;
  halted = false;
  irq_level = 0;
  instr_start = 0;
  ir = 0;
  ea_undo_reg = none;
  ea_undo_val = 0;
  ea_undo_kind = 0;
  ea_fault_cycles = 0;
  world = λ a. if a == 14 then 0x2000 else 0;
}

ram-IsMemory : IsMemory (ℕ → ℕ) ram
unfolding ram
ram-IsMemory = record {
  keeps = λ a m. refl;
  written = λ a v m h. ground arith;
  apart = λ a b v m ne. ground arith;
}

cmp_flags_conditions_example : IsCompared 15 0x8000 1 (cmp_flags 0x8000 1 1 0)
cmp_flags_conditions_example = cmp_flags_conditions 0x8000 1 1 0

set_sr-IsBanked_example : IsBanked 0x2700 astray (set_sr 0x2700 astray)
set_sr-IsBanked_example = set_sr-IsBanked 0x2700 astray (omega arith)

-- JMP through the program counter.
decode-suits_example : suits (decode 0x4EFA) 0x4EFA ≡ true
decode-suits_example = decode-suits 0x4EFA (omega arith)

-- MOVE (A1),SR in user mode.
decode-is_reserved_example :
    run_handler none (decode 0x46D1) 0x46D1 astray
    ≡ exception 8 34 (record astray { pc = astray.instr_start })
unfolding is_reserved flag
decode-is_reserved_example = decode-is_reserved none 0x46D1 astray (omega arith) refl refl

-- The odd fetch of a processor whose supervisor stack is odd too.
abbrev lost : Cpu (ℕ → ℕ)
lost = record astray { ssp = 0x4001 }

abbrev odd_fetch : AddressError
odd_fetch = address_error 0x1001 true true 0

enter_address_error-halts_example :
    let (cycles, c') = enter_address_error odd_fetch lost in
    (c'.halted ≡ true) × ((c'.world ≡ lost.world) × (cycles ≡ 4))
unfolding ssp_value flag
enter_address_error-halts_example =
    enter_address_error-halts odd_fetch lost (omega arith) refl (omega arith)
