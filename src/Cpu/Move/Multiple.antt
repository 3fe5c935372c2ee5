-- ===== src/Cpu/Move/Multiple.antt =====
-- MOVEM and MOVEP of cpu_ops_move.cpp. Their loops are recursion on the list of the register
-- numbers, or on the number of bytes left.
use open_mac_for_linux.Base.{
  ℕ, zero, suc, ◌+◌, ◌-◌, ◌*◌, bit_and, bit_or, Bool, not, ◌&&◌, List, [], ◌∷◌, u16, u32, sub32,
  ◌<<<◌, ◌>>>◌, ltb, ◌==◌, ◌!=◌, if◌then◌else◌, get_or,
}
use open_mac_for_linux.Cpu.Flags.{sext16}
use open_mac_for_linux.Cpu.Machine.{
  Bus, Cpu, M, ◌>>=◌, ◌>>◌, ret, get, modify, d_reg, a_reg, set_d, set_a, rd8, wr8, wr16, fetch16,
}
use open_mac_for_linux.Cpu.Address.{
  op_mode, op_reg, op_dreg, op_size, ea_index, calc_ea, read_at, write_at,
}
use open_mac_for_linux.Cpu.Alu.{put_d}
use open_mac_for_linux.Cpu.Move.{set_fault_cycles}

abbrev store_times : List ℕ
store_times = 0 ∷ 0 ∷ 8 ∷ 0 ∷ 0 ∷ 12 ∷ 14 ∷ 12 ∷ 16 ∷ 0 ∷ 0 ∷ 0 ∷ []

abbrev load_times : List ℕ
load_times = 0 ∷ 0 ∷ 12 ∷ 12 ∷ 0 ∷ 16 ∷ 18 ∷ 16 ∷ 20 ∷ 16 ∷ 18 ∷ 0 ∷ []

-- The digits of a mask from 0 to 15, those that are set.
unfoldable pub chosen_from : ℕ → ℕ → ℕ → List ℕ
chosen_from mask i zero = []
chosen_from mask i (suc n) =
    let rest = chosen_from mask (suc i) n in if bit_and (mask >>> i) 1 == 1 then i ∷ rest else rest

unfoldable pub chosen : ℕ → List ℕ
chosen mask = chosen_from mask 0 16

abbrev pub count_all : List ℕ → ℕ
count_all [] = 0
count_all (_ ∷ is) = suc (count_all is)

-- D0 to D7, A0 to A7; the mask of -(An) counts from the other end.
abbrev pub register : {S : Type 0} → ℕ → Cpu S → ℕ
register i c = if ltb i 8 then d_reg i c else a_reg (i - 8) c

abbrev pub register_reversed : {S : Type 0} → ℕ → Cpu S → ℕ
register_reversed i c = if ltb i 8 then a_reg (7 - i) c else d_reg (15 - i) c

abbrev pub set_register : {S : Type 0} → ℕ → ℕ → Cpu S → Cpu S
set_register i v c = if ltb i 8 then set_d i v c else set_a (i - 8) v c

module _ {S : Type 0} ⦃bus : Bus S⦄ where
  -- Each loop returns the address that it ends at.
  unfoldable pub store_down : Bool → List ℕ → ℕ → M S ℕ
  store_down is_long [] addr = ret addr
  store_down is_long (i ∷ is) addr0 =
      let addr = sub32 addr0 (if is_long then 4 else 2) in
      do
        v ← get (register_reversed i)
        if is_long
            then (do wr16 (u32 (addr + 2)) (bit_and v 0xFFFF); wr16 addr (u16 (v >>> 16)))
            else wr16 addr (bit_and v 0xFFFF)
        store_down is_long is addr

  unfoldable pub store_up : Bool → List ℕ → ℕ → M S ℕ
  store_up is_long [] addr = ret addr
  store_up is_long (i ∷ is) addr = do
    v ← get (register i)
    write_at addr (if is_long then v else bit_and v 0xFFFF) (if is_long then 2 else 1)
    store_up is_long is (u32 (addr + (if is_long then 4 else 2)))

  -- `base` is the register of (An)+, kept two past each read.
  unfoldable pub load_up : Bool → Bool → ℕ → List ℕ → ℕ → M S ℕ
  load_up is_long postinc base [] addr = ret addr
  load_up is_long postinc base (i ∷ is) addr = do
    modify λ c. if postinc then set_a base (u32 (addr + 2)) c else c
    v ← read_at addr (if is_long then 2 else 1)
    modify (set_register i (if is_long then v else sext16 v))
    load_up is_long postinc base is (u32 (addr + (if is_long then 4 else 2)))

  unfoldable pub op_movem : ℕ → M S ℕ
  op_movem op =
      let to_regs = bit_and op 0x0400 != 0 in
      let is_long = bit_and op 0x0040 != 0 in
      let size = if is_long then 2 else 1 in
      let mode = op_mode op in
      let reg = op_reg op in
      let idx = ea_index mode reg in
      do
        mask ← fetch16
        let time = (if is_long then 8 else 4) * count_all (chosen mask)
        set_fault_cycles 4
        if not to_regs && mode == 4
            then (do
              start ← get (a_reg reg)
              addr ← store_down is_long (chosen mask) start
              modify (set_a reg addr)
              ret (8 + time))
            else if not to_regs
            then (do
              start ← calc_ea mode reg size
              _ ← store_up is_long (chosen mask) start
              ret (get_or store_times idx 0 + time))
            else (do
              start ← if mode == 3 then get (a_reg reg) else calc_ea mode reg size
              addr ← load_up is_long (mode == 3) reg (chosen mask) start
              modify λ c. if mode == 3 then set_a reg addr c else c
              ret (get_or load_times idx 0 + time))

  -- Bytes at every other address, the high one first.
  unfoldable pub load_bytes : ℕ → ℕ → ℕ → M S ℕ
  load_bytes zero addr v = ret v
  load_bytes (suc n) addr v = do
    b ← rd8 addr
    load_bytes n (u32 (addr + 2)) (bit_or (u32 (v <<< 8)) b)

  unfoldable pub store_bytes : ℕ → ℕ → ℕ → M S (Unit {0})
  store_bytes zero addr v = ret tt
  store_bytes (suc n) addr v = do
    wr8 addr (bit_and (v >>> (8 * n)) 0xFF)
    store_bytes n (u32 (addr + 2)) v

  unfoldable pub op_movep : ℕ → M S ℕ
  op_movep op =
      let dreg = op_dreg op in
      let om = op_size op in
      let is_long = bit_and om 1 != 0 in
      let bytes = if is_long then 4 else 2 in
      do
        disp ← fetch16
        base ← get (a_reg (op_reg op))
        let addr = u32 (base + sext16 disp)
        if ltb om 2
            then (do
              v ← load_bytes bytes addr 0
              modify λ c. if is_long then set_d dreg v c else c
              if is_long then ret tt else put_d dreg v 1)
            else (do v ← get (d_reg dreg); store_bytes bytes addr v)
        ret (if is_long then 24 else 16)
