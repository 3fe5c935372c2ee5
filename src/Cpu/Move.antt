-- ===== src/Cpu/Move.antt =====
-- The data movement of cpu_ops_move.cpp; MOVEM and MOVEP are in the child.
pub mod Multiple
use open_mac_for_linux.Base.{
  ℕ, ◌+◌, ◌-◌, ◌^◌, bit_and, bit_or, Bool, true, false, not, ◌&&◌, ◌||◌, List, [], ◌∷◌, u8, u16,
  u32, sub32, ◌<<<◌, ◌>>>◌, leb, ◌==◌, ◌!=◌, if◌then◌else◌, get_or,
}
use open_mac_for_linux.Cpu.Flags.{
  k_z, k_n, k_s, sext8, sext16, write_sized, set_flag, flag, set_logic_flags, clear_vc, test_cond,
}
use open_mac_for_linux.Cpu.Machine.{
  Bus, Cpu, AddressError, address_error, Outcome, M, ◌>>=◌, ◌>>◌, ret, get, modify, throw, d_reg,
  a_reg, set_d, set_a, with_sr, is_odd, rd8, rd16, wr8, wr16, wr32, fetch16, push32, pop32, set_sr,
  set_ccr,
}
use open_mac_for_linux.Cpu.Address.{
  op_size, op_mode, op_reg, op_dreg, ea_index, ea_time_bw, ea_time_l, calc_ea, read_at, write_at,
  read_ea,
}
use open_mac_for_linux.Cpu.Alu.{put_d, timed}
use open_mac_for_linux.Cpu.Alu.Logic.{privilege_violation}

abbrev lea_times : List ℕ
lea_times = 0 ∷ 0 ∷ 4 ∷ 0 ∷ 0 ∷ 8 ∷ 12 ∷ 8 ∷ 12 ∷ 8 ∷ 12 ∷ 0 ∷ []

abbrev pea_times : List ℕ
pea_times = 0 ∷ 0 ∷ 12 ∷ 0 ∷ 0 ∷ 16 ∷ 20 ∷ 16 ∷ 20 ∷ 16 ∷ 20 ∷ 0 ∷ []

unfoldable pub move_dst_time : ℕ → Bool → ℕ
move_dst_time idx is_long =
    let i = if idx == 4 then 2 else idx in if is_long then ea_time_l i else ea_time_bw i

-- Two registers exchanged.
unfoldable pub exchange : {S : Type 0} → ℕ → ℕ → ℕ → Cpu S → Cpu S
exchange pat rx ry c =
    if pat == 0x0140
    then set_d ry (d_reg rx c) (set_d rx (d_reg ry c) c)
    else if pat == 0x0148
    then set_a ry (a_reg rx c) (set_a rx (a_reg ry c) c)
    else set_a ry (d_reg rx c) (set_d rx (a_reg ry c) c)

module _ {S : Type 0} ⦃bus : Bus S⦄ where
  abbrev pub set_fault_cycles : ℕ → M S (Unit {0})
  set_fault_cycles n = modify λ c. record c { ea_fault_cycles = n }

  -- A fault that pushes the program counter with another bias.
  abbrev write_fault : ℕ → ℕ → M S (Unit {0})
  write_fault addr bias = throw (record (address_error addr false false 0) { pc_bias = bias })

  -- A byte, word or long to -(An), a long with its low word first.
  unfoldable pub move_to_predec : ℕ → ℕ → ℕ → M S (Unit {0})
  move_to_predec reg v size =
      if size == 2
      then (do
        modify λ c. set_a reg (sub32 (a_reg reg c) 2) c
        low ← get (a_reg reg)
        if is_odd low then write_fault low 0 else (do
          wr16 low (bit_and v 0xFFFF)
          modify λ c. set_a reg (sub32 (a_reg reg c) 2) c
          high ← get (a_reg reg)
          wr16 high (u16 (v >>> 16))))
      else (let dec = if size == 0 then (if reg == 7 then 2 else 1) else 2 in
          do
            modify λ c. set_a reg (sub32 (a_reg reg c) dec) c
            addr ← get (a_reg reg)
            if (size == 1) && is_odd addr then write_fault addr 0 else write_at addr v size)

  unfoldable pub move_to_memory : ℕ → ℕ → Bool → ℕ → ℕ → M S (Unit {0})
  move_to_memory mode reg src_simple v size = do
    addr ← calc_ea mode reg size
    if is_odd addr && leb 1 size && (mode == 7) && (reg == 1)
        then write_fault addr (if src_simple then 2 ^ 32 - 2 else 2 ^ 32 - 4)
        else write_at addr v size

  unfoldable pub op_move : ℕ → M S ℕ
  op_move op =
      let size = if op >>> 12 == 1 then 0 else if op >>> 12 == 2 then 2 else 1 in
      let src_mode = op_mode op in
      let src_reg = op_reg op in
      let dst_mode = bit_and (op >>> 6) 7 in
      let dst_reg = op_dreg op in
      let is_long = size == 2 in
      let immediate = (src_mode == 7) && (src_reg == 4) in
      let idx = ea_index src_mode src_reg in
      let src_time = if is_long then ea_time_l idx else ea_time_bw idx in
      do
        if leb 2 dst_mode && leb 2 src_mode && not immediate then set_fault_cycles 4 else ret tt
        v ← read_ea src_mode src_reg size
        if dst_mode == 1
            then (do modify (set_a dst_reg (if size == 1 then sext16 v else v)); ret (4 + src_time))
            else (do
              modify (with_sr (set_logic_flags v size))
              if dst_mode == 0
                  then (do put_d dst_reg v size; ret (4 + src_time))
                  else if dst_mode == 4
                  then (do
                    move_to_predec dst_reg v size
                    ret (4 + src_time + move_dst_time 4 is_long))
                  else (do
                    move_to_memory dst_mode dst_reg (leb src_mode 1 || immediate) v size
                    ret (4 + src_time + move_dst_time (ea_index dst_mode dst_reg) is_long)))

  unfoldable pub op_moveq : ℕ → M S ℕ
  op_moveq op = do
    modify (set_d (op_dreg op) (sext8 op))
    modify (with_sr (set_logic_flags (sext8 op) 2))
    ret 4

  unfoldable pub op_move_from_sr : ℕ → M S ℕ
  op_move_from_sr op =
      if op_mode op == 0 then (do sr ← get (λ c. c.sr); put_d (op_reg op) sr 1; ret 6) else (do
        addr ← calc_ea (op_mode op) (op_reg op) 1
        _ ← rd16 addr
        sr ← get (λ c. c.sr)
        wr16 addr sr
        ret (8 + ea_time_bw (ea_index (op_mode op) (op_reg op))))

  unfoldable pub op_move_to_ccr : ℕ → M S ℕ
  op_move_to_ccr op = do
    v ← read_ea (op_mode op) (op_reg op) 1
    modify (set_ccr (u8 v))
    ret (12 + ea_time_bw (ea_index (op_mode op) (op_reg op)))

  unfoldable pub op_move_to_sr : ℕ → M S ℕ
  op_move_to_sr op = do
    supervisor ← get (λ c. flag c.sr k_s)
    if supervisor
        then (do
          v ← read_ea (op_mode op) (op_reg op) 1
          modify (set_sr (u16 v))
          ret (12 + ea_time_bw (ea_index (op_mode op) (op_reg op))))
        else privilege_violation

  unfoldable pub op_move_usp : ℕ → M S ℕ
  op_move_usp op = do
    supervisor ← get (λ c. flag c.sr k_s)
    if supervisor
        then (do
          modify λ c.
              if bit_and op 0x0008 != 0
              then set_a (op_reg op) c.usp c
              else record c { usp = a_reg (op_reg op) c }
          ret 4)
        else privilege_violation

  unfoldable pub op_lea : ℕ → M S ℕ
  op_lea op = do
    addr ← calc_ea (op_mode op) (op_reg op) 2
    modify (set_a (op_dreg op) addr)
    ret (get_or lea_times (ea_index (op_mode op) (op_reg op)) 0)

  unfoldable pub op_pea : ℕ → M S ℕ
  op_pea op = do
    addr ← calc_ea (op_mode op) (op_reg op) 2
    push32 addr
    ret (get_or pea_times (ea_index (op_mode op) (op_reg op)) 0)

  unfoldable pub op_clr : ℕ → M S ℕ
  op_clr op =
      let size = op_size op in
      let mode = op_mode op in
      let reg = op_reg op in
      do
        if mode != 0
            then (do addr ← calc_ea mode reg size; _ ← read_at addr size; write_at addr 0 size)
            else put_d reg 0 size
        modify (with_sr λ sr. clear_vc (set_flag k_z true (set_flag k_n false sr)))
        ret (
            if mode == 0 then (if size == 2 then 6 else 4) else timed size 12 8 (ea_index mode reg))

  unfoldable pub op_scc : ℕ → M S ℕ
  op_scc op =
      let reg = op_reg op in
      do
        holds ← get (λ c. test_cond c.sr (bit_and (op >>> 8) 15))
        let v = if holds then 0xFF else 0x00
        if op_mode op == 0 then (do put_d reg v 0; ret (if holds then 6 else 4)) else (do
          addr ← calc_ea (op_mode op) reg 0
          _ ← rd8 addr
          wr8 addr v
          ret (8 + ea_time_bw (ea_index (op_mode op) reg)))

  unfoldable pub op_tst : ℕ → M S ℕ
  op_tst op = do
    v ← read_ea (op_mode op) (op_reg op) (op_size op)
    modify (with_sr (set_logic_flags v (op_size op)))
    ret (timed (op_size op) 4 4 (ea_index (op_mode op) (op_reg op)))

  unfoldable pub op_exg : ℕ → M S ℕ
  op_exg op = do modify (exchange (bit_and op 0x01F8) (op_dreg op) (op_reg op)); ret 6

  unfoldable pub op_swap : ℕ → M S ℕ
  op_swap op =
      let reg = op_reg op in
      do
        modify λ c. set_d reg (bit_or (d_reg reg c >>> 16) (u32 (d_reg reg c <<< 16))) c
        v ← get (d_reg reg)
        modify (with_sr (set_logic_flags v 2))
        ret 4

  unfoldable pub op_ext : ℕ → M S ℕ
  op_ext op =
      let reg = op_reg op in
      do
        old ← get (d_reg reg)
        if op_size op == 2
            then (do
              let v = bit_and (sext8 old) 0xFFFF
              put_d reg v 1
              modify (with_sr (set_logic_flags v 1)))
            else (do
              modify (set_d reg (sext16 old))
              modify (with_sr (set_logic_flags (sext16 old) 2)))
        ret 4

  unfoldable pub op_link : ℕ → M S ℕ
  op_link op =
      let reg = op_reg op in
      do
        disp ← fetch16
        modify λ c. set_a 7 (sub32 (a_reg 7 c) 4) c
        sp ← get (a_reg 7)
        v ← get (a_reg reg)
        wr32 sp v
        modify λ c. set_a reg (a_reg 7 c) c
        modify λ c. set_a 7 (u32 (a_reg 7 c + sext16 disp)) c
        ret 16

  unfoldable pub op_unlk : ℕ → M S ℕ
  op_unlk op =
      let reg = op_reg op in
      do modify λ c. set_a 7 (a_reg reg c) c; v ← pop32; modify (set_a reg v); ret 12
