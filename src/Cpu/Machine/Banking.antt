-- ===== src/Cpu/Machine/Banking.antt =====
-- The two stack pointers that share register A7.
use open_mac_for_linux.Base.{
  ℕ, ◌<◌, bit_and, ◌≡◌, if◌then◌else◌, arith, length, length-set, get_or-set_self,
}
use open_mac_for_linux.Cpu.Flags.{k_s, k_sr_mask, flag}
use open_mac_for_linux.Cpu.Machine.{Cpu, a_reg, usp_value, ssp_value, set_sr}

-- What a write to the status register leaves of the processor `c` before it.
pub record IsBanked {S : Type 0} (value : ℕ) (c c' : Cpu S) : Type 0 where
  pub status : c'.sr ≡ bit_and value k_sr_mask
  pub user : usp_value c' ≡ usp_value c
  pub supervisor : ssp_value c' ≡ ssp_value c
  pub active : a_reg 7 c' ≡ (if flag c'.sr k_s then ssp_value c else usp_value c)
  pub counter : c'.pc ≡ c.pc
  pub registers : length c'.a ≡ length c.a

-- A write of any value to the status register keeps only the digits that exist, and preserves both
-- stack pointers, whichever mode it leaves and enters; A7 is then that of the new mode; the program
-- counter and the number of address registers stay. The processor has its eight address registers.
pub set_sr-IsBanked :
    {S : Type 0} (value : ℕ) (c : Cpu S) → 7 < length c.a → IsBanked value c (set_sr value c)
unfolding set_sr usp_value ssp_value
set_sr-IsBanked value c h = record {
  status = ground arith;
  user = ground (arith, get_or-set_self c.a 7 c.usp 0 h, get_or-set_self c.a 7 c.ssp 0 h);
  supervisor = ground (arith, get_or-set_self c.a 7 c.usp 0 h, get_or-set_self c.a 7 c.ssp 0 h);
  active = ground (arith, get_or-set_self c.a 7 c.usp 0 h, get_or-set_self c.a 7 c.ssp 0 h);
  counter = ground arith;
  registers = ground (arith, length-set c.a 7 c.usp, length-set c.a 7 c.ssp);
}
