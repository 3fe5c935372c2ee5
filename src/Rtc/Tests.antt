-- ===== src/Rtc/Tests.antt =====
-- Runs of the clock chip, and its theorems at a concrete chip.
use open_mac_for_linux.Base.{
  ℕ, true, false, ◌≡◌, refl, List, [], ◌∷◌, arith, get_or, replicate, length-replicate,
  All-replicate, IsByte, inr,
}
use open_mac_for_linux.Rtc.{
  Rtc, command, set_lines, rising_edge, clocked_in_bit, byte_in, command_byte, address_byte,
  data_byte, xpram_address,
}
use open_mac_for_linux.Rtc.Wire.{byte_of, pulse, send}
use open_mac_for_linux.Rtc.Invariant.{IsValid}
use open_mac_for_linux.Rtc.Protocol.{
  write_xpram, read_xpram, read_xpram-write_xpram, deselect, IsReady,
}
use open_mac_for_linux.Rtc.Protection.{Lines, drive, Protected, drive-Protected}

-- A chip in the middle of a transaction.
abbrev busy : Rtc
busy = record {
  seconds = 77;
  xpram = replicate 256 0;
  state = command;
  shift = 3;
  bits = 5;
  cmd = 0;
  ext_addr = 0;
  extended = true;
  write_protect = false;
  last_clock = true;
  enabled = true;
  data_out = false;
  out_shift = 0;
  out_bits = 0;
}

busy-IsValid : IsValid busy
busy-IsValid = record {
  xpram_size = length-replicate {A = ℕ} 256 0;
  xpram_bytes = All-replicate IsByte 256 0 (omega arith);
  seconds_fit = omega arith;
  shift_fits = omega arith;
  bits_left = omega arith;
  out_fits = omega arith;
}

-- $57 is stored where it is addressed.
stores_57 : get_or (write_xpram 0x57 0xA5 busy).xpram 0x57 0 ≡ 0xA5
unfolding write_xpram deselect set_lines send pulse rising_edge clocked_in_bit byte_in command_byte
    address_byte data_byte xpram_address
stores_57 = refl

-- A chip as it is after a reset, not selected.
abbrev waiting : Rtc
waiting = record busy { shift = 0; bits = 0; extended = false; enabled = false; last_clock = false }

waiting-IsValid : IsValid waiting
waiting-IsValid = record {
  xpram_size = busy-IsValid.xpram_size;
  xpram_bytes = busy-IsValid.xpram_bytes;
  seconds_fit = omega arith;
  shift_fits = omega arith;
  bits_left = omega arith;
  out_fits = omega arith;
}

read_xpram-write_xpram_example :
    byte_of 0 (read_xpram 0x57 (write_xpram 0x57 0xA5 waiting)).0 ≡ 0xA5
unfolding IsReady
read_xpram-write_xpram_example =
    read_xpram-write_xpram 0x57 0x57 0xA5 waiting (omega arith) (omega arith) (omega arith)
      waiting-IsValid (inr (refl, refl)) refl

abbrev two_edges : List Lines
two_edges = (true, false, false) ∷ (true, true, false) ∷ []

abbrev locked : Rtc
locked = record busy { write_protect = true }

locked-Protected : Protected two_edges locked
unfolding Protected set_lines rising_edge clocked_in_bit
locked-Protected = (refl, (refl, refl))

drive-Protected_example :
    ((drive two_edges locked).xpram ≡ replicate 256 0) × ((drive two_edges locked).seconds ≡ 77)
drive-Protected_example = drive-Protected two_edges locked locked-Protected
