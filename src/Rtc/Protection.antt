-- ===== src/Rtc/Protection.antt =====
-- Any history of line changes: the chip stays well formed, and what write protection covers.
use open_mac_for_linux.Base.{
  Bool, true, ◌≡◌, refl, ◌∙◌, List, [], ◌∷◌, arith, u8, bit_or, ◌<<<◌, from_bool,
}
use open_mac_for_linux.Rtc.{
  Rtc, State, command, extended_command, write_data, read_data, store_register, write_register,
  command_byte, address_byte, data_byte, byte_in, clocked_in_bit, shift_out, rising_edge, set_lines,
}
use open_mac_for_linux.Rtc.Invariant.{IsValid, set_lines-IsValid}

-- The levels of data, clock and /enable.
abbrev pub Lines : Type 0
Lines = Bool × Bool × Bool

pub drive : List Lines → Rtc → Rtc
drive [] r = r
drive ((level, clock, enable) ∷ rest) r = drive rest (set_lines level clock enable r)

-- Whatever the host does to the three lines, every register of the chip stays in its range.
pub drive-IsValid : (events : List Lines) (r : Rtc) → IsValid r → IsValid (drive events r)
unfolding drive
drive-IsValid [] r v = v
drive-IsValid ((level, clock, enable) ∷ rest) r v =
    drive-IsValid rest (set_lines level clock enable r) (set_lines-IsValid level clock enable r v)

-- Nothing that protection covers has changed.
record Untouched (r e : Rtc) : Type 0 where
  xpram : e.xpram ≡ r.xpram
  seconds : e.seconds ≡ r.seconds

data_byte-Untouched : (r : Rtc) → r.write_protect ≡ true → Untouched r (data_byte r)
unfolding data_byte write_register store_register
data_byte-Untouched r p = ground arith

byte_in-Untouched : (s : State) (r : Rtc) → r.write_protect ≡ true → Untouched r (byte_in s r)
unfolding byte_in command_byte address_byte
byte_in-Untouched command r p = ground arith
byte_in-Untouched extended_command r p = ground arith
byte_in-Untouched write_data r p = data_byte-Untouched r p
byte_in-Untouched read_data r p = ground arith

clocked_in_bit-Untouched :
    (b : Bool) (r : Rtc) → r.write_protect ≡ true → Untouched r (clocked_in_bit b r)
unfolding clocked_in_bit
clocked_in_bit-Untouched b r p =
    let r' = record r { shift = u8 (bit_or (r.shift <<< 1) (from_bool b)); bits = 0 } in
    let kept : Untouched r' (byte_in r.state r') = byte_in-Untouched r.state r' p in ground arith

rising_edge-Untouched :
    (s : State) (b : Bool) (r : Rtc) → r.write_protect ≡ true → Untouched r (rising_edge s b r)
unfolding rising_edge shift_out
rising_edge-Untouched read_data b r p = ground arith
rising_edge-Untouched command b r p = clocked_in_bit-Untouched b r p
rising_edge-Untouched extended_command b r p = clocked_in_bit-Untouched b r p
rising_edge-Untouched write_data b r p = clocked_in_bit-Untouched b r p

set_lines-Untouched :
    (level clock enable : Bool) (r : Rtc)
    → r.write_protect ≡ true
    → Untouched r (set_lines level clock enable r)
unfolding set_lines
set_lines-Untouched level clock enable r p =
    let r' = record r { enabled = true } in
    let kept : Untouched r' (rising_edge r.state level r') =
      rising_edge-Untouched r.state level r' p in
    ground arith

-- As long as no step of a history ends the protection of the chip.
unfoldable pub Protected : List Lines → Rtc → Type 0
Protected [] r = r.write_protect ≡ true
Protected ((level, clock, enable) ∷ rest) r =
    (r.write_protect ≡ true) × Protected rest (set_lines level clock enable r)

-- While the chip is write protected, nothing that the host does to the lines changes the
-- parameter RAM or the seconds counter.
pub drive-Protected :
    (events : List Lines) (r : Rtc)
    → Protected events r
    → ((drive events r).xpram ≡ r.xpram) × ((drive events r).seconds ≡ r.seconds)
unfolding drive Protected
drive-Protected [] r p = (refl, refl)
drive-Protected ((level, clock, enable) ∷ rest) r p =
    let kept = set_lines-Untouched level clock enable r p.0 in
    let later = drive-Protected rest (set_lines level clock enable r) p.1 in
    (later.0 ∙ kept.xpram, later.1 ∙ kept.seconds)
