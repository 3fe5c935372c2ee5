-- ===== src/Rtc.antt =====
-- The real-time clock and parameter RAM of core/src/machine/rtc.hpp and rtc.cpp.
-- `onByte` only reports bytes to a debugger and is left out.
pub mod Wire
pub mod Invariant
pub mod Protocol
pub mod Clock
pub mod Protection
pub mod Tests
use open_mac_for_linux.Base.{
  ℕ, ◌+◌, bit_and, bit_or, Bool, true, false, not, ◌&&◌, ◌||◌, List, u8, u32, ◌<<<◌, ◌>>>◌, leb,
  ◌==◌, ◌!=◌, if◌then◌else◌, from_bool, set, get_or,
}

pub data State : Type 0 where
  command extended_command write_data read_data : State

pub record Rtc : Type 0 where
  pub seconds : ℕ
  pub xpram : List ℕ
  pub state : State
  pub shift : ℕ
  pub bits : ℕ
  pub cmd : ℕ
  pub ext_addr : ℕ
  pub extended : Bool
  pub write_protect : Bool
  pub last_clock : Bool
  pub enabled : Bool
  pub data_out : Bool
  pub out_shift : ℕ
  pub out_bits : ℕ

pub reset : Rtc → Rtc
reset r = record r {
  state = command;
  shift = 0;
  bits = 0;
  extended = false;
  last_clock = false;
  enabled = false;
  data_out = true;
}

pub tick_second : Rtc → Rtc
tick_second r = record r { seconds = u32 (r.seconds + 1) }

pub set_seconds : ℕ → Rtc → Rtc
set_seconds s r = record r { seconds = s }

-- The register that a one-byte command names.
pub register : Rtc → ℕ
register r = bit_and (r.cmd >>> 2) 0x1F

pub read_register : Rtc → ℕ
read_register r =
    let reg = register r in
    if reg == 0 || reg == 4
    then u8 (bit_and r.seconds 0xFF)
    else if reg == 1 || reg == 5
    then u8 (bit_and (r.seconds >>> 8) 0xFF)
    else if reg == 2 || reg == 6
    then u8 (bit_and (r.seconds >>> 16) 0xFF)
    else if reg == 3 || reg == 7
    then u8 (bit_and (r.seconds >>> 24) 0xFF)
    else if leb 0x10 reg
    then get_or r.xpram reg 0
    else if leb 8 reg && leb reg 0x0B
    then get_or r.xpram reg 0
    else 0xFF

-- The write, once the chip has decided to accept it.
pub store_register : ℕ → ℕ → Rtc → Rtc
store_register reg value r =
    if reg == 0 || reg == 4
    then record r { seconds = bit_or (bit_and r.seconds 0xFFFFFF00) value }
    else if reg == 1 || reg == 5
    then record r { seconds = bit_or (bit_and r.seconds 0xFFFF00FF) (value <<< 8) }
    else if reg == 2 || reg == 6
    then record r { seconds = bit_or (bit_and r.seconds 0xFF00FFFF) (value <<< 16) }
    else if reg == 3 || reg == 7
    then record r { seconds = bit_or (bit_and r.seconds 0x00FFFFFF) (value <<< 24) }
    else if reg == 0x0C
    then r
    else if reg == 0x0D
    then record r { write_protect = bit_and value 0x80 != 0 }
    else if leb 0x10 reg
    then record r { xpram = set r.xpram reg value }
    else if leb 8 reg && leb reg 0x0B
    then record r { xpram = set r.xpram reg value }
    else r

pub write_register : ℕ → Rtc → Rtc
write_register value r =
    let reg = register r in
    if r.write_protect && (reg != 0x0D) then r else store_register reg value r

-- The XPRAM address: A7..A5 from the command, A4..A0 from the second byte.
pub xpram_address : Rtc → ℕ
xpram_address r = u8 (bit_or (bit_and r.cmd 0x07 <<< 5) (bit_and (r.ext_addr >>> 2) 0x1F))

-- The cases of `clockedInBit` once eight bits are in the shift register.
pub command_byte : Rtc → Rtc
command_byte r0 =
    let r = record r0 { cmd = r0.shift } in
    if bit_and r.cmd 0x78 == 0x38
    then record r { extended = true; state = extended_command }
    else if bit_and r.cmd 0x80 != 0
    then record r { out_shift = read_register r; out_bits = 0; state = read_data }
    else record r { state = write_data }

pub address_byte : Rtc → Rtc
address_byte r0 =
    let r = record r0 { ext_addr = r0.shift } in
    if bit_and r.cmd 0x80 != 0
    then record r {
      out_shift = get_or r.xpram (xpram_address r) 0;
      out_bits = 0;
      state = read_data;
    }
    else record r { state = write_data }

pub data_byte : Rtc → Rtc
data_byte r =
    let stored =
      if r.extended
      then (if r.write_protect
          then r
          else record r { xpram = set r.xpram (xpram_address r) r.shift })
      else write_register r.shift r in
    record stored { state = command; extended = false }

pub byte_in : State → Rtc → Rtc
byte_in command r = command_byte r
byte_in extended_command r = address_byte r
byte_in write_data r = data_byte r
byte_in read_data r = r

pub clocked_in_bit : Bool → Rtc → Rtc
clocked_in_bit b r0 =
    let r = record r0 { shift = u8 (bit_or (r0.shift <<< 1) (from_bool b)); bits = r0.bits + 1 } in
    if leb 8 r.bits
    then (let done = byte_in r.state (record r { bits = 0 }) in record done { shift = 0 })
    else r

-- A rising clock edge while a byte is read out.
pub shift_out : Rtc → Rtc
shift_out r0 =
    let r = record r0 {
      data_out = bit_and r0.out_shift 0x80 != 0;
      out_shift = u8 (r0.out_shift <<< 1);
      out_bits = r0.out_bits + 1;
    } in
    if leb 8 r.out_bits then record r { state = command; bits = 0 } else r

pub rising_edge : State → Bool → Rtc → Rtc
rising_edge read_data b r = shift_out r
rising_edge command b r = clocked_in_bit b r
rising_edge extended_command b r = clocked_in_bit b r
rising_edge write_data b r = clocked_in_bit b r

-- The arguments are the levels of the three lines; /enable is active low.
pub set_lines : Bool → Bool → Bool → Rtc → Rtc
set_lines level clock enable r =
    if enable
    then (let idle =
          if r.enabled then record r { state = command; bits = 0; extended = false } else r in
        record idle { enabled = false; last_clock = clock })
    else (let chosen = record r { enabled = true } in
        let moved =
          if not r.last_clock && clock then rising_edge r.state level chosen else chosen in
        record moved { last_clock = clock })
