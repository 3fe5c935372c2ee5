-- ===== src/Rtc/Invariant.antt =====
-- What every sequence of line changes keeps: registers in range, and write protection.
use open_mac_for_linux.Base.{
  ℕ, ◌*◌, ◌^◌, ◌<◌, bit_and, bit_or, Bool, true, ◌≡◌, arith, length, length-set, AllBytes, All-set,
  ◌<<<◌, All-get_or, IsByte, bit_or-lt, bit_and-le_left, from_bool, u8,
}
use open_mac_for_linux.Rtc.{
  Rtc, State, command, extended_command, write_data, read_data, register, read_register,
  store_register, write_register, xpram_address, command_byte, address_byte, data_byte, byte_in,
  clocked_in_bit, shift_out, rising_edge, set_lines,
}

pub record IsValid (r : Rtc) : Type 0 where
  pub xpram_size : length r.xpram ≡ 256
  pub xpram_bytes : AllBytes r.xpram
  pub seconds_fit : r.seconds < 2 ^ 32
  pub shift_fits : r.shift < 256
  pub bits_left : r.bits < 8
  pub out_fits : r.out_shift < 256

store_register-IsValid :
    (reg value : ℕ) (r : Rtc) → value < 256 → IsValid r → IsValid (store_register reg value r)
unfolding store_register
store_register-IsValid reg value r h v = ground (
  arith,
  length-set r.xpram reg value,
  All-set IsByte r.xpram reg value h v.xpram_bytes,
  bit_or-lt 32 (bit_and r.seconds 0xFFFFFF00) value,
  bit_or-lt 32 (bit_and r.seconds 0xFFFF00FF) (value * 2 ^ 8),
  bit_or-lt 32 (bit_and r.seconds 0xFF00FFFF) (value * 2 ^ 16),
  bit_or-lt 32 (bit_and r.seconds 0x00FFFFFF) (value * 2 ^ 24),
  bit_and-le_left r.seconds 0xFFFFFF00,
  bit_and-le_left r.seconds 0xFFFF00FF,
  bit_and-le_left r.seconds 0xFF00FFFF,
  bit_and-le_left r.seconds 0x00FFFFFF,
)

write_register-IsValid :
    (value : ℕ) (r : Rtc) → value < 256 → IsValid r → IsValid (write_register value r)
unfolding write_register
write_register-IsValid value r h v = ground (arith, store_register-IsValid (register r) value r h v)

read_register-lt : (r : Rtc) → IsValid r → read_register r < 256
unfolding read_register
read_register-lt r v =
    ground (arith, All-get_or IsByte r.xpram (register r) 0 (omega arith) v.xpram_bytes)

command_byte-IsValid : (r : Rtc) → IsValid r → IsValid (command_byte r)
unfolding command_byte
command_byte-IsValid r v =
    let r' = record r { cmd = r.shift } in
    let v' : IsValid r' = ground arith in ground (arith, read_register-lt r' v')

address_byte-IsValid : (r : Rtc) → IsValid r → IsValid (address_byte r)
unfolding address_byte
address_byte-IsValid r v = ground (
  arith,
  All-get_or IsByte r.xpram (xpram_address (record r { ext_addr = r.shift })) 0 (omega arith)
      v.xpram_bytes,
)

data_byte-IsValid : (r : Rtc) → IsValid r → IsValid (data_byte r)
unfolding data_byte
data_byte-IsValid r v = ground (
  arith,
  length-set r.xpram (xpram_address r) r.shift,
  All-set IsByte r.xpram (xpram_address r) r.shift v.shift_fits v.xpram_bytes,
  write_register-IsValid r.shift r v.shift_fits v,
)

byte_in-IsValid : (s : State) (r : Rtc) → IsValid r → IsValid (byte_in s r)
unfolding byte_in
byte_in-IsValid command r v = command_byte-IsValid r v
byte_in-IsValid extended_command r v = address_byte-IsValid r v
byte_in-IsValid write_data r v = data_byte-IsValid r v
byte_in-IsValid read_data r v = v

clocked_in_bit-IsValid : (b : Bool) (r : Rtc) → IsValid r → IsValid (clocked_in_bit b r)
unfolding clocked_in_bit
clocked_in_bit-IsValid b r v =
    let r' = record r { shift = u8 (bit_or (r.shift <<< 1) (from_bool b)); bits = 0 } in
    let v' : IsValid r' = ground arith in ground (arith, byte_in-IsValid r.state r' v')

shift_out-IsValid : (r : Rtc) → IsValid r → IsValid (shift_out r)
unfolding shift_out
shift_out-IsValid r v = ground arith

rising_edge-IsValid : (s : State) (b : Bool) (r : Rtc) → IsValid r → IsValid (rising_edge s b r)
unfolding rising_edge
rising_edge-IsValid read_data b r v = shift_out-IsValid r v
rising_edge-IsValid command b r v = clocked_in_bit-IsValid b r v
rising_edge-IsValid extended_command b r v = clocked_in_bit-IsValid b r v
rising_edge-IsValid write_data b r v = clocked_in_bit-IsValid b r v

-- A change of the lines keeps every register in range.
pub set_lines-IsValid :
    (level clock enable : Bool) (r : Rtc) → IsValid r → IsValid (set_lines level clock enable r)
unfolding set_lines
set_lines-IsValid level clock enable r v =
    ground (arith, rising_edge-IsValid r.state level (record r { enabled = true }))
