-- ===== src/Scc.antt =====
-- The serial controller on an empty wire: core/src/machine/quadra/scc.hpp. An operation returns the new
-- controller; the calls of `onDmaRequestChange` are counted in `request_changes`, and what is only
-- printed is left out. The cycles of a tick are not negative, so that no timer goes below zero.
pub mod Transmit
pub mod Pending
pub mod Tests
use open_mac_for_linux.Base.{
  ℕ, ◌+◌, ◌-◌, ◌*◌, ◌%◌, ◌^◌, bit_and, bit_or, Bool, true, false, not, ◌&&◌, ◌||◌, List, get_or,
  set, replicate, u8, u32, not8, ◌<<<◌, ◌>>>◌, ltb, leb, ◌==◌, ◌!=◌, if◌then◌else◌,
}

abbrev pub k_byte_cycles : ℕ
k_byte_cycles = 1150

abbrev pub k_feed_delay : ℕ
k_feed_delay = 96

pub record Chan : Type 0 where
  pub wr : List ℕ
  pub tx_empty : Bool
  pub underrun : Bool
  pub underrun_armed : Bool
  pub buf_full : Bool
  pub shift_timer : ℕ
  pub feed_timer : ℕ
  pub ext_ip : Bool
  pub tx_ip : Bool
  pub rx_ip : Bool
  pub rr10 : ℕ
  pub bytes_sent : ℕ

-- Channel B, which the source has first, and channel A.
pub record Scc8530 : Type 0 where
  pub b : Chan
  pub a : Chan
  pub ptr : ℕ
  pub wr2 : ℕ
  pub wr9 : ℕ
  pub request_changes : ℕ

unfoldable pub chan_reset : Chan → Chan
chan_reset c = record {
  wr = set (replicate 16 0) 15 0xF8;
  tx_empty = true;
  underrun = true;
  underrun_armed = false;
  buf_full = false;
  shift_timer = 0;
  feed_timer = 0;
  ext_ip = false;
  tx_ip = false;
  rx_ip = false;
  rr10 = 0;
  bytes_sent = c.bytes_sent;
}

unfoldable pub reset : Scc8530 → Scc8530
reset s = record {
  b = chan_reset s.b;
  a = chan_reset s.a;
  ptr = 0;
  wr2 = 0;
  wr9 = 0;
  request_changes = s.request_changes + 1;
}

unfoldable pub rr0 : Chan → ℕ
rr0 c = bit_or (bit_or 0x10 (if c.tx_empty then 0x04 else 0)) (if c.underrun then 0x40 else 0)

-- A bit when a condition holds.
abbrev pub mark : Bool → ℕ → ℕ
mark on bits = if on then bits else 0

unfoldable pub pending_bits : Scc8530 → ℕ
pending_bits s =
    bit_or
      (bit_or (bit_or (mark s.b.ext_ip 0x01) (mark s.b.tx_ip 0x02))
        (bit_or (mark s.b.rx_ip 0x04) (mark s.a.ext_ip 0x08)))
      (bit_or (mark s.a.tx_ip 0x10) (mark s.a.rx_ip 0x20))

unfoldable pub irq_asserted : Scc8530 → Bool
irq_asserted s =
    if bit_and s.wr9 0x08 == 0
    then false
    else (s.b.ext_ip || (s.b.tx_ip || s.b.rx_ip)) || (s.a.ext_ip || (s.a.tx_ip || s.a.rx_ip))

-- The highest pending source.
unfoldable pub source_code : Scc8530 → ℕ
source_code s =
    if s.a.rx_ip
    then 6
    else if s.a.tx_ip
    then 4
    else if s.a.ext_ip
    then 5
    else if s.b.rx_ip
    then 2
    else if s.b.tx_ip
    then 0
    else if s.b.ext_ip
    then 1
    else 3

unfoldable pub modified_vector : Scc8530 → ℕ
modified_vector s =
    let code = source_code s in
    let reversed =
      u8 (bit_or (bit_or (bit_and code 1 <<< 2) (bit_and code 2)) (bit_and code 4 >>> 2)) in
    if bit_and s.wr9 0x10 != 0
    then u8 (bit_or (bit_and s.wr2 0x8F) (reversed <<< 4))
    else u8 (bit_or (bit_and s.wr2 0xF1) (code <<< 1))

-- The channel of an offset: channel A for 2 and 6.
abbrev pub is_a : ℕ → Bool
is_a off = bit_and (off >>> 1) 1 != 0

abbrev pub chan : ℕ → Scc8530 → Chan
chan off s = if is_a off then s.a else s.b

abbrev pub with_chan : ℕ → Chan → Scc8530 → Scc8530
with_chan off c s = if is_a off then record s { a = c } else record s { b = c }

-- A byte to transmit, and whether the request for one changes.
unfoldable pub tx_byte : Chan → Bool × Chan
tx_byte c =
    let sent = u32 (c.bytes_sent + 1) in
    if ltb 0 c.shift_timer
    then (c.tx_empty, record c { bytes_sent = sent; buf_full = true; tx_empty = false })
    else (
      not c.tx_empty,
      record c {
        bytes_sent = sent;
        shift_timer = k_byte_cycles;
        tx_empty = true;
        feed_timer = k_feed_delay;
      },
    )

abbrev pub noted : Bool → Scc8530 → Scc8530
noted change s = if change then record s { request_changes = s.request_changes + 1 } else s

abbrev pub transmit : ℕ → Scc8530 → Scc8530
transmit off s = let (change, c) = tx_byte (chan off s) in noted change (with_chan off c s)

unfoldable pub read : ℕ → Scc8530 → ℕ × Scc8530
read off s =
    let c = chan off s in
    let reg = s.ptr in
    let s' = record s { ptr = 0 } in
    if bit_and off 4 != 0
    then (0, s)
    else if reg == 0
    then (rr0 c, s')
    else if reg == 1
    then (0x07, s')
    else if reg == 2
    then (if is_a off then s.wr2 else modified_vector s, s')
    else if reg == 3
    then (if is_a off then pending_bits s else 0, s')
    else if reg == 10
    then (c.rr10, s')
    else (get_or c.wr (bit_and reg 15) 0, s')

-- The effect of WR0 on its channel.
unfoldable pub commanded : ℕ → Chan → Chan
commanded v c =
    let cmd = bit_and (v >>> 3) 7 in
    let c' =
      if cmd == 2
      then record c { ext_ip = false }
      else if cmd == 5
      then record c { tx_ip = false }
      else if cmd == 6
      then record c { rx_ip = false }
      else c in
    if bit_and (v >>> 6) 3 == 3 then record c' { underrun = false; underrun_armed = true } else c'

unfoldable pub command : ℕ → ℕ → Scc8530 → Scc8530
command off v s =
    let reg = bit_and v 7 in
    record (with_chan off (commanded v (chan off s)) s) {
      ptr = if bit_and (v >>> 3) 7 == 1 then reg + 8 else reg;
    }

unfoldable pub write_wr9 : ℕ → Scc8530 → Scc8530
write_wr9 v s =
    let field = bit_and v 0xC0 in
    let s' =
      if field == 0x40
      then record s { b = chan_reset s.b }
      else if field == 0x80
      then record s { a = chan_reset s.a }
      else if field == 0xC0
      then record s { b = chan_reset s.b; a = chan_reset s.a; wr2 = 0 }
      else s in
    record s' { wr9 = bit_and v 0x3F }

abbrev pub clears_missing : ℕ → Bool
clears_missing v = let field = bit_and v 0xE0 in field == 0x20 || (field == 0x40 || field == 0x60)

unfoldable pub write_wr14 : ℕ → Chan → Chan
write_wr14 v c = record c {
  rr10 = if clears_missing v then u8 (bit_and c.rr10 (not8 0xC0)) else c.rr10;
  wr = set c.wr 14 v;
}

unfoldable pub write : ℕ → ℕ → Scc8530 → Scc8530
write off v s0 =
    let reg = s0.ptr in
    let s = record s0 { ptr = 0 } in
    let c = chan off s in
    if bit_and off 4 != 0
    then transmit off s0
    else if reg == 0
    then command off v s0
    else if reg == 2
    then record s { wr2 = v }
    else if reg == 8
    then transmit off s
    else if reg == 9
    then write_wr9 v s
    else if reg == 14
    then with_chan off (write_wr14 v c) s
    else with_chan off (record c { wr = set c.wr (bit_and reg 15) v }) s

-- The buffer-empty interrupt comes due.
unfoldable pub tick_feed : ℕ → Chan → Chan
tick_feed cycles c =
    if c.feed_timer == 0
    then c
    else if leb c.feed_timer cycles
    then record c {
      feed_timer = 0;
      tx_ip = if bit_and (get_or c.wr 1 0) 0x02 != 0 then true else c.tx_ip;
    }
    else record c { feed_timer = c.feed_timer - cycles }

-- The byte in the shift register has gone.
unfoldable pub shifted_out : Chan → Bool × Chan
shifted_out c =
    if c.buf_full
    then (
      not c.tx_empty,
      record c {
        buf_full = false;
        tx_empty = true;
        shift_timer = k_byte_cycles;
        feed_timer = k_feed_delay;
      },
    )
    else if c.underrun_armed
    then (
      false,
      record c {
        shift_timer = 0;
        underrun_armed = false;
        underrun = true;
        ext_ip =
            if bit_and (get_or c.wr 15 0) 0x40 != 0 && bit_and (get_or c.wr 1 0) 0x01 != 0
            then true
            else c.ext_ip;
      },
    )
    else (false, record c { shift_timer = 0 })

unfoldable pub tick_chan : ℕ → Chan → Bool × Chan
tick_chan cycles c0 =
    let c = tick_feed cycles c0 in
    if c.shift_timer == 0
    then (false, c)
    else if leb c.shift_timer cycles
    then shifted_out c
    else (false, record c { shift_timer = c.shift_timer - cycles })

unfoldable pub tick : ℕ → Scc8530 → Scc8530
tick cycles s =
    let (change_b, b) = tick_chan cycles s.b in
    let (change_a, a) = tick_chan cycles s.a in
    noted change_a (noted change_b (record s { b = b; a = a }))

unfoldable pub dma_request : ℕ → Bool → Scc8530 → Bool
dma_request peripheral peripheral_to_ram s =
    if peripheral_to_ram || (ltb peripheral 2 || ltb 3 peripheral)
    then false
    else if peripheral == 2
    then s.b.tx_empty
    else s.a.tx_empty
