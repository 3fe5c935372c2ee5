-- ===== src/Via.antt =====
-- The 6522 VIA of core/src/machine/via.hpp and via.cpp.
-- An operation returns the chip and the calls of `outA`, `outB`, `srArmed` and `srDisarmed` that
-- it makes, in order. What `inA` and `inB` answer is an argument: `none` where there is no callback.
pub mod Invariant
pub mod Interrupt
pub mod Timer
pub mod Tests
use open_mac_for_linux.Base.{
  ℕ, zero, suc, ◌+◌, ◌-◌, bit_and, bit_or, Bool, true, false, not, ◌&&◌, ◌||◌, Option, none, some,
  List, [], ◌∷◌, u8, u16, not8, ◌<<<◌, ◌>>>◌, ltb, ◌==◌, ◌!=◌, if◌then◌else◌, same,
}

pub record Via6522 : Type 0 where
  pub orb : ℕ
  pub ora : ℕ
  pub ddrb : ℕ
  pub ddra : ℕ
  pub t1c : ℕ
  pub t1l : ℕ
  pub t2c : ℕ
  pub t2ll : ℕ
  pub t1_running : Bool
  pub t2_running : Bool
  pub sr : ℕ
  pub acr : ℕ
  pub pcr : ℕ
  pub ifr : ℕ
  pub ier : ℕ
  pub ca1 : Bool
  pub ca2 : Bool
  pub pb7_level : Bool
  pub sr_ticks : ℕ
  pub sr_input : Bool

pub data Effect : Type 0 where
  out_a : ℕ → ℕ → Effect
  out_b : ℕ → ℕ → Effect
  sr_armed : Bool → Effect
  sr_disarmed : Effect

abbrev pub irq_ca2 : ℕ
irq_ca2 = 0x01

abbrev pub irq_ca1 : ℕ
irq_ca1 = 0x02

abbrev pub irq_sr : ℕ
irq_sr = 0x04

abbrev pub irq_cb2 : ℕ
irq_cb2 = 0x08

abbrev pub irq_cb1 : ℕ
irq_cb1 = 0x10

abbrev pub irq_t2 : ℕ
irq_t2 = 0x20

abbrev pub irq_t1 : ℕ
irq_t1 = 0x40

-- The shift register's two fields keep their values.
pub reset : Via6522 → Via6522
reset v = record v {
  orb = 0;
  ora = 0;
  ddrb = 0;
  ddra = 0;
  t1c = 0xFFFF;
  t1l = 0xFFFF;
  t2c = 0xFFFF;
  t1_running = false;
  t2_running = false;
  sr = 0;
  acr = 0;
  pcr = 0;
  ifr = 0;
  ier = 0;
  ca1 = false;
  ca2 = false;
  pb7_level = false;
}

pub set_ifr : ℕ → Via6522 → Via6522
set_ifr mask v = record v { ifr = bit_or v.ifr mask }

pub clear_ifr : ℕ → Via6522 → Via6522
clear_ifr mask v = record v { ifr = u8 (bit_and v.ifr (not8 mask)) }

pub irq_asserted : Via6522 → Bool
irq_asserted v = bit_and (bit_and v.ifr v.ier) 0x7F != 0

-- What a port reads as: the latch where it is an output, the pins elsewhere.
pub port : ℕ → ℕ → Option ℕ → ℕ
port latch ddr input =
    let pins : ℕ = elim input [ none ↦ 0xFF | some x ↦ x ] in
    u8 (bit_or (bit_and latch ddr) (bit_and pins (not8 ddr)))

pub sr_mode : ℕ → ℕ
sr_mode acr = bit_and (acr >>> 2) 7

-- Modes 3 and 7 are clocked by the device.
pub external : ℕ → Bool
external mode = mode == 3 || mode == 7

-- Register 10 read.
pub read_sr : Via6522 → ℕ × Via6522 × List Effect
read_sr v0 =
    let v = clear_ifr irq_sr v0 in
    if external (sr_mode v.acr)
    then (v.sr, v, sr_armed true ∷ [])
    else if sr_mode v.acr != 0
    then (v.sr, record v { sr_ticks = 16; sr_input = true }, [])
    else (v.sr, v, [])

-- Register 10 written.
pub write_sr : ℕ → Via6522 → Via6522 × List Effect
write_sr value v0 =
    let v = clear_ifr irq_sr (record v0 { sr = value }) in
    let mode = sr_mode v.acr in
    if external mode
    then (v, sr_armed (mode == 3) ∷ [])
    else if mode != 0
    then (record v { sr_ticks = 16; sr_input = bit_and mode 4 == 0 }, [])
    else (v, [])

-- Register 11 written.
pub write_acr : ℕ → Via6522 → Via6522 × List Effect
write_acr value v =
    let was_external = external (sr_mode v.acr) in
    let is_external = external (sr_mode value) in
    (record v { acr = value }, if was_external && not is_external then sr_disarmed ∷ [] else [])

-- Registers 8 to 14.
pub read_high : ℕ → Via6522 → ℕ × Via6522 × List Effect
read_high reg v =
    if reg == 8
    then (bit_and v.t2c 0xFF, clear_ifr irq_t2 v, [])
    else if reg == 9
    then (u8 (v.t2c >>> 8), v, [])
    else if reg == 10
    then read_sr v
    else if reg == 11
    then (v.acr, v, [])
    else if reg == 12
    then (v.pcr, v, [])
    else if reg == 13
    then (u8 (bit_or v.ifr (if irq_asserted v then 0x80 else 0)), v, [])
    else if reg == 14
    then (u8 (bit_or v.ier 0x80), v, [])
    else (0, v, [])

-- The arguments are the register and what `inA` and `inB` answer.
pub read : ℕ → Option ℕ → Option ℕ → Via6522 → ℕ × Via6522 × List Effect
read reg0 in_a in_b v =
    let reg = bit_and reg0 15 in
    if reg == 0
    then (port v.orb v.ddrb in_b, clear_ifr (bit_or irq_cb1 irq_cb2) v, [])
    else if reg == 1
    then (port v.ora v.ddra in_a, clear_ifr (bit_or irq_ca1 irq_ca2) v, [])
    else if reg == 15
    then (port v.ora v.ddra in_a, v, [])
    else if reg == 2
    then (v.ddrb, v, [])
    else if reg == 3
    then (v.ddra, v, [])
    else if reg == 4
    then (bit_and v.t1c 0xFF, clear_ifr irq_t1 v, [])
    else if reg == 5
    then (u8 (v.t1c >>> 8), v, [])
    else if reg == 6
    then (bit_and v.t1l 0xFF, v, [])
    else if reg == 7
    then (u8 (v.t1l >>> 8), v, [])
    else read_high reg v

pub write_t1_high : ℕ → Via6522 → Via6522
write_t1_high value v0 =
    let latch = u16 (bit_or (bit_and v0.t1l 0x00FF) (value <<< 8)) in
    let v = clear_ifr irq_t1 (record v0 { t1l = latch; t1c = latch; t1_running = true }) in
    if bit_and v.acr 0x80 != 0 then record v { pb7_level = false } else v

-- Registers 8 to 14 written.
pub write_high : ℕ → ℕ → Via6522 → Via6522 × List Effect
write_high reg value v =
    if reg == 8
    then (record v { t2ll = value }, [])
    else if reg == 9
    then (
      clear_ifr irq_t2 (record v { t2c = u16 (bit_or (value <<< 8) v.t2ll); t2_running = true }),
      [],
    )
    else if reg == 10
    then write_sr value v
    else if reg == 11
    then write_acr value v
    else if reg == 12
    then (record v { pcr = value }, [])
    else if reg == 13
    then (record v { ifr = u8 (bit_and v.ifr (not8 (bit_and value 0x7F))) }, [])
    else if reg == 14
    then (
      record v {
        ier =
            if bit_and value 0x80 != 0
            then u8 (bit_or v.ier (bit_and value 0x7F))
            else u8 (bit_and v.ier (not8 (bit_and value 0x7F)));
      },
      [],
    )
    else (v, [])

pub write : ℕ → ℕ → Via6522 → Via6522 × List Effect
write reg0 value v =
    let reg = bit_and reg0 15 in
    if reg == 0
    then (clear_ifr (bit_or irq_cb1 irq_cb2) (record v { orb = value }), out_b value v.ddrb ∷ [])
    else if reg == 1
    then (clear_ifr (bit_or irq_ca1 irq_ca2) (record v { ora = value }), out_a value v.ddra ∷ [])
    else if reg == 15
    then (record v { ora = value }, out_a value v.ddra ∷ [])
    else if reg == 2
    then (record v { ddrb = value }, out_b v.orb value ∷ [])
    else if reg == 3
    then (record v { ddra = value }, out_a v.ora value ∷ [])
    else if reg == 4 || reg == 6
    then (record v { t1l = u16 (bit_or (bit_and v.t1l 0xFF00) value) }, [])
    else if reg == 5
    then (write_t1_high value v, [])
    else if reg == 7
    then (
      clear_ifr irq_t1 (record v { t1l = u16 (bit_or (bit_and v.t1l 0x00FF) (value <<< 8)) }),
      [],
    )
    else write_high reg value v

-- One clock of the shift register's countdown.
pub tick_sr : Via6522 → Via6522
tick_sr v =
    if ltb 0 v.sr_ticks
    then (let w = record v { sr_ticks = v.sr_ticks - 1 } in
        if w.sr_ticks == 0
        then set_ifr irq_sr (record w { sr = if w.sr_input then 0xFF else w.sr })
        else w)
    else v

-- Timer 1 at zero while it is armed.
pub t1_expired : Via6522 → Via6522
t1_expired v0 =
    let v = record (set_ifr irq_t1 v0) {
      pb7_level =
          if bit_and v0.acr 0x80 != 0
          then (if bit_and v0.acr 0x40 != 0 then not v0.pb7_level else true)
          else v0.pb7_level;
    } in
    if bit_and v.acr 0x40 != 0
    then record v { t1c = v.t1l }
    else record v { t1_running = false; t1c = 0xFFFF }

pub tick_t1 : Via6522 → Via6522
tick_t1 v =
    if v.t1c == 0
    then (if v.t1_running then t1_expired v else record v { t1c = 0xFFFF })
    else record v { t1c = v.t1c - 1 }

pub tick_t2 : Via6522 → Via6522
tick_t2 v =
    if bit_and v.acr 0x20 == 0
    then (if v.t2c == 0
        then (let w =
              if v.t2_running then record (set_ifr irq_t2 v) { t2_running = false } else v in
            record w { t2c = 0xFFFF })
        else record v { t2c = v.t2c - 1 })
    else v

-- `tick` with a count that is not negative.
pub tick : ℕ → Via6522 → Via6522
tick zero v = v
tick (suc clocks) v = tick clocks (tick_t2 (tick_t1 (tick_sr v)))

pub set_ca1 : Bool → Via6522 → Via6522
set_ca1 level v =
    let positive = bit_and v.pcr 0x01 != 0 in
    if same v.ca1 level
    then v
    else (let w =
          if (positive && (not v.ca1 && level)) || (not positive && (v.ca1 && not level))
          then set_ifr irq_ca1 v
          else v in
        record w { ca1 = level })

pub set_ca2 : Bool → Via6522 → Via6522
set_ca2 level v =
    if bit_and v.pcr 0x08 != 0
    then record v { ca2 = level }
    else (let positive = bit_and v.pcr 0x04 != 0 in
        if same v.ca2 level
        then v
        else (let w =
              if (positive && (not v.ca2 && level)) || (not positive && (v.ca2 && not level))
              then set_ifr irq_ca2 v
              else v in
            record w { ca2 = level }))

pub complete_shift : Bool → ℕ → Via6522 → Via6522
complete_shift input in_value v = record v {
  sr = if input then in_value else v.sr;
  ifr = bit_or (bit_or v.ifr 0x04) 0x10;
}

-- The effective level of the PB7 pin.
pub pb7 : Via6522 → Bool
pb7 v =
    if (bit_and v.acr 0x80 != 0) && (bit_and v.ddrb 0x80 != 0)
    then v.pb7_level
    else bit_and v.orb 0x80 != 0
