-- ===== src/Oss.antt =====
-- The interrupt controller of core/src/machine/iifx/oss.hpp.
-- A source is a natural number: a negative one is out of range, as one from 16 up is.
-- `onInterruptChange` tells the machine that it should ask for the level again, and is left out.
pub mod Level
pub mod Latch
pub mod Tests
use open_mac_for_linux.Base.{
  ℕ, zero, suc, ◌+◌, ◌^◌, bit_and, bit_or, Bool, true, false, ◌&&◌, List, u8, not8, not16, ◌<<<◌,
  ◌>>>◌, ltb, ◌==◌, ◌!=◌, if◌then◌else◌, set, get_or, replicate,
}

pub record Oss : Type 0 where
  pub priorities : List ℕ
  pub level_mask : ℕ
  pub latch_mask : ℕ
  pub rom_control : ℕ
  pub powered_off : Bool
  pub ipl_dirty : Bool
  pub cached_ipl : ℕ

abbrev pub clock_60hz : ℕ
clock_60hz = 10

pub changed : Oss → Oss
changed o = record o { ipl_dirty = true }

pub reset : Oss → Oss
reset o = changed (record o {
  priorities = replicate 16 0;
  level_mask = 0;
  latch_mask = 0;
  rom_control = 0;
  powered_off = false;
})

pub pending : Oss → ℕ
pending o = bit_or o.level_mask o.latch_mask

pub read : ℕ → Oss → ℕ
read reg0 o =
    let reg = bit_and reg0 0x1FFF in
    if ltb reg 16
    then get_or o.priorities reg 0
    else if reg == 0x202
    then u8 (pending o >>> 8)
    else if reg == 0x203
    then u8 (pending o)
    else if reg == 0x204
    then o.rom_control
    else 0

pub write : ℕ → ℕ → Oss → Oss
write reg0 value o =
    let reg = bit_and reg0 0x1FFF in
    if ltb reg 16
    then changed (record o { priorities = set o.priorities reg (bit_and value 7) })
    else if reg == 0x202
    then changed (record o { latch_mask = bit_and o.latch_mask (not16 (value <<< 8)) })
    else if reg == 0x203
    then changed (record o { latch_mask = bit_and o.latch_mask (not16 value) })
    else if reg == 0x204
    then record o { rom_control = value; powered_off = bit_and value 0x80 != 0 }
    else if reg == 0x207
    then changed (record o { latch_mask = bit_and o.latch_mask (not16 (2 ^ clock_60hz)) })
    else o

pub set_level : ℕ → Bool → Oss → Oss
set_level source asserted o =
    if ltb source 16
    then (let mask =
          if asserted
          then bit_or o.level_mask (2 ^ source)
          else bit_and o.level_mask (not16 (2 ^ source)) in
        let o' = record o { level_mask = mask } in if o.level_mask != mask then changed o' else o')
    else o

pub pulse : ℕ → Oss → Oss
pulse source o =
    if ltb source 16
    then changed (record o { latch_mask = bit_or o.latch_mask (2 ^ source) })
    else o

pub priority : ℕ → Oss → ℕ
priority source o = if ltb source 16 then get_or o.priorities source 0 else 0

-- The loop of `ipl` from `source` on, `left` sources to go.
pub scan : List ℕ → ℕ → ℕ → ℕ → ℕ → ℕ
scan priorities active zero source result = result
scan priorities active (suc left) source result =
    let p = bit_and (get_or priorities source 0) 7 in
    scan priorities active left (source + 1)
      (if (bit_and active (2 ^ source) != 0) && ltb result p then p else result)

-- The level, and the controller with its cache renewed.
pub ipl : Oss → ℕ × Oss
ipl o =
    if o.ipl_dirty
    then (let result = scan o.priorities (pending o) 16 0 0 in
        (result, record o { cached_ipl = result; ipl_dirty = false }))
    else (o.cached_ipl, o)
