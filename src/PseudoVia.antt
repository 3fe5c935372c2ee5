-- ===== src/PseudoVia.antt =====
-- The software VIA2 of core/src/machine/quadra/pseudovia.hpp.
-- An operation returns the chip and the calls of `onIrq` and `outB` that it makes, in order.
-- `onDiag` and its two budgets only report to a debugger and are left out.
pub mod Line
pub mod Tests
use open_mac_for_linux.Base.{
  ℕ, ◌+◌, bit_and, bit_or, Bool, true, false, not, ◌&&◌, ◌||◌, Option, none, some, List, [], ◌∷◌,
  ◌++◌, u8, not8, ◌==◌, ◌!=◌, if◌then◌else◌, same,
}

pub record PseudoVia : Type 0 where
  pub ifr : ℕ
  pub ier : ℕ
  pub ora : ℕ
  pub orb : ℕ
  pub ddra : ℕ
  pub ddrb : ℕ
  pub irq_out : Bool
  pub scsi_drq : Bool
  pub slot : Bool
  pub scsi_irq : Bool
  pub asc : Bool

pub data Effect : Type 0 where
  irq : Bool → Effect
  out_b : ℕ → ℕ → Effect

pub power_on : PseudoVia
power_on = record {
  ifr = 0x1B;
  ier = 0;
  ora = 0;
  orb = 0;
  ddra = 0;
  ddrb = 0;
  irq_out = false;
  scsi_drq = false;
  slot = false;
  scsi_irq = false;
  asc = false;
}

abbrev pub when : Bool → ℕ → ℕ
when b n = if b then n else 0

-- The latch plus the live SCSI lines.
pub eff_ifr : PseudoVia → ℕ
eff_ifr v = u8 (bit_or (bit_or v.ifr (when v.scsi_drq 0x01)) (when v.scsi_irq 0x08))

-- What the interrupt line should be.
pub active : PseudoVia → Bool
active v = bit_and (bit_and (eff_ifr v) v.ier) 0x1B != 0

pub update : PseudoVia → PseudoVia × List Effect
update v =
    let now = active v in
    if same now v.irq_out then (v, []) else (record v { irq_out = now }, irq now ∷ [])

pub reset : PseudoVia → PseudoVia × List Effect
reset v = update (record v { ifr = 0; ier = 0; ora = 0; orb = 0; ddra = 0; ddrb = 0 })

-- `ina` is what the port-A callback answers, if there is one.
pub read : ℕ → Option ℕ → PseudoVia → ℕ
read reg ina v =
    if reg == 0
    then v.orb
    else if reg == 1 || reg == 15
    then elim ina [ none ↦ v.ora | some a ↦ a ]
    else if reg == 2
    then v.ddrb
    else if reg == 3
    then v.ddra
    else if reg == 13
    then u8 (bit_or (eff_ifr v) (when v.irq_out 0x80))
    else if reg == 14
    then u8 (bit_or v.ier 0x80)
    else 0

pub write : ℕ → ℕ → PseudoVia → PseudoVia × List Effect
write reg x v =
    if reg == 0
    then (record v { orb = x }, out_b x v.ddrb ∷ [])
    else if reg == 1 || reg == 15
    then (record v { ora = x }, [])
    else if reg == 2
    then (record v { ddrb = x }, [])
    else if reg == 3
    then (record v { ddra = x }, [])
    else if reg == 13
    then update (record v { ifr = u8 (bit_and v.ifr (not8 (bit_and x 0x7F))) })
    else if reg == 14
    then update (record v {
      ier =
          if bit_and x 0x80 != 0
          then u8 (bit_or v.ier (bit_and x 0x7F))
          else u8 (bit_and v.ier (not8 (bit_and x 0x7F)));
    })
    else (v, [])

-- `edge` up to its last line, which stores the level in the caller's flag.
pub edge : ℕ → Bool → Bool → PseudoVia → PseudoVia × List Effect
edge bit level prev v =
    if level && not prev then update (record v { ifr = u8 (bit_or v.ifr bit) }) else (v, [])

pub set_scsi_drq : Bool → PseudoVia → PseudoVia × List Effect
set_scsi_drq level v = update (record v { scsi_drq = level })

pub set_slot_irq : Bool → PseudoVia → PseudoVia × List Effect
set_slot_irq level v = let (v', es) = edge 0x02 level v.slot v in (record v' { slot = level }, es)

pub set_scsi_irq : Bool → PseudoVia → PseudoVia × List Effect
set_scsi_irq level v = update (record v { scsi_irq = level })

pub set_asc_irq : Bool → PseudoVia → PseudoVia × List Effect
set_asc_irq level v = let (v', es) = edge 0x10 level v.asc v in (record v' { asc = level }, es)

pub irq_asserted : PseudoVia → Bool
irq_asserted v = v.irq_out
