-- ===== src/PseudoVia/Line.antt =====
-- The interrupt line: what the machine was last told is what the registers and the wires say.
use open_mac_for_linux.Base.{ℕ, Bool, false, ◌&&◌, ◌≡◌, refl, List, [], ◌∷◌, bit, ◌||◌, ◌==◌}
use open_mac_for_linux.PseudoVia.{
  PseudoVia, Effect, irq, out_b, power_on, active, eff_ifr, reset, write, set_scsi_drq,
  set_slot_irq, set_scsi_irq, set_asc_irq,
}

pub data Op : Type 0 where
  resets : Op
  writes : ℕ → ℕ → Op
  drq slot_line scsi_line asc_line : Bool → Op

unfoldable pub step : Op → PseudoVia → PseudoVia × List Effect
step resets v = reset v
step (writes reg x) v = write reg x v
step (drq level) v = set_scsi_drq level v
step (slot_line level) v = set_slot_irq level v
step (scsi_line level) v = set_scsi_irq level v
step (asc_line level) v = set_asc_irq level v

-- The level that the machine sees after some calls: that of the last `onIrq`.
unfoldable pub seen : Bool → List Effect → Bool
seen level [] = level
seen level (irq now ∷ es) = seen now es
seen level (out_b x ddr ∷ es) = seen level es

-- The chip and the machine's view of the line after a history.
unfoldable pub run : List Op → PseudoVia → Bool → PseudoVia × Bool
run [] v level = (v, level)
run (op ∷ ops) v level = let (v', es) = step op v in run ops v' (seen level es)

-- The line is driven as the registers and the wires say, and the machine knows it.
pub record IsSettled (v : PseudoVia) (level : Bool) : Type 0 where
  pub driven : v.irq_out ≡ active v
  pub told : level ≡ v.irq_out

-- Whether an input asks for an interrupt that is enabled: a latched flag, or one of the two live
-- SCSI lines.
abbrev pub requested : ℕ → Bool → PseudoVia → Bool
requested k wire v = (bit v.ier k == 1) && (bit v.ifr k == 1 || wire)

-- Out of power-on the output is low.
pub power_on-IsSettled : IsSettled power_on false
unfolding power_on active eff_ifr
power_on-IsSettled = record { driven = refl; told = refl }
