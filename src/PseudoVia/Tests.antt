-- ===== src/PseudoVia/Tests.antt =====
-- Runs of the pseudo-VIA, and its theorem at a concrete history.
use open_mac_for_linux.Base.{true, false, ◌≡◌, refl, List, [], ◌∷◌}
use open_mac_for_linux.PseudoVia.{
  power_on, update, active, eff_ifr, write, set_slot_irq, edge, reset,
}
use open_mac_for_linux.PseudoVia.Line.{Op, resets, writes, slot_line, step, run, seen}

-- The slot interrupt enabled, then raised.
abbrev slot_raised : List Op
slot_raised = resets ∷ writes 14 0x82 ∷ slot_line true ∷ slot_line false ∷ []

slot_raised_line : (run slot_raised power_on false).1 ≡ true
unfolding run step reset update active eff_ifr write set_slot_irq edge power_on seen
slot_raised_line = refl
