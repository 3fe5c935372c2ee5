-- ===== src/Oss/Tests.antt =====
-- Runs of the interrupt controller, and its theorems at a concrete one.
use open_mac_for_linux.Base.{
  ℕ, ◌<◌, true, false, ◌≡◌, ◌⊎◌, inl, refl, List, [], ◌∷◌, bit, replicate,
}
use open_mac_for_linux.Oss.{Oss, ipl, pending, write, set_level, pulse, changed, scan}
use open_mac_for_linux.Oss.Level.{
  IsValid, Op, writes, sets_level, pulses, asks, step, run, ipl-run, rank,
}

abbrev quiet : Oss
quiet = record {
  priorities = replicate 16 0;
  level_mask = 0;
  latch_mask = 0;
  rom_control = 0;
  powered_off = false;
  ipl_dirty = true;
  cached_ipl = 0;
}

quiet-IsValid : IsValid quiet
quiet-IsValid = record { sources = refl; fresh = inl refl }

-- The clock at priority 6 and a level at 3, asked twice.
abbrev busy_day : List Op
busy_day = writes 10 6 ∷ writes 9 3 ∷ sets_level 9 true ∷ asks ∷ pulses 10 ∷ []

busy_day_level : (ipl (run busy_day quiet)).0 ≡ 6
unfolding ipl run step write changed set_level pulse pending scan
busy_day_level = refl

ipl-run_example :
    ((ipl (run busy_day quiet)).0 ≡ 0)
    ⊎ ((s : ℕ) × (s < 16)
        × (bit (pending (run busy_day quiet)) s ≡ 1)
        × (rank (run busy_day quiet).priorities s ≡ (ipl (run busy_day quiet)).0))
ipl-run_example = (ipl-run busy_day quiet quiet-IsValid).1
