-- ===== src/Via/Tests.antt =====
-- Runs of the VIA, and its theorems at a concrete chip.
use open_mac_for_linux.Base.{true, false, ◌≡◌, refl, List, [], ◌∷◌, none, arith, bit}
use open_mac_for_linux.Via.{Via6522, tick}
use open_mac_for_linux.Via.Invariant.{IsValid, Op, writes, ticks, reads, run, run-IsValid}
use open_mac_for_linux.Via.Timer.{t1_deadline}

-- Timer 1 armed with three clocks to go, free-running.
abbrev armed : Via6522
armed = record {
  orb = 0;
  ora = 0;
  ddrb = 0;
  ddra = 0;
  t1c = 3;
  t1l = 3;
  t2c = 0xFFFF;
  t2ll = 0;
  t1_running = true;
  t2_running = false;
  sr = 0;
  acr = 0x40;
  pcr = 0;
  ifr = 0;
  ier = 0x40;
  ca1 = false;
  ca2 = false;
  pb7_level = false;
  sr_ticks = 0;
  sr_input = false;
}

armed-IsValid : IsValid armed
armed-IsValid = omega arith

t1_deadline_example : bit (tick 4 armed).ifr 6 ≡ 1
t1_deadline_example = t1_deadline 4 armed refl

abbrev one_shot : Via6522
one_shot = record armed { acr = 0 }

abbrev history : List Op
history = writes 5 0x12 (omega arith) ∷ ticks 20 ∷ reads 4 none none ∷ []

run-IsValid_example : IsValid (run history armed)
run-IsValid_example = run-IsValid history armed armed-IsValid
