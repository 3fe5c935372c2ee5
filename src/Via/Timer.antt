-- ===== src/Via/Timer.antt =====
-- Timer 1: when it interrupts, once or again and again.
use open_mac_for_linux.Base.{
  ℕ, zero, suc, ◌+◌, ◌-◌, ◌*◌, ◌<◌, ◌≤◌, bit_and, bit_or, true, false, ◌≡◌, refl, ◌∙◌, arith, bit,
  bit-lt, bit-bit_or, ◌!=◌, if◌then◌else◌, not8, ltb, Bool-cases, inl, inr, subst, sym, bit-clear8,
  bit-mod,
}
use open_mac_for_linux.Via.{
  Via6522, set_ifr, clear_ifr, tick_sr, tick_t1, tick_t2, t1_expired, tick,
}

-- The parts of the chip that timer 1 works with.
record SameT1 (v w : Via6522) : Type 0 where
  t1c : w.t1c ≡ v.t1c
  t1l : w.t1l ≡ v.t1l
  running : w.t1_running ≡ v.t1_running
  acr : w.acr ≡ v.acr
  flag : bit w.ifr 6 ≡ bit v.ifr 6

tick_sr-SameT1 : (v : Via6522) → SameT1 v (tick_sr v)
unfolding tick_sr set_ifr
tick_sr-SameT1 v = ground (arith, bit-bit_or v.ifr 4 6, bit-lt v.ifr 6)

tick_t2-SameT1 : (v : Via6522) → SameT1 v (tick_t2 v)
unfolding tick_t2 set_ifr
tick_t2-SameT1 v = ground (arith, bit-bit_or v.ifr 32 6, bit-lt v.ifr 6)

-- One clock of the whole chip.
abbrev clock : Via6522 → Via6522
clock v = tick_t2 (tick_t1 (tick_sr v))

-- A clock while the counter is not zero.
clock_counts : (v : Via6522) → 0 < v.t1c → SameT1 (record v { t1c = v.t1c - 1 }) (clock v)
unfolding tick_t1
clock_counts v h =
    let a = tick_sr-SameT1 v in let b = tick_t2-SameT1 (tick_t1 (tick_sr v)) in ground (arith, a, b)

-- A clock at zero while timer 1 is armed, and while it is not.
t1_flag : (v : Via6522) → bit (bit_or v.ifr 0x40) 6 ≡ 1
t1_flag v = ground (arith, bit-bit_or v.ifr 0x40 6, bit-lt v.ifr 6)

abbrev fired : Via6522 → Via6522
fired v = record v {
  t1c = if bit_and v.acr 0x40 != 0 then v.t1l else 0xFFFF;
  t1_running = bit_and v.acr 0x40 != 0;
  ifr = 0x40;
}

clock_fires : (v : Via6522) → v.t1c ≡ 0 → v.t1_running ≡ true → SameT1 (fired v) (clock v)
unfolding tick_t1 t1_expired set_ifr
clock_fires v h on =
    let a = tick_sr-SameT1 v in
    let b = tick_t2-SameT1 (tick_t1 (tick_sr v)) in ground (arith, a, b, t1_flag (tick_sr v))

clock_idle :
    (v : Via6522)
    → v.t1_running ≡ false
    → ((clock v).t1_running ≡ false) × (bit (clock v).ifr 6 ≡ bit v.ifr 6)
unfolding tick_t1
clock_idle v off =
    let a = tick_sr-SameT1 v in let b = tick_t2-SameT1 (tick_t1 (tick_sr v)) in ground (arith, a, b)

tick-add : (a b : ℕ) (v : Via6522) → tick (a + b) v ≡ tick b (tick a v)
unfolding tick
tick-add zero b v = let e : zero + b ≡ b = omega arith in rw e refl
tick-add (suc a) b v =
    let e : suc a + b ≡ suc (a + b) = omega arith in rw e (tick-add a b (clock v))

-- Counting down.
tick_counts : (k : ℕ) (v : Via6522) → k ≤ v.t1c → SameT1 (record v { t1c = v.t1c - k }) (tick k v)
unfolding tick
tick_counts zero v h = record {
  t1c = omega arith;
  t1l = refl;
  running = refl;
  acr = refl;
  flag = refl;
}
tick_counts (suc k) v h =
    let one = clock_counts v (omega arith) in
    let rest = tick_counts k (clock v) (omega (arith, one.t1c)) in
    record {
      t1c = omega (arith, one.t1c, rest.t1c);
      t1l = rest.t1l ∙ one.t1l;
      running = rest.running ∙ one.running;
      acr = rest.acr ∙ one.acr;
      flag = rest.flag ∙ one.flag;
    }

-- The counter runs out after one clock more than it holds.
tick_fires : (v : Via6522) → v.t1_running ≡ true → SameT1 (fired v) (tick (v.t1c + 1) v)
tick_fires v on =
    let down = tick_counts v.t1c v (omega arith) in
    let fire = clock_fires (tick v.t1c v) (omega (arith, down.t1c)) (down.running ∙ on) in
    rw (tick-add v.t1c 1 v) (unfold tick in ground (arith, fire, down))

-- A tick never clears the flag.
clock_keeps : (v : Via6522) → bit v.ifr 6 ≡ 1 → bit (clock v).ifr 6 ≡ 1
unfolding tick_t1 t1_expired set_ifr
clock_keeps v h =
    let a = tick_sr-SameT1 v in
    let b = tick_t2-SameT1 (tick_t1 (tick_sr v)) in ground (arith, a, b, t1_flag (tick_sr v))

tick_keeps : (k : ℕ) (v : Via6522) → bit v.ifr 6 ≡ 1 → bit (tick k v).ifr 6 ≡ 1
unfolding tick
tick_keeps zero v h = h
tick_keeps (suc k) v h = tick_keeps k (clock v) (clock_keeps v h)

-- The flag of an armed timer 1, after any number of clocks and no access to the chip: it is set if
-- the clocks are more than the counter held, and is otherwise as it was at the start, set or clear.
pub t1_deadline :
    (k : ℕ) (v : Via6522)
    → v.t1_running ≡ true
    → bit (tick k v).ifr 6 ≡ (if ltb v.t1c k then 1 else bit v.ifr 6)
t1_deadline k v on = elim (Bool-cases (ltb v.t1c k)) [
  | inl late ↦
      let e : k ≡ v.t1c + 1 + (k - (v.t1c + 1)) = ground arith in
      rw late (
        subst (λ n. bit (tick n v).ifr 6 ≡ 1) (sym e)
          (rw (tick-add (v.t1c + 1) (k - (v.t1c + 1)) v)
            (tick_keeps (k - (v.t1c + 1)) (tick (v.t1c + 1) v) ((tick_fires v on).flag))))
  | inr early ↦ rw early ((tick_counts k v (ground arith)).flag)
]

-- An armed timer with the latch `l` at the start of a period.
record IsArmed (l mode : ℕ) (v : Via6522) : Type 0 where
  t1c : v.t1c ≡ l
  t1l : v.t1l ≡ l
  running : v.t1_running ≡ true
  acr : v.acr ≡ mode

cycle :
    (l acr : ℕ) (v : Via6522)
    → (bit_and acr 0x40 != 0) ≡ true
    → IsArmed l acr v
    → IsArmed l acr (tick (l + 1) v) × (bit (tick (l + 1) v).ifr 6 ≡ 1)
cycle l acr v cont a =
    let f : SameT1 (fired v) (tick (l + 1) v) =
      subst (λ n. SameT1 (fired v) (tick (n + 1) v)) a.t1c (tick_fires v a.running) in
    ground (arith, f, a)

cycles :
    (n l acr : ℕ) (v : Via6522)
    → (bit_and acr 0x40 != 0) ≡ true
    → IsArmed l acr v
    → IsArmed l acr (tick (suc n * (l + 1)) v) × (bit (tick (suc n * (l + 1)) v).ifr 6 ≡ 1)
cycles zero l acr v cont a =
    let e : suc zero * (l + 1) ≡ l + 1 = omega arith in rw e (cycle l acr v cont a)
cycles (suc n) l acr v cont a =
    let e : suc (suc n) * (l + 1) ≡ l + 1 + suc n * (l + 1) = grind arith in
    rw (e, tick-add (l + 1) (suc n * (l + 1)) v)
      (cycles n l acr (tick (l + 1) v) cont (cycle l acr v cont a).0)

-- In the continuous mode an armed timer that starts at its latch is back there, armed and with its
-- flag set, after every latch + 1 clocks.
pub t1_periodic :
    (n : ℕ) (v : Via6522)
    → v.t1_running ≡ true
    → (bit_and v.acr 0x40 != 0) ≡ true
    → v.t1c ≡ v.t1l
    → let w = tick (suc n * (v.t1l + 1)) v in
      (w.t1c ≡ v.t1l)
      × (w.t1l ≡ v.t1l)
      × (w.t1_running ≡ true)
      × (bit w.ifr 6 ≡ 1)
      × (w.acr ≡ v.acr)
t1_periodic n v on cont full =
    let a =
      cycles n v.t1l v.acr v cont (record { t1c = full; t1l = refl; running = on; acr = refl }) in
    (a.0.t1c, a.0.t1l, a.0.running, a.1, a.0.acr)

idle_stays :
    (j : ℕ) (v : Via6522) → v.t1_running ≡ false → bit v.ifr 6 ≡ 0 → bit (tick j v).ifr 6 ≡ 0
unfolding tick
idle_stays zero v off clear = clear
idle_stays (suc j) v off clear =
    let one = clock_idle v off in idle_stays j (clock v) one.0 (one.1 ∙ clear)

cleared_flag : (v : Via6522) → bit (clear_ifr 0x40 v).ifr 6 ≡ 0
unfolding clear_ifr
cleared_flag v =
    bit-mod 8 (bit_and v.ifr (not8 0x40)) 6 (omega arith) ∙ bit-clear8 v.ifr 0x40 6 (omega arith)

-- In the one-shot mode the timer interrupts once: when its flag is cleared after it fired, no
-- number of clocks sets it again.
pub t1_one_shot :
    (j : ℕ) (v : Via6522)
    → v.t1_running ≡ true
    → (bit_and v.acr 0x40 != 0) ≡ false
    → bit (tick j (clear_ifr 0x40 (tick (v.t1c + 1) v))).ifr 6 ≡ 0
t1_one_shot j v on once =
    let f = tick_fires v on in
    let w = tick (v.t1c + 1) v in
    idle_stays j (clear_ifr 0x40 w) (unfold clear_ifr in ground (arith, f)) (cleared_flag w)
