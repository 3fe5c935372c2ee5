-- ===== src/Iop/Clocks.antt =====
-- The clocks of the controller: its loops end.
use open_mac_for_linux.Base.{
  ℕ, zero, suc, ◌+◌, ◌-◌, ◌*◌, ◌/◌, ◌^◌, ◌<◌, ◌≤◌, ◌⊎◌, inr, Bool, true, false, ◌||◌, ◌≡◌, refl,
  ◌==◌, if◌then◌else◌, arith,
}
use open_mac_for_linux.R65c02.{set_irq}
use open_mac_for_linux.R65c02.Execute.{step, u64}
use open_mac_for_linux.R65c02.Timing.{step_cost}
use open_mac_for_linux.Iop.{
  Asic, Outside, negative, k_main_cpu_hz, k_iop_cpu_hz, program_bus, set_interrupt, timer_interrupt,
  has,
}
use open_mac_for_linux.Iop.Machine.{
  IifxIop, asic, runs, spent, run_cpu, advance_cpu, expire, advance_timer,
}

-- A phase that has no cycle to run, and owes seven at most.
unfoldable pub IsSettled : ℕ → Type 0
IsSettled phase =
    (runs phase ≡ false)
    × ((phase < k_main_cpu_hz) ⊎ ((2 ^ 64 - 7 * k_main_cpu_hz ≤ phase) × (phase < 2 ^ 64)))

-- A phase with fewer cycles to run than some number, or settled.
abbrev IsShort : ℕ → ℕ → Type 0
IsShort rounds phase =
    (phase < (rounds + 1) * k_main_cpu_hz)
    ⊎ ((2 ^ 64 - 7 * k_main_cpu_hz ≤ phase) × (phase < 2 ^ 64))

spent-IsShort :
    (rounds used phase : ℕ)
    → rounds ≤ 2 ^ 32
    → 1 ≤ used
    → used ≤ 8
    → runs phase ≡ true
    → IsShort (suc rounds) phase
    → IsShort rounds (spent used phase)
spent-IsShort rounds used phase r low high h short = ground arith

IsShort-IsSettled : (phase : ℕ) → IsShort 0 phase → IsSettled phase
unfolding IsSettled
IsShort-IsSettled phase s = ground arith

stopped :
    (rounds phase : ℕ)
    → rounds ≤ 2 ^ 32
    → runs phase ≡ false
    → IsShort rounds phase
    → IsSettled phase
unfolding IsSettled
stopped rounds phase r h s = ground arith

either-IsSettled :
    {P : Type 0} (c : Bool) (x y : IifxIop P)
    → (c ≡ true → IsSettled x.cpu_phase)
    → (c ≡ false → IsSettled y.cpu_phase)
    → IsSettled (if c then x else y).cpu_phase
either-IsSettled true x y hx hy = hx refl
either-IsSettled false x y hx hy = hy refl

-- The phase after the clock has moved on, and the rounds that it makes.
rounds_enough :
    (phase cycles : ℕ)
    → cycles < 2 ^ 31
    → IsSettled phase
    → let phase' = u64 (phase + cycles * k_iop_cpu_hz) in
      let fuel : ℕ = if negative phase' then 0 else phase' / k_main_cpu_hz in
      (fuel ≤ 2 ^ 32) × IsShort fuel phase'
unfolding IsSettled
rounds_enough phase cycles h s = ground arith

module _ {P : Type 0} ⦃outer : Outside P⦄ where
  run_cpu-IsSettled :
      (fuel : ℕ) (i : IifxIop P)
      → fuel ≤ 2 ^ 32
      → IsShort fuel i.cpu_phase
      → IsSettled (run_cpu fuel i).cpu_phase
  unfolding run_cpu
  run_cpu-IsSettled zero i r s = IsShort-IsSettled i.cpu_phase s
  run_cpu-IsSettled (suc fuel) i r s =
      let (used, cpu) = step (set_irq (asic i).irq_line i.cpu) in
      let (low, high) = step_cost (set_irq (asic i).irq_line i.cpu) in
      let next : IifxIop P = record i {
        cpu = cpu;
        cpu_cycles = u64 (i.cpu_cycles + used);
        cpu_phase = spent used i.cpu_phase;
      } in
      either-IsSettled (runs i.cpu_phase) (run_cpu fuel next) i
        (λ go.
          run_cpu-IsSettled fuel next (omega arith)
            (spent-IsShort fuel used i.cpu_phase (omega arith) low high go s))
        (λ halt. stopped (suc fuel) i.cpu_phase r halt s)

  -- However many cycles of the main processor pass in a call, fewer than 2 ^ 31, the loop on the
  -- instructions ends: it leaves no cycle to run, and owes seven cycles at most for the last instruction,
  -- when it began so. Each instruction spends a cycle at least, whatever the memory and the chips hold.
  pub advance_cpu-IsSettled :
      (cycles : ℕ) (i : IifxIop P)
      → cycles < 2 ^ 31
      → IsSettled i.cpu_phase
      → IsSettled (advance_cpu cycles i).cpu_phase
  unfolding advance_cpu
  advance_cpu-IsSettled cycles i h s =
      let phase = u64 (i.cpu_phase + cycles * k_iop_cpu_hz) in
      let i' : IifxIop P = record i { cpu_phase = phase } in
      let fuel : ℕ = if negative phase then 0 else phase / k_main_cpu_hz in
      let (few, short) = rounds_enough i.cpu_phase cycles h s in
      either-IsSettled (asic i).reset_held i (run_cpu fuel i') (λ e. s)
        (λ e. run_cpu-IsSettled fuel i' few short)

-- A timer that counts, or has stopped at minus one.
unfoldable pub IsCounting : ℕ → Type 0
IsCounting t = ((0 < t) × (t < 2 ^ 63)) ⊎ (t ≡ 2 ^ 64 - 1)

-- A timer that counts, or is behind by less than some rounds of sixteen make up for.
abbrev IsBehind : ℕ → ℕ → Type 0
IsBehind fuel t =
    ((0 < t) × (t < 2 ^ 63)) ⊎ (((t ≡ 0) × (0 < fuel)) ⊎ ((2 ^ 64 < t + 16 * fuel) × (t < 2 ^ 64)))

owing_none : (t : ℕ) → IsBehind 0 t → IsCounting t
unfolding IsCounting
owing_none t b = ground arith

owing_next :
    (fuel t latch : ℕ)
    → latch < 2 ^ 16
    → fuel ≤ 2 ^ 32
    → (t == 0 || negative t) ≡ true
    → IsBehind (suc fuel) t
    → IsBehind fuel (u64 (t + (latch + 2) * 8))
owing_next fuel t latch l f e b = ground arith

owing_not :
    (fuel t : ℕ) → fuel ≤ 2 ^ 32 → (t == 0 || negative t) ≡ false → IsBehind fuel t → IsCounting t
unfolding IsCounting
owing_not fuel t f e b = ground arith

stopped_timer : IsCounting (2 ^ 64 - 1)
unfolding IsCounting
stopped_timer = inr refl

owing_first :
    (ticks t : ℕ)
    → ticks < 2 ^ 32
    → negative t ≡ false
    → IsCounting t
    → IsBehind (ticks / 16 + 1) (u64 (t + 2 ^ 64 - ticks))
unfolding IsCounting
owing_first ticks t h e c = ground arith

chosen-IsCounting :
    {P : Type 0} (c : Bool) (x y : Asic P)
    → (c ≡ true → IsCounting x.timer_ticks)
    → (c ≡ false → IsCounting y.timer_ticks)
    → IsCounting (if c then x else y).timer_ticks
chosen-IsCounting true x y hx hy = hx refl
chosen-IsCounting false x y hx hy = hy refl

module _ {P : Type 0} ⦃outer : Outside P⦄ where
  expire-IsCounting :
      (fuel : ℕ) (s : Asic P)
      → fuel ≤ 2 ^ 32
      → s.timer_latch < 2 ^ 16
      → IsBehind fuel s.timer_ticks
      → IsCounting (expire fuel s).timer_ticks
  unfolding expire
  expire-IsCounting zero s f l b = owing_none s.timer_ticks b
  expire-IsCounting (suc fuel) s f l b =
      let s1 =
        set_interrupt timer_interrupt
          (record s { timer_expirations = u64 (s.timer_expirations + 1) }) in
      let s2 = record s1 { timer_ticks = u64 (s.timer_ticks + (s.timer_latch + 2) * 8) } in
      let over = record s1 {
        timer_since_expiry = u64 (2 ^ 64 - s.timer_ticks);
        timer_ticks = 2 ^ 64 - 1;
      } in
      let periodic = has s.timer_dpll_control 1 in
      chosen-IsCounting (s.timer_ticks == 0 || negative s.timer_ticks)
        (if periodic then expire fuel s2 else over) s
        (λ e.
          chosen-IsCounting periodic (expire fuel s2) over
            (λ p.
              expire-IsCounting fuel s2 (omega arith) l
                (owing_next fuel s.timer_ticks s.timer_latch l (omega arith) e b))
            (λ p. stopped_timer))
        (λ e. owing_not (suc fuel) s.timer_ticks f e b)

  -- However many ticks pass at once, fewer than 2 ^ 32, the loop on a timer that has run out ends: the
  -- timer counts again, above zero, or has stopped at minus one, when it began so. The latch has sixteen
  -- bits.
  pub advance_timer-IsCounting :
      (ticks : ℕ) (s : Asic P)
      → ticks < 2 ^ 32
      → s.timer_latch < 2 ^ 16
      → IsCounting s.timer_ticks
      → IsCounting (advance_timer ticks s).timer_ticks
  unfolding advance_timer
  advance_timer-IsCounting ticks s h l c =
      let t = u64 (s.timer_ticks + 2 ^ 64 - ticks) in
      let s1 = record s { timer_ticks = t } in
      let s2 = record s { timer_since_expiry = u64 (s.timer_since_expiry + ticks) } in
      chosen-IsCounting (negative s.timer_ticks) s2 (expire (ticks / 16 + 1) s1) (λ e. c)
        (λ e.
          expire-IsCounting (ticks / 16 + 1) s1 (omega arith) l
            (owing_first ticks s.timer_ticks h e c))
