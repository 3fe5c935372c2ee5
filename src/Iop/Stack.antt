-- ===== src/Iop/Stack.antt =====
-- The stack of the controller's processor, which lies in the shared memory, and its vectors.
use mathlib.Core.Bool.{true≢false}
use open_mac_for_linux.Base.{
  ℕ, ◌<◌, ◌≤◌, length, get_or, set, length-set, get_or-set_self, get_or-set_ne, ◌≡◌, refl, ap, ◌∙◌,
  ltb, leb, ◌||◌, arith, Bool, true, false, sym, ◌-◌, if◌then◌else◌,
}
use open_mac_for_linux.R65c02.Stack.{IsStack, on_stack, on_stack_sum}
use open_mac_for_linux.Iop.{Asic, Outside, cpu_read, program_bus}
use open_mac_for_linux.Iop.Window.{cpu_read-ram, cpu_write-ram}

kept : {A : Type 0} (c : Bool) (x y : A) → c ≡ true → (if c then x else y) ≡ x
kept true x y h = refl
kept false x y h = absurd (true≢false (sym h))

kept_else : {A : Type 0} (c : Bool) (x y : A) → c ≡ false → (if c then x else y) ≡ y
kept_else true x y h = absurd (true≢false h)
kept_else false x y h = refl

low : (s : ℕ) → s < 256 → on_stack s < 0x8000
low s h = omega (arith, on_stack_sum s h)

module _ {P : Type 0} ⦃outer : Outside P⦄ where
  abbrev pub IsWhole : Asic P → Type 0
  IsWhole s = length s.ram ≡ 0x8000

  -- Page one is memory.
  pub program_bus-IsStack : IsStack (Asic P) program_bus IsWhole
  unfolding program_bus cpu_read
  program_bus-IsStack = record {
    keeps = λ s w hs. ap (λ r. r.1) (cpu_read-ram (on_stack s) w (low s hs));
    stored = λ s v w hs hv fits.
        ap (λ t. length t.ram) (cpu_write-ram (on_stack s) v w (low s hs))
        ∙ (length-set w.ram (on_stack s) v ∙ fits);
    written = λ s v w hs hv fits.
        ap (λ t. (cpu_read (on_stack s) t).0) (cpu_write-ram (on_stack s) v w (low s hs))
        ∙ (ap (λ r. r.0)
              (cpu_read-ram (on_stack s) (record w { ram = set w.ram (on_stack s) v }) (low s hs))
            ∙ get_or-set_self w.ram (on_stack s) v 0 (omega (arith, fits, low s hs)));
    apart = λ s r v w hs hr ne.
        ap (λ t. (cpu_read (on_stack r) t).0) (cpu_write-ram (on_stack s) v w (low s hs))
        ∙ (ap (λ x. x.0)
              (cpu_read-ram (on_stack r) (record w { ram = set w.ram (on_stack s) v }) (low r hr))
            ∙ (get_or-set_ne w.ram (on_stack s) (on_stack r) v 0
                  (λ e. ne (omega (arith, e, on_stack_sum s hs, on_stack_sum r hr)))
                ∙ sym (ap (λ x. x.0) (cpu_read-ram (on_stack r) w (low r hr)))));
  }

  -- Reading a vector, or any byte of the highest 2 KiB, changes nothing.
  pub cpu_read-high : (a : ℕ) (s : Asic P) → 0xF800 ≤ a → (program_bus.read a s).1 ≡ s
  unfolding program_bus cpu_read
  cpu_read-high a s h =
      ap {A = ℕ × Asic P} (λ r. r.1)
        (kept_else (ltb a 0x8000) _ _ (ground arith)
          ∙ kept (ltb a 0xF000 || leb 0xF800 a) (get_or s.ram (a - 0x8000) 0, s) _ (ground arith))
