-- ===== src/Oss/Level.antt =====
-- The interrupt level is the highest priority among the pending sources, and the cache never
-- hides a change.
use open_mac_for_linux.Base.{
  ℕ, zero, suc, ◌+◌, ◌≤◌, ◌<◌, ◌^◌, bit_and, Bool, true, ◌≡◌, ◌⊎◌, inl, inr, refl, sym, ◌∙◌, List,
  [], ◌∷◌, arith, bit, get_or, length, ◌!=◌, ltb, ◌&&◌, Bool-cases, length-set, ◌==◌, ==_iff, subst,
  test-bit, if◌then◌else◌,
}
use open_mac_for_linux.Oss.{Oss, changed, reset, pending, write, set_level, pulse, scan, ipl}

-- The priority of a source as the encoder reads it.
abbrev pub rank : List ℕ → ℕ → ℕ
rank ps s = bit_and (get_or ps s 0) 7

-- `n` is the highest rank of the active sources from `lo` to `hi`, or `base` if that is more.
record IsHighest (ps : List ℕ) (active lo hi base n : ℕ) : Type 0 where
  at_least : base ≤ n
  above : (s : ℕ) → lo ≤ s → s < hi → bit active s ≡ 1 → rank ps s ≤ n
  reached : (n ≡ base) ⊎ ((s : ℕ) × (lo ≤ s) × (s < hi) × (bit active s ≡ 1) × (rank ps s ≡ n))

-- One round of the loop.
abbrev better : List ℕ → ℕ → ℕ → ℕ → ℕ
better ps active s result =
    if (bit_and active (2 ^ s) != 0) && ltb result (rank ps s) then rank ps s else result

better_bounds :
    (ps : List ℕ) (active s base : ℕ)
    → (base ≤ better ps active s base)
      × (bit active s ≡ 1 → rank ps s ≤ better ps active s base)
      × ((better ps active s base ≡ base)
          ⊎ ((bit active s ≡ 1) × (better ps active s base ≡ rank ps s)))
better_bounds ps active s base =
    (ground arith, λ on. ground (arith, test-bit active s), ground (arith, test-bit active s))

better-IsHighest :
    (ps : List ℕ) (active s hi base n : ℕ)
    → s < hi
    → IsHighest ps active (s + 1) hi (better ps active s base) n
    → IsHighest ps active s hi base n
better-IsHighest ps active s hi base n h later =
    let b = better_bounds ps active s base in
    record {
      at_least = omega (arith, b.0, later.at_least);
      above = λ j lo up on. elim (Bool-cases (s == j)) [
        | inl e ↦
            let p : s ≡ j = (==_iff s j).0 e in
            subst (λ i. rank ps i ≤ n) p (omega (arith, b.1 (rw p on), later.at_least))
        | inr e ↦ later.above j (ground arith) up on
      ];
      reached = elim later.reached [
        | inl e ↦ elim b.2 [
          | inl same_base ↦ inl (e ∙ same_base)
          | inr won ↦ inr (s, omega arith, h, won.0, sym (e ∙ won.1))
        ]
        | inr (j, lo, up, on, e) ↦ inr (j, omega arith, up, on, e)
      ];
    }

scan-IsHighest :
    (ps : List ℕ) (active left s result : ℕ)
    → IsHighest ps active s (s + left) result (scan ps active left s result)
unfolding scan
scan-IsHighest ps active zero s result = record {
  at_least = omega arith;
  above = λ j lo up on. absurd (omega arith);
  reached = inl refl;
}
scan-IsHighest ps active (suc left) s result =
    let next = better ps active s result in
    better-IsHighest ps active s (s + suc left) result (scan ps active left (s + 1) next)
      (omega arith)
      (subst (λ e. IsHighest ps active (s + 1) e next (scan ps active left (s + 1) next))
        (omega arith) (scan-IsHighest ps active left (s + 1) next))

-- The true interrupt level of a controller.
abbrev pub level : Oss → ℕ
level o = scan o.priorities (pending o) 16 0 0

-- What every operation keeps: a cache that is not marked dirty holds the true level.
pub record IsValid (o : Oss) : Type 0 where
  pub sources : length o.priorities ≡ 16
  pub fresh : (o.ipl_dirty ≡ true) ⊎ (o.cached_ipl ≡ level o)

pub data Op : Type 0 where
  resets : Op
  writes : ℕ → ℕ → Op
  sets_level : ℕ → Bool → Op
  pulses : ℕ → Op
  asks : Op

unfoldable pub step : Op → Oss → Oss
step resets o = reset o
step (writes reg value) o = write reg value o
step (sets_level source asserted) o = set_level source asserted o
step (pulses source) o = pulse source o
step asks o = (ipl o).1

unfoldable pub run : List Op → Oss → Oss
run [] o = o
run (op ∷ ops) o = run ops (step op o)

step-IsValid : (op : Op) (o : Oss) → IsValid o → IsValid (step op o)
unfolding step reset changed
step-IsValid resets o v = record { sources = refl; fresh = inl refl }
step-IsValid (writes reg value) o v =
    unfold write pending in
    ground (arith, length-set o.priorities (bit_and reg 0x1FFF) (bit_and value 7))
step-IsValid (sets_level source asserted) o v = unfold set_level pending in ground arith
step-IsValid (pulses source) o v = unfold pulse in ground arith
step-IsValid asks o v = unfold ipl pending in ground arith

run-IsValid : (ops : List Op) (o : Oss) → IsValid o → IsValid (run ops o)
unfolding run
run-IsValid [] o v = v
run-IsValid (op ∷ ops) o v = run-IsValid ops (step op o) (step-IsValid op o v)

ipl-level : (o : Oss) → IsValid o → (ipl o).0 ≡ level o
unfolding ipl
ipl-level o v = ground arith

-- After any history of register writes, level changes, pulses, resets and queries, the answer of
-- `ipl` is the highest priority among the pending sources: none of the sixteen exceeds it, and it
-- is 0 or the priority of one that is pending.
pub ipl-run :
    (ops : List Op) (o : Oss)
    → IsValid o
    → let o' = run ops o in
      ((s : ℕ) → s < 16 → bit (pending o') s ≡ 1 → rank o'.priorities s ≤ (ipl o').0)
      × (((ipl o').0 ≡ 0)
          ⊎ ((s : ℕ) × (s < 16) × (bit (pending o') s ≡ 1) × (rank o'.priorities s ≡ (ipl o').0)))
ipl-run ops o v =
    let o' = run ops o in
    let highest = scan-IsHighest o'.priorities (pending o') 16 0 0 in
    rw (ipl-level o' (run-IsValid ops o v)) (
      λ s h on. highest.above s (omega arith) h on,
      elim highest.reached [ inl e ↦ inl e | inr (s, lo, up, on, e) ↦ inr (s, up, on, e) ],
    )
