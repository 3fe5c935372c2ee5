-- ===== src/Cpu/Machine/Stack.antt =====
-- The stack on a bus that is a memory of words.
use open_mac_for_linux.Base.{
  ℕ, zero, suc, List, [], ◌∷◌, get_or, ◌+◌, ◌*◌, ◌/◌, ◌%◌, ◌^◌, ◌<◌, bit_and, bit_or, false, ◌≡◌,
  ◌≢◌, refl, ap, sym, ◌∙◌, u16, u32, sub32, ◌<<<◌, ◌>>>◌, arith, length, get_or-set_self,
  bit_and_low, bit_or_join, set,
}
use open_mac_for_linux.Cpu.Machine.{
  Bus, Cpu, ◌>>◌, ◌>>=◌, Outcome, ok, fault, M, a_reg, set_a, accessed, is_odd, rd32, wr32, push32,
  pop32,
}

-- A bus whose words read back what was written last, and whose reads change nothing.
pub record IsMemory (S : Type 0) (bus : Bus S) : Type 0 where
  pub keeps : (a : ℕ) (w : S) → (bus.read16 a w).1 ≡ w
  pub written : (a v : ℕ) (w : S) → v < 2 ^ 16 → (bus.read16 a (bus.write16 a v w)).0 ≡ v
  pub apart :
      (a b v : ℕ) (w : S) → a ≢ b → (bus.read16 b (bus.write16 a v w)).0 ≡ (bus.read16 b w).0

even-address : (a : ℕ) → a % 2 ≡ 0 → is_odd a ≡ false
even-address a h = rw (bit_and_low 1 a) ground arith

set-set : (xs : List ℕ) (i v w : ℕ) → set (set xs i v) i w ≡ set xs i w
set-set [] i v w = refl
set-set (x ∷ xs) zero v w = refl
set-set (x ∷ xs) (suc i) v w = ap (λ (ys : List ℕ). x ∷ ys) (set-set xs i v w)

set-get_or : (xs : List ℕ) (i : ℕ) → set xs i (get_or xs i 0) ≡ xs
set-get_or [] i = refl
set-get_or (x ∷ xs) zero = refl
set-get_or (x ∷ xs) (suc i) = ap (λ (ys : List ℕ). x ∷ ys) (set-get_or xs i)

-- A computation that returns, followed by another.
run-ok :
    {S A B : Type 0} (m : M S A) (f : A → M S B) (c c' : Cpu S) (x : A)
    → m c ≡ ok x c'
    → (m >>= f) c ≡ f x c'
run-ok {S} {A} {B} m f c c' x e =
    ap
      (λ (o : Outcome S A). elim o as (λ _. Outcome S B) [
        | ok y d ↦ f y d
        | fault err d ↦ fault err d
      ])
      e

-- A long in two words.
halves : (v : ℕ) → v < 2 ^ 32 → bit_or (u32 (u16 (v >>> 16) <<< 16)) (bit_and v 0xFFFF) ≡ v
halves v h =
    rw (bit_and_low 16 v, high v h)
      (bit_or_join 16 (v / 2 ^ 16) (v % 2 ^ 16) (omega arith) ∙ omega arith)
  where
    high : (v : ℕ) → v < 2 ^ 32 → u32 (u16 (v >>> 16) <<< 16) ≡ v / 2 ^ 16 * 2 ^ 16
    high v h = omega arith

low-half : (v : ℕ) → bit_and v 0xFFFF < 2 ^ 16
low-half v = rw (bit_and_low 16 v) (omega arith)

words-apart : (a : ℕ) → bit_and (u32 (a + 2)) 0xFFFFFF ≢ bit_and a 0xFFFFFF
words-apart a e = differ (sym (bit_and_low 24 (u32 (a + 2))) ∙ (e ∙ bit_and_low 24 a))
  where
    differ : u32 (a + 2) % 2 ^ 24 ≢ a % 2 ^ 24
    differ e = omega arith

module _ {S : Type 0} ⦃bus : Bus S⦄ where
  -- The two words of a long stored.
  abbrev pub stored : ℕ → ℕ → S → S
  stored addr v w =
      bus.write16 (bit_and (u32 (addr + 2)) 0xFFFFFF) (bit_and v 0xFFFF)
        (bus.write16 (bit_and addr 0xFFFFFF) (u16 (v >>> 16)) w)

  wr32-even :
      (addr v : ℕ) (c : Cpu S)
      → addr % 2 ≡ 0
      → wr32 addr v c ≡ ok tt (accessed 8 (record c { world = stored addr v c.world }))
  unfolding wr32
  wr32-even addr v c h = rw (even-address addr h) refl

  push32-even :
      (v : ℕ) (c : Cpu S)
      → 7 < length c.a
      → sub32 (a_reg 7 c) 4 % 2 ≡ 0
      → push32 v c ≡ (
          ok tt (
            accessed 8 (record (set_a 7 (sub32 (a_reg 7 c) 4) c) {
              world = stored (sub32 (a_reg 7 c) 4) v c.world;
            })))
  unfolding push32
  push32-even v c long h =
      rw (get_or-set_self c.a 7 (sub32 (a_reg 7 c) 4) 0 long)
        (wr32-even (sub32 (a_reg 7 c) 4) v _ h)

module _ {S : Type 0} ⦃bus : Bus S⦄ (memory : IsMemory S bus) where
  rd32-stored :
      (addr v : ℕ) (w : S) (c : Cpu S)
      → addr % 2 ≡ 0
      → v < 2 ^ 32
      → c.world ≡ stored addr v w
      → rd32 addr c ≡ ok v (accessed 8 c)
  unfolding rd32
  rd32-stored addr v w c h small e =
      let high =
        memory.apart (bit_and (u32 (addr + 2)) 0xFFFFFF) (bit_and addr 0xFFFFFF) (bit_and v 0xFFFF)
          (bus.write16 (bit_and addr 0xFFFFFF) (u16 (v >>> 16)) w) (words-apart addr)
        ∙ memory.written (bit_and addr 0xFFFFFF) (u16 (v >>> 16)) w (omega arith) in
      let read_high : (bus.read16 (bit_and addr 0xFFFFFF) c.world).0 ≡ u16 (v >>> 16) =
        ap (λ (w : S). (bus.read16 (bit_and addr 0xFFFFFF) w).0) e ∙ high in
      let read_low : (bus.read16 (bit_and (u32 (addr + 2)) 0xFFFFFF) c.world).0 ≡ bit_and v 0xFFFF =
        ap (λ (w : S). (bus.read16 (bit_and (u32 (addr + 2)) 0xFFFFFF) w).0) e
        ∙ memory.written (bit_and (u32 (addr + 2)) 0xFFFFFF) (bit_and v 0xFFFF)
            (bus.write16 (bit_and addr 0xFFFFFF) (u16 (v >>> 16)) w) (low-half v) in
      rw
        (
          even-address addr h,
          memory.keeps (bit_and addr 0xFFFFFF) c.world,
          memory.keeps (bit_and (u32 (addr + 2)) 0xFFFFFF) c.world,
          read_high,
          read_low,
          halves v small,
        )
        refl

  pop32-stored :
      (v : ℕ) (c pushed : Cpu S)
      → 7 < length c.a
      → a_reg 7 c % 2 ≡ 0
      → a_reg 7 c < 2 ^ 32
      → v < 2 ^ 32
      → let low = sub32 (a_reg 7 c) 4 in
        a_reg 7 pushed ≡ low
        → rd32 low pushed ≡ ok v (accessed 8 pushed)
        → pop32 pushed ≡ ok v (set_a 7 (a_reg 7 c) (accessed 8 pushed))
  unfolding pop32
  pop32-stored v c pushed long h sp small at read =
      let back : u32 (sub32 (a_reg 7 c) 4 + 4) ≡ a_reg 7 c = omega arith in
      run-ok (rd32 (a_reg 7 pushed)) _ pushed (accessed 8 pushed) v (rw at read)
      ∙ rw (at, back) refl

  -- On a bus that is a memory of words, with an even 32-bit stack pointer, popping a long right
  -- after pushing it gives it back, and leaves the processor as it was, the stack pointer and every
  -- other register included, but for the long below the stack and the bookkeeping of a data access.
  pub pop32-push32 :
      (v : ℕ) (c : Cpu S)
      → 7 < length c.a
      → a_reg 7 c % 2 ≡ 0
      → a_reg 7 c < 2 ^ 32
      → v < 2 ^ 32
      → (push32 v >> pop32) c
        ≡ (ok v (accessed 8 (record c { world = stored (sub32 (a_reg 7 c) 4) v c.world })))
  pop32-push32 v c long h sp small =
      let low = sub32 (a_reg 7 c) 4 in
      let even : low % 2 ≡ 0 = omega arith in
      let pushed = accessed 8 (record (set_a 7 low c) { world = stored low v c.world }) in
      run-ok (push32 v) (λ _. pop32) c pushed tt (push32-even v c long even)
      ∙ (pop32-stored v c pushed long h sp small (get_or-set_self c.a 7 low 0 long)
            (rd32-stored low v c.world pushed even small refl)
          ∙ rw (set-set c.a 7 low (a_reg 7 c), set-get_or c.a 7) refl)
