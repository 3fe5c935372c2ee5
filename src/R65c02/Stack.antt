-- ===== src/R65c02/Stack.antt =====
-- The stack in page one, and returning from interrupts and subroutines.
use open_mac_for_linux.Base.{
  ℕ, ◌+◌, ◌*◌, ◌^◌, ◌<◌, bit_and, bit_or, Bool, true, ◌≡◌, ◌≢◌, refl, ◌∙◌, u8, u16, not8, ◌>>>◌,
  if◌then◌else◌, arith, bit_or_join, bit_or_comm, every_below, every_below_sound, ◌==◌,
}
use open_mac_for_linux.R65c02.{
  Bus, R65c02, ◌>>=◌, k_break, k_reserved, rb, wb, fetch8, fetch16, push, pop,
}
use open_mac_for_linux.R65c02.Execute.{jsr, rts, pulled_status}

abbrev pub on_stack : ℕ → ℕ
on_stack s = u16 (bit_or 0x0100 s)

on_stack_checked : every_below 256 (λ s. on_stack s == 0x100 + s) ≡ true
unfolding every_below
on_stack_checked = refl

pub on_stack_sum : (s : ℕ) → s < 256 → on_stack s ≡ 0x100 + s
on_stack_sum s h =
    ground (arith, every_below_sound 256 (λ s. on_stack s == 0x100 + s) on_stack_checked s h)

-- A bus with memory in page one: a read there changes nothing and gives what was written last. `Fits`
-- is what a state must have for that, and the writes there keep.
pub record IsStack (S : Type 0) (bus : Bus S) (Fits : S → Type 0) : Type 0 where
  pub keeps : (s : ℕ) (w : S) → s < 256 → (bus.read (on_stack s) w).1 ≡ w
  pub stored : (s v : ℕ) (w : S) → s < 256 → v < 256 → Fits w → Fits (bus.write (on_stack s) v w)
  pub written :
      (s v : ℕ) (w : S)
      → s < 256
      → v < 256
      → Fits w
      → (bus.read (on_stack s) (bus.write (on_stack s) v w)).0 ≡ v
  pub apart :
      (s r v : ℕ) (w : S)
      → s < 256
      → r < 256
      → s ≢ r
      → (bus.read (on_stack r) (bus.write (on_stack s) v w)).0 ≡ (bus.read (on_stack r) w).0

abbrev below : ℕ → ℕ
below s = u8 (s + 255)

up_below : (s : ℕ) → s < 256 → u8 (below s + 1) ≡ s
up_below s h = omega arith

below_ne : (s : ℕ) → s < 256 → below s ≢ s
below_ne s h e = absurd (omega arith)

status_test : Bool → ℕ → Bool
status_test software p =
    pulled_status
      (u8 (bit_or (bit_or (bit_and p (not8 k_break)) k_reserved) (if software then k_break else 0)))
    == pulled_status p

module _ {S : Type 0} ⦃bus : Bus S⦄ (Fits : S → Type 0) (memory : IsStack S bus Fits) where
  abbrev store : ℕ → ℕ → S → S
  store s v w = bus.write (on_stack s) v w

  -- Three bytes pushed and read back.
  module _ (s v1 v2 v3 : ℕ) (w : S) (hs : s < 256) (h1 : v1 < 256) (h2 : v2 < 256) (h3 : v3 < 256)
      (fits : Fits w) where
    abbrev two : S
    two = store (below s) v2 (store s v1 w)

    abbrev three : S
    three = store (below (below s)) v3 two

    fits_one : Fits (store s v1 w)
    fits_one = memory.stored s v1 w hs h1 fits

    second : (bus.read (on_stack (below s)) two).0 ≡ v2
    second = memory.written (below s) v2 (store s v1 w) (omega arith) h2 fits_one

    first : (bus.read (on_stack s) two).0 ≡ v1
    first =
        memory.apart (below s) s v2 (store s v1 w) (omega arith) hs (below_ne s hs)
        ∙ memory.written s v1 w hs h1 fits

  -- The processor that has taken an interrupt.
  abbrev status : Bool → R65c02 S → ℕ
  status software c =
      u8 (bit_or (bit_or (bit_and c.p (not8 k_break)) k_reserved) (if software then k_break else 0))

  -- RTS after JSR returns to the instruction that follows, with the stack pointer as it was: page one
  -- is memory, and the reads of the two bytes of the address change nothing.
  pub jsr-rts :
      (c : R65c02 S)
      → c.s < 256
      → Fits c.world
      → ((w : S) → (bus.read c.pc w).1 ≡ w)
      → ((w : S) → (bus.read (u16 (c.pc + 1)) w).1 ≡ w)
      → let back = u16 (u16 (u16 (c.pc + 1) + 1) + 65535) in
        let w = store (below c.s) (u8 back) (store c.s (u8 (back >>> 8)) c.world) in
        (jsr >>= λ _. rts) c ≡ (6, record c { pc = u16 (c.pc + 2); world = w })
  unfolding jsr rts fetch16 fetch8 push pop rb wb
  jsr-rts c hs fits low high =
      let back = u16 (u16 (u16 (c.pc + 1) + 1) + 65535) in
      let v1 = u8 (back >>> 8) in
      let v2 = u8 back in
      let s = c.s in
      let w = c.world in
      let w2 = two s v1 v2 0 w hs (omega arith) (omega arith) (omega arith) fits in
      let whole : bit_or v2 (v1 * 2 ^ 8) ≡ back =
        bit_or_comm 16 v2 (v1 * 2 ^ 8) (omega arith) (omega arith)
        ∙ (bit_or_join 8 v1 v2 (omega arith) ∙ omega arith) in
      let next : u16 (back + 1) ≡ u16 (c.pc + 2) = omega arith in
      rw
        (
          low w,
          high w,
          up_below (below s) (omega arith),
          up_below s hs,
          memory.keeps (below s) w2 (omega arith),
          memory.keeps s w2 hs,
          second s v1 v2 0 w hs (omega arith) (omega arith) (omega arith) fits,
          first s v1 v2 0 w hs (omega arith) (omega arith) (omega arith) fits,
          whole,
          next,
        )
        refl
