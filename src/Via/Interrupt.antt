-- ===== src/Via/Interrupt.antt =====
-- The flag and enable registers as the processor sees them.
use open_mac_for_linux.Base.{
  ℕ, ◌+◌, ◌/◌, ◌<◌, ◌^◌, bit_and, bit_or, Bool, ◌&&◌, ◌≡◌, refl, ap, ap₂, ◌∙◌, [], Option, arith,
  bit, bit-lt, bit-bit_or, bit-bit_and, bit-mod, bit-clear8, u8, not8, ◌==◌, ◌!=◌, if◌then◌else◌,
  bit_and_low, ◌||◌, ◌%◌, bit_or_split, bit_or-zero, test-bit,
}
use open_mac_for_linux.Via.{Via6522, read, read_high, write, write_high, irq_asserted}
use open_mac_for_linux.Via.Invariant.{IsValid}

-- An enabled flag is set.
abbrev pub fires : ℕ → Via6522 → Bool
fires k v = (bit v.ifr k == 1) && (bit v.ier k == 1)

test_7f :
    (x : ℕ)
    → (bit_and x 0x7F != 0) ≡ (
        bit x 0 == 1
        || (bit x 1 == 1
            || (bit x 2 == 1
                || (bit x 3 == 1 || (bit x 4 == 1 || (bit x 5 == 1 || bit x 6 == 1))))))
test_7f x = ground (arith, bit_and_low 7 x)

fires_lem : (k : ℕ) (v : Via6522) → (bit (bit_and v.ifr v.ier) k == 1) ≡ fires k v
fires_lem k v = ground (arith, bit-bit_and v.ifr v.ier k, bit-lt v.ifr k, bit-lt v.ier k)

irq_asserted-fires :
    (v : Via6522)
    → irq_asserted v ≡ (
        fires 0 v
        || (fires 1 v || (fires 2 v || (fires 3 v || (fires 4 v || (fires 5 v || fires 6 v))))))
unfolding irq_asserted
irq_asserted-fires v =
    test_7f (bit_and v.ifr v.ier)
    ∙ ap₂ ◌||◌ (fires_lem 0 v) (
        ap₂ ◌||◌ (fires_lem 1 v) (
          ap₂ ◌||◌ (fires_lem 2 v) (
            ap₂ ◌||◌ (fires_lem 3 v)
              (ap₂ ◌||◌ (fires_lem 4 v) (ap₂ ◌||◌ (fires_lem 5 v) (fires_lem 6 v))))))

with_top : (x : ℕ) → x < 128 → bit_or x 0x80 ≡ x + 128
with_top x h =
    let above : x / 2 ^ 7 ≡ 0 = omega arith in
    omega (arith, bit_or_split 7 x 0x80, ap (λ (t : ℕ). bit_or t 1) above, bit_or-zero (x % 2 ^ 7))

-- A read of register 13 gives the flags, with digit 7 exactly if an enabled flag is set, and a read
-- of register 14 the enabled sources with digit 7; neither changes the chip.
pub read_flags :
    (in_a in_b : Option ℕ) (v : Via6522)
    → IsValid v
    → let any =
        fires 0 v
        || (fires 1 v || (fires 2 v || (fires 3 v || (fires 4 v || (fires 5 v || fires 6 v))))) in
      (read 13 in_a in_b v ≡ (v.ifr + (if any then 128 else 0), v, []))
      × (read 14 in_a in_b v ≡ (v.ier + 128, v, []))
unfolding read read_high
read_flags in_a in_b v k = (
  rw (← irq_asserted-fires v) (ground (arith, with_top v.ifr k.ifr, bit_or-zero v.ifr, k.ifr)),
  ground (arith, with_top v.ier k.ier, k.ier),
)

masked : (x k : ℕ) → k < 7 → bit (bit_and x 0x7F) k ≡ bit x k
masked x k h = ap (λ (t : ℕ). bit t k) (bit_and_low 7 x) ∙ bit-mod 7 x k h

set_digit :
    (a x k : ℕ)
    → k < 7
    → bit (u8 (bit_or a (bit_and x 0x7F))) k ≡ (if bit x k == 1 then 1 else bit a k)
set_digit a x k h =
    bit-mod 8 (bit_or a (bit_and x 0x7F)) k (omega arith)
    ∙ ground (arith, bit-bit_or a (bit_and x 0x7F) k, masked x k h, bit-lt a k, bit-lt x k)

cleared_digit :
    (a x k : ℕ)
    → k < 7
    → bit (u8 (bit_and a (not8 (bit_and x 0x7F)))) k ≡ (if bit x k == 1 then 0 else bit a k)
cleared_digit a x k h =
    bit-mod 8 (bit_and a (not8 (bit_and x 0x7F))) k (omega arith)
    ∙ bit-clear8 a (bit_and x 0x7F) k (omega arith)
    ∙ ground (arith, masked x k h)

-- A write to register 13 clears the flags whose digits it has and no other; a write to register 14
-- gives the sources whose digits it has the state of its digit 7, and leaves the others.
pub write_flags :
    (x k : ℕ) (v : Via6522)
    → k < 7
    → (bit (write 13 x v).0.ifr k ≡ (if bit x k == 1 then 0 else bit v.ifr k))
      × ((write 13 x v).0.ier ≡ v.ier)
      × (bit (write 14 x v).0.ier k ≡ (if bit x k == 1 then bit x 7 else bit v.ier k))
      × ((write 14 x v).0.ifr ≡ v.ifr)
unfolding write write_high
write_flags x k v h = (
  cleared_digit v.ifr x k h,
  refl,
  ground (
    arith,
    test-bit x 7,
    set_digit v.ier x k h,
    cleared_digit v.ier x k h,
    bit-lt x 7,
    bit-lt x k,
  ),
  refl,
)
