-- ===== src/Oss/Latch.antt =====
-- Pulse inputs latch until they are acknowledged; level inputs are pending while they are asserted.
use open_mac_for_linux.Base.{
  ℕ, ◌<◌, ◌^◌, bit_and, from_bool, Bool, ◌≡◌, refl, arith, ◌∙◌, ap, ap₂, ◌<<<◌, bit, bit-pow,
  bit-bit_or, bit-bit_or-pow, bit-clear16, ◌==◌, if◌then◌else◌, not16, max,
}
use open_mac_for_linux.Oss.{Oss, changed, pending, write, set_level, pulse, clock_60hz}

-- Whether a source is latched, asserted, pending: 0 or 1.
abbrev pub latched : ℕ → Oss → ℕ
latched s o = bit o.latch_mask s

abbrev pub asserted : ℕ → Oss → ℕ
asserted s o = bit o.level_mask s

-- A source is pending while its level is asserted or its pulse is latched.
pending_lem : (s : ℕ) (o : Oss) → bit (pending o) s ≡ max (asserted s o) (latched s o)
unfolding pending
pending_lem s o = bit-bit_or o.level_mask o.latch_mask s

pulse-latched :
    (s j : ℕ) (o : Oss) → s < 16 → latched j (pulse s o) ≡ (if s == j then 1 else latched j o)
unfolding pulse changed
pulse-latched s j o h = ground (arith, bit-bit_or-pow o.latch_mask s j)

set_level-asserted :
    (s j : ℕ) (on : Bool) (o : Oss)
    → s < 16
    → j < 16
    → asserted j (set_level s on o) ≡ (if s == j then from_bool on else asserted j o)
unfolding set_level changed
set_level-asserted s j on o h k =
    ground
      (arith, bit-bit_or-pow o.level_mask s j, bit-clear16 o.level_mask (2 ^ s) j k, bit-pow s j)

set_level-latched : (s : ℕ) (on : Bool) (o : Oss) → (set_level s on o).latch_mask ≡ o.latch_mask
unfolding set_level changed
set_level-latched s on o = ground arith

pulse_keeps : (s : ℕ) (o : Oss) → (pulse s o).level_mask ≡ o.level_mask
unfolding pulse changed
pulse_keeps s o = ground arith

-- What a pulse and a level change make of each source: a pulse makes its source pending whatever
-- its level does afterwards; a level change makes its source pending exactly if it is asserted or
-- a pulse is latched; every other source stays as it was.
pub pending-pulse-set_level :
    (s t j : ℕ) (on : Bool) (o : Oss)
    → s < 16
    → t < 16
    → j < 16
    → bit (pending (set_level t on (pulse s o))) j
      ≡ max (if t == j then from_bool on else asserted j o) (if s == j then 1 else latched j o)
pending-pulse-set_level s t j on o hs ht hj =
    pending_lem j (set_level t on (pulse s o))
    ∙ ap₂ max
        (set_level-asserted t j on (pulse s o) ht hj
          ∙ ap (λ m. if t == j then from_bool on else bit m j) (pulse_keeps s o))
        (ap (λ m. bit m j) (set_level-latched t on (pulse s o)) ∙ pulse-latched s j o hs)

-- A write that acknowledges the latches of the digits of `m`.
cleared :
    (m j : ℕ) (o : Oss)
    → j < 16
    → latched j (record o { latch_mask = bit_and o.latch_mask (not16 m) })
      ≡ (if bit m j == 1 then 0 else latched j o)
cleared m j o h = bit-clear16 o.latch_mask m j h

write_keeps_levels : (reg value : ℕ) (o : Oss) → (write reg value o).level_mask ≡ o.level_mask
unfolding write changed
write_keeps_levels reg value o = ground arith

acknowledged :
    (reg m value j : ℕ) (o : Oss)
    → j < 16
    → (write reg value o).latch_mask ≡ bit_and o.latch_mask (not16 m)
    → bit (pending (write reg value o)) j
      ≡ max (asserted j o) (if bit m j == 1 then 0 else latched j o)
acknowledged reg m value j o h e =
    pending_lem j (write reg value o)
    ∙ ap₂ max (ap (λ (l : ℕ). bit l j) (write_keeps_levels reg value o))
        (ap (λ (l : ℕ). bit l j) e ∙ cleared m j o h)

-- The three acknowledging writes. Any value to $207 ends the latch of the 60 Hz clock and no other;
-- a value to $203 those of the low eight sources whose digits it has; a value to $202 those of the
-- high eight. What is asserted stays pending.
pub pending-write :
    (value j : ℕ) (o : Oss)
    → value < 256
    → j < 16
    → (bit (pending (write 0x207 value o)) j
        ≡ max (asserted j o) (if clock_60hz == j then 0 else latched j o))
      × (bit (pending (write 0x203 value o)) j
          ≡ max (asserted j o) (if bit value j == 1 then 0 else latched j o))
      × (bit (pending (write 0x202 value o)) j
          ≡ max (asserted j o) (if bit (value <<< 8) j == 1 then 0 else latched j o))
pending-write value j o hv h = (
  acknowledged 0x207 (2 ^ clock_60hz) value j o h (unfold write changed in refl)
      ∙ ground (arith, bit-pow clock_60hz j),
  acknowledged 0x203 value value j o h (unfold write changed in refl),
  acknowledged 0x202 (value <<< 8) value j o h (unfold write changed in refl),
)
