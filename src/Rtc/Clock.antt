-- ===== src/Rtc/Clock.antt =====
-- The seconds counter through its four registers, and what write protection covers.
use open_mac_for_linux.Base.{
  ℕ, ◌+◌, ◌*◌, ◌/◌, ◌%◌, ◌^◌, ◌<◌, bit_and, bit_or, false, ◌≡◌, refl, ap, ◌∙◌, arith, bit_and_split,
  bit_and_low, bit_or_join, bit_or_split, bit_and-zero, bit_or-zero, ◌<<<◌, u8, suc, zero, ap₂,
}
use open_mac_for_linux.Rtc.{Rtc, register, read_register, store_register, write_register}

masked_0 : (s : ℕ) → bit_and s 0xFFFFFF00 ≡ s % 2 ^ 32 / 256 * 256
masked_0 s =
    omega
      (arith, bit_and_split 8 s 0xFFFFFF00, bit_and-zero (s % 2 ^ 8), bit_and_low 24 (s / 2 ^ 8))

masked_1 : (s : ℕ) → bit_and s 0xFFFF00FF ≡ s % 2 ^ 32 / 2 ^ 16 * 2 ^ 16 + s % 2 ^ 8
masked_1 s =
    omega (
      arith,
      bit_and_split 16 s 0xFFFF00FF,
      bit_and_low 16 (s / 2 ^ 16),
      bit_and_low 8 (s % 2 ^ 16),
    )

masked_2 : (s : ℕ) → bit_and s 0xFF00FFFF ≡ s % 2 ^ 32 / 2 ^ 24 * 2 ^ 24 + s % 2 ^ 16
masked_2 s =
    omega (
      arith,
      bit_and_split 24 s 0xFF00FFFF,
      bit_and_low 8 (s / 2 ^ 24),
      bit_and_low 16 (s % 2 ^ 24),
    )

masked_3 : (s : ℕ) → bit_and s 0x00FFFFFF ≡ s % 2 ^ 24
masked_3 s = bit_and_low 24 s

-- A byte of the counter, lowest first.
abbrev pub clock_byte : ℕ → ℕ → ℕ
clock_byte zero s = s % 256
clock_byte (suc k) s = clock_byte k (s / 256)

-- `|` of a byte into a gap of eight zero bits.
bit_or_insert :
    (k x v a lo : ℕ)
    → x / 2 ^ k ≡ a * 2 ^ 8
    → x % 2 ^ k ≡ lo
    → v * 2 ^ k / 2 ^ k ≡ v
    → v * 2 ^ k % 2 ^ k ≡ 0
    → v < 2 ^ 8
    → bit_or x (v * 2 ^ k) ≡ (a * 2 ^ 8 + v) * 2 ^ k + lo
bit_or_insert k x v a lo above below kept clear small =
    bit_or_split k x (v * 2 ^ k)
    ∙ ap₂ (λ (s t : ℕ). s * 2 ^ k + t) (ap₂ bit_or above kept ∙ bit_or_join 8 a v small)
        (ap₂ bit_or below clear ∙ bit_or-zero lo)

-- What a store into each of the four registers makes of the counter.
abbrev replaced : ℕ → ℕ → ℕ → ℕ
replaced zero s v = s / 2 ^ 8 * 2 ^ 8 + v
replaced (suc zero) s v = (s / 2 ^ 16 * 2 ^ 8 + v) * 2 ^ 8 + s % 2 ^ 8
replaced (suc (suc zero)) s v = (s / 2 ^ 24 * 2 ^ 8 + v) * 2 ^ 16 + s % 2 ^ 16
replaced (suc (suc (suc k))) s v = v * 2 ^ 24 + s % 2 ^ 24

store_0 : (s v : ℕ) → s < 2 ^ 32 → v < 256 → bit_or (bit_and s 0xFFFFFF00) v ≡ replaced 0 s v
store_0 s v hs hv = rw (masked_0 s) (bit_or_join 8 (s % 2 ^ 32 / 256) v hv ∙ omega arith)

store_1 :
    (s v : ℕ) → s < 2 ^ 32 → v < 256 → bit_or (bit_and s 0xFFFF00FF) (v <<< 8) ≡ replaced 1 s v
store_1 s v hs hv = rw (masked_1 s) (
    bit_or_insert 8 (s % 2 ^ 32 / 2 ^ 16 * 2 ^ 16 + s % 2 ^ 8) v (s / 2 ^ 16) (s % 2 ^ 8)
      (omega arith) (omega arith) (omega arith) (omega arith) hv)

store_2 :
    (s v : ℕ) → s < 2 ^ 32 → v < 256 → bit_or (bit_and s 0xFF00FFFF) (v <<< 16) ≡ replaced 2 s v
store_2 s v hs hv = rw (masked_2 s) (
    bit_or_insert 16 (s % 2 ^ 32 / 2 ^ 24 * 2 ^ 24 + s % 2 ^ 16) v (s / 2 ^ 24) (s % 2 ^ 16)
      (omega arith) (omega arith) (omega arith) (omega arith) hv)

store_3 :
    (s v : ℕ) → s < 2 ^ 32 → v < 256 → bit_or (bit_and s 0x00FFFFFF) (v <<< 24) ≡ replaced 3 s v
store_3 s v hs hv = rw (masked_3 s) (
    bit_or_insert 24 (s % 2 ^ 24) v 0 (s % 2 ^ 24) (omega arith) (omega arith) (omega arith)
      (omega arith) hv
    ∙ omega arith)

-- The register number of a one-byte command, in the low or the high bank.
abbrev clock_write : ℕ → ℕ
clock_write k = k * 4

abbrev clock_read : ℕ → ℕ
clock_read k = 0x80 + k * 4

write_register-seconds :
    (k v : ℕ) (r : Rtc)
    → k < 4
    → v < 256
    → r.seconds < 2 ^ 32
    → r.cmd ≡ clock_write k
    → r.write_protect ≡ false
    → (write_register v r).seconds ≡ replaced k r.seconds v
unfolding write_register store_register register
write_register-seconds zero v r hk hv hs c w = rw (c, w) (store_0 r.seconds v hs hv)
write_register-seconds (suc zero) v r hk hv hs c w = rw (c, w) (store_1 r.seconds v hs hv)
write_register-seconds (suc (suc zero)) v r hk hv hs c w = rw (c, w) (store_2 r.seconds v hs hv)
write_register-seconds (suc (suc (suc zero))) v r hk hv hs c w =
    rw (c, w) (store_3 r.seconds v hs hv)
write_register-seconds (suc (suc (suc (suc k)))) v r hk hv hs c w = absurd (omega arith)

read_register-seconds :
    (k : ℕ) (r : Rtc) → k < 4 → r.cmd ≡ clock_read k → read_register r ≡ clock_byte k r.seconds
unfolding read_register register
read_register-seconds zero r hk c = rw c (ap u8 (bit_and_low 8 r.seconds) ∙ omega arith)
read_register-seconds (suc zero) r hk c =
    rw c (ap u8 (bit_and_low 8 (r.seconds / 2 ^ 8)) ∙ omega arith)
read_register-seconds (suc (suc zero)) r hk c =
    rw c (ap u8 (bit_and_low 8 (r.seconds / 2 ^ 16)) ∙ omega arith)
read_register-seconds (suc (suc (suc zero))) r hk c =
    rw c (ap u8 (bit_and_low 8 (r.seconds / 2 ^ 24)) ∙ omega arith)
read_register-seconds (suc (suc (suc (suc k)))) r hk c = absurd (omega arith)

-- A store into one clock register, and the four of a host that sets the clock.
abbrev pub store_clock : ℕ → ℕ → Rtc → Rtc
store_clock k v r = write_register v (record r { cmd = clock_write k })

pub set_clock : ℕ → ℕ → ℕ → ℕ → Rtc → Rtc
set_clock b0 b1 b2 b3 r =
    store_clock 3 b3 (store_clock 2 b2 (store_clock 1 b1 (store_clock 0 b0 r)))

write_register_keeps :
    (k v : ℕ) (r : Rtc)
    → k < 4
    → r.cmd ≡ clock_write k
    → (write_register v r).write_protect ≡ r.write_protect
unfolding write_register store_register register
write_register_keeps zero v r hk c = rw c (ground arith)
write_register_keeps (suc zero) v r hk c = rw c (ground arith)
write_register_keeps (suc (suc zero)) v r hk c = rw c (ground arith)
write_register_keeps (suc (suc (suc zero))) v r hk c = rw c (ground arith)
write_register_keeps (suc (suc (suc (suc k)))) v r hk c = absurd (omega arith)

-- One store of the four, as the next one finds the chip.
store_step :
    (k v s : ℕ) (r : Rtc)
    → k < 4
    → v < 256
    → s < 2 ^ 32
    → r.seconds ≡ s
    → r.write_protect ≡ false
    → let w = store_clock k v r in (w.seconds ≡ replaced k s v) × (w.write_protect ≡ false)
store_step k v s r hk hv hs e open_chip = (
  write_register-seconds k v (record r { cmd = clock_write k }) hk hv (omega arith) refl open_chip
      ∙ ap (λ t. replaced k t v) e,
  write_register_keeps k v (record r { cmd = clock_write k }) hk refl ∙ open_chip,
)

set_clock-seconds :
    (b0 b1 b2 b3 : ℕ) (r : Rtc)
    → b0 < 256
    → b1 < 256
    → b2 < 256
    → b3 < 256
    → r.seconds < 2 ^ 32
    → r.write_protect ≡ false
    → (set_clock b0 b1 b2 b3 r).seconds ≡ b0 + b1 * 2 ^ 8 + b2 * 2 ^ 16 + b3 * 2 ^ 24
unfolding set_clock
set_clock-seconds b0 b1 b2 b3 r h0 h1 h2 h3 hs open_chip =
    let s0 = r.seconds in
    let r1 = store_clock 0 b0 r in
    let w1 = store_step 0 b0 s0 r (omega arith) h0 hs refl open_chip in
    let s1 = replaced 0 s0 b0 in
    let r2 = store_clock 1 b1 r1 in
    let w2 = store_step 1 b1 s1 r1 (omega arith) h1 (omega arith) w1.0 w1.1 in
    let s2 = replaced 1 s1 b1 in
    let r3 = store_clock 2 b2 r2 in
    let w3 = store_step 2 b2 s2 r2 (omega arith) h2 (omega arith) w2.0 w2.1 in
    let s3 = replaced 2 s2 b2 in
    (store_step 3 b3 s3 r3 (omega arith) h3 (omega arith) w3.0 w3.1).0 ∙ omega arith

-- A host that stores four bytes into the clock registers of a chip that is not write protected
-- sets the counter to the number that they make up, lowest byte first, and reads each of them back.
pub set_clock_lem :
    (b0 b1 b2 b3 : ℕ) (r : Rtc)
    → b0 < 256
    → b1 < 256
    → b2 < 256
    → b3 < 256
    → r.seconds < 2 ^ 32
    → r.write_protect ≡ false
    → let w = set_clock b0 b1 b2 b3 r in
      (w.seconds ≡ b0 + b1 * 2 ^ 8 + b2 * 2 ^ 16 + b3 * 2 ^ 24)
      × (read_register (record w { cmd = clock_read 0 }) ≡ b0)
      × (read_register (record w { cmd = clock_read 1 }) ≡ b1)
      × (read_register (record w { cmd = clock_read 2 }) ≡ b2)
      × (read_register (record w { cmd = clock_read 3 }) ≡ b3)
set_clock_lem b0 b1 b2 b3 r h0 h1 h2 h3 hs open_chip =
    let w = set_clock b0 b1 b2 b3 r in
    let e = set_clock-seconds b0 b1 b2 b3 r h0 h1 h2 h3 hs open_chip in
    let read : (k : ℕ)
        → k < 4
        → read_register (record w { cmd = clock_read k }) ≡ clock_byte k w.seconds =
      λ k hk. read_register-seconds k (record w { cmd = clock_read k }) hk refl in
    (
      e,
      omega (arith, read 0 (omega arith)),
      omega (arith, read 1 (omega arith)),
      omega (arith, read 2 (omega arith)),
      omega (arith, read 3 (omega arith)),
    )
