-- ===== src/Disk/Crc/Detection.antt =====
-- What the check detects, and its value over a field with the check appended.
use open_mac_for_linux.Base.{
  ℕ, zero, suc, ◌+◌, ◌-◌, ◌*◌, ◌/◌, ◌%◌, ◌^◌, ◌≤◌, ◌<◌, bit_and, bit_xor, true, ◌≡◌, ◌≢◌, ◌⊎◌, refl,
  sym, ap, ap₂, ◌∙◌, inl, inr, List, [], ◌∷◌, ◌++◌, u8, u16, ◌<<<◌, ◌>>>◌, ltb, ◌!=◌, arith,
  Bool-cases, bit_xor_split, bit_xor-bit_xor, bit_xor-lt, bit_xor-half, bit_and_pow,
}
use native.Mathlib.Nat.{pow-suc}
use open_mac_for_linux.Disk.Crc.{crc_bit, crc_bits, crc16_update, crc16}

zero-bit_xor : (n b : ℕ) → b < 2 ^ n → bit_xor 0 b ≡ b
zero-bit_xor zero b h = let e : b ≡ 0 = omega arith in rw e refl
zero-bit_xor (suc n) b h =
    omega (arith, bit_xor-half 0 b, zero-bit_xor n (b / 2) (omega (arith, pow-suc 2 n)))

bit_xor-zero : (n a : ℕ) → a < 2 ^ n → bit_xor a 0 ≡ a
bit_xor-zero zero a h = let e : a ≡ 0 = omega arith in rw e refl
bit_xor-zero (suc n) a h =
    omega (arith, bit_xor-half a 0, bit_xor-zero n (a / 2) (omega (arith, pow-suc 2 n)))

bit_xor_self : (n a : ℕ) → a < 2 ^ n → bit_xor a a ≡ 0
bit_xor_self n a h =
    ap (λ (t : ℕ). bit_xor t a) (sym (zero-bit_xor n a h)) ∙ bit_xor-bit_xor n 0 a (omega arith) h

-- `^` of two numbers given by their parts.
xor_parts :
    (k a b qa qb ra rb : ℕ)
    → a / 2 ^ k ≡ qa
    → b / 2 ^ k ≡ qb
    → a % 2 ^ k ≡ ra
    → b % 2 ^ k ≡ rb
    → bit_xor a b ≡ bit_xor qa qb * 2 ^ k + bit_xor ra rb
xor_parts k a b qa qb ra rb ea eb fa fb =
    bit_xor_split k a b ∙ ap₂ (λ (s t : ℕ). s * 2 ^ k + t) (ap₂ bit_xor ea eb) (ap₂ bit_xor fa fb)

-- One shift of a word, by its top digit.
crc_bit-low : (c : ℕ) → c < 2 ^ 15 → crc_bit c ≡ 2 * c
unfolding crc_bit
crc_bit-low c h = ground (arith, bit_and_pow 15 c)

top_set : (r : ℕ) → r < 2 ^ 15 → (bit_and (2 ^ 15 + r) 0x8000 != 0) ≡ true
top_set r h = ground (arith, bit_and_pow 15 (2 ^ 15 + r))

crc_bit-high : (r : ℕ) → r < 2 ^ 15 → crc_bit (2 ^ 15 + r) ≡ 2 * bit_xor r 0x810 + 1
unfolding crc_bit
crc_bit-high r h =
    let small = bit_xor-lt 15 r 0x810 h (omega arith) in
    let split : bit_xor (2 ^ 15 + r) 0x810 ≡ 2 ^ 15 + bit_xor r 0x810 =
      xor_parts 15 _ _ (1) (0) (r) (0x810) (omega arith) (omega arith) (omega arith) (omega arith)
      ∙ omega (arith, bit_xor-zero 1 1 (omega arith)) in
    let half : bit_xor ((2 ^ 15 + r) * 2) 0x1021 ≡ bit_xor (2 ^ 15 + r) 0x810 * 2 + 1 =
      xor_parts 1 _ _ (2 ^ 15 + r) (0x810) (0) (1) (omega arith) (omega arith) (omega arith)
        (omega arith)
      ∙ omega (arith, zero-bit_xor 1 1 (omega arith)) in
    rw (top_set r h, half, split) (omega arith)

-- The shift loses nothing.
crc_bit-lt : (c : ℕ) → crc_bit c < 2 ^ 16
unfolding crc_bit
crc_bit-lt c = omega arith

crc_bit-cases :
    (c : ℕ)
    → c < 2 ^ 16
    → ((c < 2 ^ 15) × (crc_bit c ≡ 2 * c))
      ⊎ ((2 ^ 15 ≤ c) × (crc_bit c ≡ 2 * bit_xor (c - 2 ^ 15) 0x810 + 1))
crc_bit-cases c h = elim (Bool-cases (ltb c (2 ^ 15))) [
  | inl e ↦ let below : c < 2 ^ 15 = ground arith in inl (below, crc_bit-low c below)
  | inr e ↦
      let above : 2 ^ 15 ≤ c = ground arith in
      let back : c ≡ 2 ^ 15 + (c - 2 ^ 15) = omega arith in
      inr (above, ap crc_bit back ∙ crc_bit-high (c - 2 ^ 15) (omega arith))
]

cancel : (n a b k : ℕ) → a < 2 ^ n → b < 2 ^ n → k < 2 ^ n → bit_xor a k ≡ bit_xor b k → a ≡ b
cancel n a b k ha hb hk e =
    sym (bit_xor-bit_xor n a k ha hk)
    ∙ (ap (λ (t : ℕ). bit_xor t k) e ∙ bit_xor-bit_xor n b k hb hk)

crc_bit-injective : (a b : ℕ) → a < 2 ^ 16 → b < 2 ^ 16 → crc_bit a ≡ crc_bit b → a ≡ b
crc_bit-injective a b ha hb e = elim (crc_bit-cases a ha) [
  | inl p ↦ elim (crc_bit-cases b hb) [
    | inl q ↦ omega (arith, p.1, q.1, e)
    | inr q ↦ absurd (omega (arith, p.1, q.1, e))
  ]
  | inr p ↦ elim (crc_bit-cases b hb) [
    | inl q ↦ absurd (omega (arith, p.1, q.1, e))
    | inr q ↦ omega (
      arith,
      p.0,
      q.0,
      cancel 15 (a - 2 ^ 15) (b - 2 ^ 15) 0x810 (omega arith) (omega arith) (omega arith)
          (omega (arith, p.1, q.1, e)),
    )
  ]
]

crc_bits-injective : (a b : ℕ) → a < 2 ^ 16 → b < 2 ^ 16 → crc_bits a ≡ crc_bits b → a ≡ b
crc_bits-injective a b ha hb e =
    let peel : (x y : ℕ) → crc_bit (crc_bit x) ≡ crc_bit (crc_bit y) → crc_bit x ≡ crc_bit y =
      λ x y q. crc_bit-injective (crc_bit x) (crc_bit y) (crc_bit-lt x) (crc_bit-lt y) q in
    crc_bit-injective a b ha hb (
      peel a b (
        peel (crc_bit a) (crc_bit b) (
          peel (crc_bit (crc_bit a)) (crc_bit (crc_bit b)) (
            peel (crc_bit (crc_bit (crc_bit a))) (crc_bit (crc_bit (crc_bit b))) (
              peel (crc_bit (crc_bit (crc_bit (crc_bit a))))
                (crc_bit (crc_bit (crc_bit (crc_bit b))))
                (peel (crc_bit (crc_bit (crc_bit (crc_bit (crc_bit a)))))
                  (crc_bit (crc_bit (crc_bit (crc_bit (crc_bit b)))))
                  (peel (crc_bit (crc_bit (crc_bit (crc_bit (crc_bit (crc_bit a))))))
                    (crc_bit (crc_bit (crc_bit (crc_bit (crc_bit (crc_bit b)))))) e)))))))

pub crc16_update-lt : (c b : ℕ) → crc16_update c b < 2 ^ 16
unfolding crc16_update
crc16_update-lt c b = crc_bit-lt _

-- Neither the check before a byte nor the byte is lost.
update-injective :
    (c b : ℕ) (c' b' : ℕ)
    → c < 2 ^ 16
    → c' < 2 ^ 16
    → crc16_update c b ≡ crc16_update c' b'
    → bit_xor c (u16 (b <<< 8)) ≡ bit_xor c' (u16 (b' <<< 8))
unfolding crc16_update
update-injective c b c' b' h h' e =
    crc_bits-injective _ _ (bit_xor-lt 16 c _ h (omega arith)) (bit_xor-lt 16 c' _ h' (omega arith))
      e

bit_xor_comm : (n a b : ℕ) → a < 2 ^ n → b < 2 ^ n → bit_xor a b ≡ bit_xor b a
bit_xor_comm zero a b ha hb =
    let ea : a ≡ 0 = omega arith in let eb : b ≡ 0 = omega arith in rw (ea, eb) refl
bit_xor_comm (suc n) a b ha hb = omega (
  arith,
  bit_xor-half a b,
  bit_xor-half b a,
  bit_xor_comm n (a / 2) (b / 2) (omega (arith, pow-suc 2 n)) (omega (arith, pow-suc 2 n)),
)

crc16-injective :
    (bs : List ℕ) (c c' : ℕ) → c < 2 ^ 16 → c' < 2 ^ 16 → crc16 bs c ≡ crc16 bs c' → c ≡ c'
unfolding crc16
crc16-injective [] c c' h h' e = e
crc16-injective (b ∷ bs) c c' h h' e = cancel 16 c c' (u16 (b <<< 8)) h h' (omega arith) (
    update-injective c b c' b h h' (
      crc16-injective bs (crc16_update c b) (crc16_update c' b) (crc16_update-lt c b)
        (crc16_update-lt c' b) e))

-- Messages with the same check that differ in one byte at most are equal.
same_check :
    (before after : List ℕ) (b b' c : ℕ)
    → c < 2 ^ 16
    → b < 256
    → b' < 256
    → crc16 (before ++ (b ∷ after)) c ≡ crc16 (before ++ (b' ∷ after)) c
    → b ≡ b'
unfolding crc16
same_check [] after b b' c h hb hb' e =
    let x = u16 (b <<< 8) in
    let x' = u16 (b' <<< 8) in
    let same = update-injective c b c b' h h (
      crc16-injective after (crc16_update c b) (crc16_update c b') (crc16_update-lt c b)
        (crc16_update-lt c b') e) in
    let shifted =
      cancel 16 x x' c (omega arith) (omega arith) h
        (bit_xor_comm 16 x c (omega arith) h ∙ (same ∙ bit_xor_comm 16 c x' h (omega arith))) in
    omega (arith, shifted)
same_check (v ∷ before) after b b' c h hb hb' e =
    same_check before after b b' (crc16_update c v) (crc16_update-lt c v) hb hb' e

-- Changing one byte of a message, wherever it stands, always changes the check of the message.
pub crc16-detects :
    (before after : List ℕ) (b b' c : ℕ)
    → c < 2 ^ 16
    → b < 256
    → b' < 256
    → b ≢ b'
    → crc16 (before ++ (b ∷ after)) c ≢ crc16 (before ++ (b' ∷ after)) c
crc16-detects before after b b' c h hb hb' differ e =
    differ (same_check before after b b' c h hb hb' e)

-- A word cut by one of its bytes shifts out whole.
crc_bits-low : (b : ℕ) → b < 256 → crc_bits b ≡ 256 * b
crc_bits-low b h =
    rw
      (
        crc_bit-low b (omega arith),
        crc_bit-low (2 * b) (omega arith),
        crc_bit-low (2 * (2 * b)) (omega arith),
        crc_bit-low (2 * (2 * (2 * b))) (omega arith),
        crc_bit-low (2 * (2 * (2 * (2 * b)))) (omega arith),
        crc_bit-low (2 * (2 * (2 * (2 * (2 * b))))) (omega arith),
        crc_bit-low (2 * (2 * (2 * (2 * (2 * (2 * b)))))) (omega arith),
        crc_bit-low (2 * (2 * (2 * (2 * (2 * (2 * (2 * b))))))) (omega arith),
      )
      (omega arith)

own_check : (c : ℕ) → c < 2 ^ 16 → crc16_update (crc16_update c (u8 (c >>> 8))) (u8 c) ≡ 0
unfolding crc16_update
own_check c h =
    let hi = c / 256 in
    let lo = c % 256 in
    let e : u16 (u8 (c >>> 8) <<< 8) ≡ hi * 2 ^ 8 = omega arith in
    let first : bit_xor c (hi * 2 ^ 8) ≡ lo =
      xor_parts 8 _ _ (hi) (hi) (lo) (0) (omega arith) (omega arith) (omega arith) (omega arith)
      ∙ omega (arith, bit_xor_self 8 hi (omega arith), bit_xor-zero 8 lo (omega arith)) in
    let e' : u16 (u8 c <<< 8) ≡ 256 * lo = omega arith in
    rw
      (
        e,
        first,
        crc_bits-low lo (omega arith),
        e',
        bit_xor_self 16 (256 * lo) (omega arith),
        crc_bits-low 0 (omega arith),
      )
      refl

pub crc16-lt : (bs : List ℕ) (c : ℕ) → c < 2 ^ 16 → crc16 bs c < 2 ^ 16
unfolding crc16
crc16-lt [] c h = h
crc16-lt (b ∷ bs) c h = crc16-lt bs (crc16_update c b) (crc16_update-lt c b)

crc16-append : (xs ys : List ℕ) (c : ℕ) → crc16 (xs ++ ys) c ≡ crc16 ys (crc16 xs c)
unfolding crc16
crc16-append [] ys c = refl
crc16-append (x ∷ xs) ys c = crc16-append xs ys (crc16_update c x)

-- The check of a field followed by the two bytes of its own check is zero, from whatever word the
-- check starts.
pub crc16-own :
    (field : List ℕ) (c : ℕ)
    → c < 2 ^ 16
    → let check = crc16 field c in crc16 (field ++ (u8 (check >>> 8) ∷ u8 check ∷ [])) c ≡ 0
crc16-own field c h =
    let check = crc16 field c in
    crc16-append field (u8 (check >>> 8) ∷ u8 check ∷ []) c
    ∙ unfold crc16 in own_check check (crc16-lt field c h)
