-- ===== src/Iop/Window.antt =====
-- The host's window on the shared memory.
use mathlib.Core.Bool.{true≢false}
use open_mac_for_linux.Base.{
  ℕ, zero, suc, ◌+◌, ◌*◌, ◌/◌, ◌%◌, ◌^◌, ◌<◌, ◌≤◌, bit_and, bit_or, Bool, true, false, List, [],
  ◌∷◌, length, get_or, set, length-set, get_or-set_self, get_or-set_ne, ◌≡◌, refl, sym, ap, ◌∙◌, u8,
  u16, ◌<<<◌, ◌>>>◌, ltb, if◌then◌else◌, arith, bit_and_low, bit_or_join, bit_or_comm,
  bit_and_split, bit_and-zero,
}
use open_mac_for_linux.Iop.{
  Asic, Outside, k_auto_inc, has, high_byte, low_byte, cpu_read, cpu_write,
}
use open_mac_for_linux.Iop.Machine.{IifxIop, asic, with_asic, host_read, host_write, next_address}

-- Bytes in the memory from a position on.
abbrev pub read_at : List ℕ → ℕ → ℕ → List ℕ
read_at ram a zero = []
read_at ram a (suc n) = get_or ram a 0 ∷ read_at ram (a + 1) n

abbrev pub write_at : ℕ → List ℕ → List ℕ → List ℕ
write_at a [] ram = ram
write_at a (v ∷ vs) ram = write_at (a + 1) vs (set ram a v)

get_or-write_at :
    (a : ℕ) (vs ram : List ℕ) (i : ℕ) → i < a → get_or (write_at a vs ram) i 0 ≡ get_or ram i 0
get_or-write_at a [] ram i h = refl
get_or-write_at a (v ∷ vs) ram i h =
    get_or-write_at (a + 1) vs (set ram a v) i (omega arith)
    ∙ get_or-set_ne ram a i v 0 (λ e. absurd (omega arith))

read_at-write_at :
    (a : ℕ) (vs ram : List ℕ)
    → a + length vs ≤ length ram
    → read_at (write_at a vs ram) a (length vs) ≡ vs
read_at-write_at a [] ram h = refl
read_at-write_at a (v ∷ vs) ram h =
    let first =
      get_or-write_at (a + 1) vs (set ram a v) a (omega arith)
      ∙ get_or-set_self ram a v 0 (omega arith) in
    let rest = read_at-write_at (a + 1) vs (set ram a v) (omega (arith, length-set ram a v)) in
    rw (first, rest) refl

-- The two halves of an address, written one after the other.
addressed : (a old : ℕ) → a < 2 ^ 16 → low_byte (high_byte old (u8 (a >>> 8))) (u8 a) ≡ a
addressed a old h =
    let q = u8 (a >>> 8) in
    let r = old % 256 in
    let x = q * 2 ^ 8 + r in
    let low : bit_and old 0x00FF ≡ r = bit_and_low 8 old in
    let first : bit_or r (q * 2 ^ 8) ≡ x =
      bit_or_comm 16 r (q * 2 ^ 8) (omega arith) (omega arith) ∙ bit_or_join 8 q r (omega arith) in
    let fits : u16 x ≡ x = omega arith in
    let high : bit_and x 0xFF00 ≡ q * 2 ^ 8 =
      omega
        (arith, bit_and_split 8 x 0xFF00, bit_and_low 8 (x / 2 ^ 8), bit_and-zero (x % 2 ^ 8)) in
    let whole : u16 (q * 2 ^ 8 + u8 a) ≡ a = omega arith in
    ap (λ (w : ℕ). low_byte (u16 (bit_or w (q <<< 8))) (u8 a)) low
    ∙ (ap (λ (w : ℕ). low_byte (u16 w) (u8 a)) first
        ∙ (ap (λ (w : ℕ). low_byte w (u8 a)) fits
            ∙ (ap (λ (w : ℕ). u16 (bit_or w (u8 a))) high
                ∙ (ap u16 (bit_or_join 8 q (u8 a) (omega arith)) ∙ whole))))

kept : {A : Type 0} (c : Bool) (x y : A) → c ≡ true → (if c then x else y) ≡ x
kept true x y h = refl
kept false x y h = absurd (true≢false (sym h))

module _ {P : Type 0} ⦃outer : Outside P⦄ where
  -- The host sets the address, writes bytes one after the other, reads as many.
  unfoldable pub seek : ℕ → IifxIop P → IifxIop P
  seek a i = host_write 2 (u8 a) (host_write 0 (u8 (a >>> 8)) i)

  unfoldable pub write_all : List ℕ → IifxIop P → IifxIop P
  write_all [] i = i
  write_all (v ∷ vs) i = write_all vs (host_write 8 v i)

  unfoldable pub read_all : ℕ → Asic P → List ℕ × Asic P
  read_all zero s = ([], s)
  read_all (suc n) s = let (v, s1) = host_read 8 s in let (vs, s2) = read_all n s1 in (v ∷ vs, s2)

  abbrev placed : ℕ → List ℕ → IifxIop P → IifxIop P
  placed a ram i = with_asic (record (asic i) { address = a; ram = ram }) i

  pub cpu_write-ram :
      (a v : ℕ) (s : Asic P) → a < 0x8000 → cpu_write a v s ≡ record s { ram = set s.ram a v }
  unfolding cpu_write
  cpu_write-ram a v s h = kept (ltb a 0x8000) _ _ (ground arith)

  pub cpu_read-ram : (a : ℕ) (s : Asic P) → a < 0x8000 → cpu_read a s ≡ (get_or s.ram a 0, s)
  unfolding cpu_read
  cpu_read-ram a s h = kept (ltb a 0x8000) _ _ (ground arith)

  stepped :
      (s : Asic P)
      → s.address < 0x8000
      → has s.status_bits k_auto_inc ≡ true
      → next_address s ≡ record s { address = s.address + 1 }
  stepped s h inc =
      kept (has s.status_bits k_auto_inc) _ _ inc ∙ ap (λ n. record s { address = n }) (omega arith)

  write_one :
      (a v : ℕ) (ram : List ℕ) (i : IifxIop P)
      → a < 0x8000
      → has (asic i).status_bits k_auto_inc ≡ true
      → host_write 8 v (placed a ram i) ≡ placed (a + 1) (set ram a v) i
  unfolding host_write
  write_one a v ram i h inc =
      let s = record (asic i) { address = a; ram = ram } in
      ap (λ t. with_asic (next_address t) i) (cpu_write-ram a v s h)
      ∙ ap (λ t. with_asic t i) (stepped (record s { ram = set ram a v }) h inc)

  read_one :
      (a : ℕ) (s : Asic P)
      → a < 0x8000
      → has s.status_bits k_auto_inc ≡ true
      → host_read 8 (record s { address = a }) ≡ (get_or s.ram a 0, record s { address = a + 1 })
  unfolding host_read
  read_one a s h inc =
      ap (λ r. (r.0, next_address r.1)) (cpu_read-ram a (record s { address = a }) h)
      ∙ ap (λ t. (get_or s.ram a 0, t)) (stepped (record s { address = a }) h inc)

  write_all-placed :
      (vs : List ℕ) (a : ℕ) (ram : List ℕ) (i : IifxIop P)
      → a + length vs ≤ 0x8000
      → has (asic i).status_bits k_auto_inc ≡ true
      → write_all vs (placed a ram i) ≡ placed (a + length vs) (write_at a vs ram) i
  unfolding write_all
  write_all-placed [] a ram i h inc = ap (λ n. placed n ram i) (omega arith)
  write_all-placed (v ∷ vs) a ram i h inc =
      ap (write_all vs) (write_one a v ram i (omega arith) inc)
      ∙ (write_all-placed vs (a + 1) (set ram a v) i (omega arith) inc
          ∙ ap (λ n. placed n (write_at (a + 1) vs (set ram a v)) i) (omega arith))

  read_all-read_at :
      (n a : ℕ) (s : Asic P)
      → a + n ≤ 0x8000
      → has s.status_bits k_auto_inc ≡ true
      → (read_all n (record s { address = a })).0 ≡ read_at s.ram a n
  unfolding read_all
  read_all-read_at zero a s h inc = refl
  read_all-read_at (suc n) a s h inc =
      ap (λ r. r.0 ∷ (read_all n r.1).0) (read_one a s (omega arith) inc)
      ∙ ap (λ vs. get_or s.ram a 0 ∷ vs) (read_all-read_at n (a + 1) s (omega arith) inc)

  seek_lem : (a : ℕ) (i : IifxIop P) → a < 2 ^ 16 → seek a i ≡ placed a (asic i).ram i
  unfolding seek host_write
  seek_lem a i h = ap (λ n. placed n (asic i).ram i) (addressed a (asic i).address h)

  -- A block of bytes that the host writes through its window comes back when it reads as many from the
  -- same address: with the address counting up, anywhere in the first 32 KiB, where the block fits.
  pub read_all-write_all :
      (a : ℕ) (vs : List ℕ) (i : IifxIop P)
      → a + length vs ≤ 0x8000
      → length (asic i).ram ≡ 0x8000
      → has (asic i).status_bits k_auto_inc ≡ true
      → (read_all (length vs) (asic (seek a (write_all vs (seek a i))))).0 ≡ vs
  read_all-write_all a vs i h size inc =
      let ram = (asic i).ram in
      let written = write_at a vs ram in
      let end = a + length vs in
      ap (λ j. (read_all (length vs) (asic (seek a j))).0)
        (ap (write_all vs) (seek_lem a i (omega arith)) ∙ write_all-placed vs a ram i h inc)
      ∙ (ap (λ j. (read_all (length vs) (asic j)).0)
            (seek_lem a (placed end written i) (omega arith))
          ∙ (read_all-read_at (length vs) a (record (asic i) { ram = written }) h inc
              ∙ read_at-write_at a vs ram (omega (arith, size))))
