-- ===== src/Disk/Bytes.antt =====
-- Big-endian words in the headers of image files: `be32` of dc42.hpp and macbinary.hpp, and the
-- stores of `rewrap`.
use open_mac_for_linux.Base.{
  ℕ, zero, suc, ◌+◌, ◌*◌, ◌^◌, ◌<◌, ◌≤◌, bit_or, ◌≡◌, ◌⊎◌, refl, sym, ap, ◌∙◌, List, [], ◌∷◌, ◌++◌,
  length, get_or, set, u8, ◌<<<◌, ◌>>>◌, arith, bit_or_join, AllBytes, IsByte, All-get_or, All-set,
  length-set, get_or-set_self, get_or-set_ne, take, drop, get_or-append,
}

unfoldable pub be32 : List ℕ → ℕ → ℕ
be32 v at =
    bit_or
      (bit_or (bit_or (get_or v at 0 <<< 24) (get_or v (at + 1) 0 <<< 16))
        (get_or v (at + 2) 0 <<< 8))
      (get_or v (at + 3) 0)

-- The four stores of a 32-bit word.
pub put32 : ℕ → ℕ → List ℕ → List ℕ
put32 at n out =
    set (set (set (set out at (u8 (n >>> 24))) (at + 1) (u8 (n >>> 16))) (at + 2) (u8 (n >>> 8)))
      (at + 3) (u8 n)

joined :
    (a b c d : ℕ)
    → b < 256
    → c < 256
    → d < 256
    → bit_or (bit_or (bit_or (a * 2 ^ 24) (b * 2 ^ 16)) (c * 2 ^ 8)) d
      ≡ a * 2 ^ 24 + b * 2 ^ 16 + c * 2 ^ 8 + d
joined a b c d hb hc hd =
    let first : bit_or (a * 2 ^ 24) (b * 2 ^ 16) ≡ (a * 2 ^ 8 + b) * 2 ^ 16 =
      bit_or_join 24 a (b * 2 ^ 16) (omega arith) ∙ omega arith in
    let second : bit_or ((a * 2 ^ 8 + b) * 2 ^ 16) (c * 2 ^ 8)
        ≡ (a * 2 ^ 16 + b * 2 ^ 8 + c) * 2 ^ 8 =
      bit_or_join 16 (a * 2 ^ 8 + b) (c * 2 ^ 8) (omega arith) ∙ omega arith in
    rw (first, second, bit_or_join 8 (a * 2 ^ 16 + b * 2 ^ 8 + c) d hd) (omega arith)

pub be32_lem :
    (v : List ℕ) (at : ℕ)
    → AllBytes v
    → be32 v at
      ≡ get_or v at 0 * 2 ^ 24
        + get_or v (at + 1) 0 * 2 ^ 16
        + get_or v (at + 2) 0 * 2 ^ 8
        + get_or v (at + 3) 0
unfolding be32
be32_lem v at h =
    joined (get_or v at 0) (get_or v (at + 1) 0) (get_or v (at + 2) 0) (get_or v (at + 3) 0)
      (All-get_or IsByte v (at + 1) 0 (omega arith) h)
      (All-get_or IsByte v (at + 2) 0 (omega arith) h)
      (All-get_or IsByte v (at + 3) 0 (omega arith) h)

pub length-put32 : (at n : ℕ) (out : List ℕ) → length (put32 at n out) ≡ length out
unfolding put32
length-put32 at n out =
    length-set _ (at + 3) _
    ∙ (length-set _ (at + 2) _ ∙ (length-set _ (at + 1) _ ∙ length-set out at _))

pub AllBytes-put32 : (at n : ℕ) (out : List ℕ) → AllBytes out → AllBytes (put32 at n out)
unfolding put32
AllBytes-put32 at n out h = All-set IsByte _ (at + 3) _ (omega arith) (
    All-set IsByte _ (at + 2) _ (omega arith)
      (All-set IsByte _ (at + 1) _ (omega arith) (All-set IsByte out at _ (omega arith) h)))

-- Elsewhere nothing changes.
pub get_or-put32 :
    (at n : ℕ) (out : List ℕ) (i : ℕ)
    → (i < at) ⊎ (at + 4 ≤ i)
    → get_or (put32 at n out) i 0 ≡ get_or out i 0
unfolding put32
get_or-put32 at n out i h =
    get_or-set_ne _ (at + 3) i _ 0 (λ e. absurd (ground arith))
    ∙ (get_or-set_ne _ (at + 2) i _ 0 (λ e. absurd (ground arith))
        ∙ (get_or-set_ne _ (at + 1) i _ 0 (λ e. absurd (ground arith))
            ∙ get_or-set_ne out at i _ 0 (λ e. absurd (ground arith))))

module _ (at n : ℕ) (out : List ℕ) (h : at + 4 ≤ length out) where
  stored :
      (get_or (put32 at n out) at 0 ≡ u8 (n >>> 24))
      × ((get_or (put32 at n out) (at + 1) 0 ≡ u8 (n >>> 16))
          × ((get_or (put32 at n out) (at + 2) 0 ≡ u8 (n >>> 8))
              × (get_or (put32 at n out) (at + 3) 0 ≡ u8 n)))
  unfolding put32
  stored =
      let s0 = set out at (u8 (n >>> 24)) in
      let s1 = set s0 (at + 1) (u8 (n >>> 16)) in
      let s2 = set s1 (at + 2) (u8 (n >>> 8)) in
      let l0 = length-set out at (u8 (n >>> 24)) in
      let l1 = length-set s0 (at + 1) (u8 (n >>> 16)) in
      let l2 = length-set s1 (at + 2) (u8 (n >>> 8)) in
      (
        get_or-set_ne s2 (at + 3) at _ 0 (λ e. absurd (omega arith))
            ∙ (get_or-set_ne s1 (at + 2) at _ 0 (λ e. absurd (omega arith))
                ∙ (get_or-set_ne s0 (at + 1) at _ 0 (λ e. absurd (omega arith))
                    ∙ get_or-set_self out at _ 0 (omega arith))),
        (
          get_or-set_ne s2 (at + 3) (at + 1) _ 0 (λ e. absurd (omega arith))
              ∙ (get_or-set_ne s1 (at + 2) (at + 1) _ 0 (λ e. absurd (omega arith))
                  ∙ get_or-set_self s0 (at + 1) _ 0 (omega arith)),
          (
            get_or-set_ne s2 (at + 3) (at + 2) _ 0 (λ e. absurd (omega arith))
                ∙ get_or-set_self s1 (at + 2) _ 0 (omega arith),
            get_or-set_self s2 (at + 3) _ 0 (omega arith),
          ),
        ),
      )

  -- A word that was stored is read back.
  pub be32-put32 : AllBytes out → n < 2 ^ 32 → be32 (put32 at n out) at ≡ n
  be32-put32 b hn =
      be32_lem (put32 at n out) at (AllBytes-put32 at n out b)
      ∙ rw (stored.0, stored.1.0, stored.1.1.0, stored.1.1.1) (omega arith)

pub be32-put32_ne :
    (at n : ℕ) (out : List ℕ) (i : ℕ)
    → (i + 4 ≤ at) ⊎ (at + 4 ≤ i)
    → be32 (put32 at n out) i ≡ be32 out i
unfolding be32
be32-put32_ne at n out i h =
    rw
      (
        get_or-put32 at n out i (ground arith),
        get_or-put32 at n out (i + 1) (ground arith),
        get_or-put32 at n out (i + 2) (ground arith),
        get_or-put32 at n out (i + 3) (ground arith),
      )
      refl

set-get_or : (xs : List ℕ) (i v : ℕ) → get_or xs i 0 ≡ v → set xs i v ≡ xs
set-get_or [] i v e = refl
set-get_or (x ∷ xs) zero v e = ap (λ (y : ℕ). y ∷ xs) (sym e)
set-get_or (x ∷ xs) (suc i) v e = ap (λ (ys : List ℕ). x ∷ ys) (set-get_or xs i v e)

-- Storing the word that is there changes nothing.
pub put32-be32 : (at n : ℕ) (v : List ℕ) → AllBytes v → be32 v at ≡ n → put32 at n v ≡ v
unfolding put32
put32-be32 at n v h e =
    let a = All-get_or IsByte v at 0 (omega arith) h in
    let b = All-get_or IsByte v (at + 1) 0 (omega arith) h in
    let c = All-get_or IsByte v (at + 2) 0 (omega arith) h in
    let d = All-get_or IsByte v (at + 3) 0 (omega arith) h in
    let sum = sym (be32_lem v at h) ∙ e in
    rw
      (
        set-get_or v at (u8 (n >>> 24)) (omega arith),
        set-get_or v (at + 1) (u8 (n >>> 16)) (omega arith),
        set-get_or v (at + 2) (u8 (n >>> 8)) (omega arith),
        set-get_or v (at + 3) (u8 n) (omega arith),
      )
      refl

set-append : (xs ys : List ℕ) (i v : ℕ) → i < length xs → set (xs ++ ys) i v ≡ set xs i v ++ ys
set-append [] ys i v h = absurd (omega arith)
set-append (x ∷ xs) ys zero v h = refl
set-append (x ∷ xs) ys (suc i) v h =
    ap (λ (zs : List ℕ). x ∷ zs) (set-append xs ys i v (omega arith))

-- A word stored in the first of two pieces.
pub put32-append :
    (at n : ℕ) (xs ys : List ℕ) → at + 4 ≤ length xs → put32 at n (xs ++ ys) ≡ put32 at n xs ++ ys
unfolding put32
put32-append at n xs ys h =
    let s0 = set xs at (u8 (n >>> 24)) in
    let s1 = set s0 (at + 1) (u8 (n >>> 16)) in
    let s2 = set s1 (at + 2) (u8 (n >>> 8)) in
    let l0 = length-set xs at (u8 (n >>> 24)) in
    let l1 = length-set s0 (at + 1) (u8 (n >>> 16)) in
    let l2 = length-set s1 (at + 2) (u8 (n >>> 8)) in
    rw
      (
        set-append xs ys at (u8 (n >>> 24)) (omega arith),
        set-append s0 ys (at + 1) (u8 (n >>> 16)) (omega arith),
        set-append s1 ys (at + 2) (u8 (n >>> 8)) (omega arith),
        set-append s2 ys (at + 3) (u8 n) (omega arith),
      )
      refl

drop-nil : (n : ℕ) → drop {A = ℕ} n [] ≡ []
drop-nil zero = refl
drop-nil (suc n) = refl

pub drop-drop : (m n : ℕ) (xs : List ℕ) → drop n (drop m xs) ≡ drop (m + n) xs
drop-drop zero n xs = let e : n ≡ zero + n = omega arith in ap (λ (k : ℕ). drop k xs) e
drop-drop (suc m) n [] = drop-nil n ∙ sym (drop-nil (suc m + n))
drop-drop (suc m) n (x ∷ xs) =
    let e : suc (m + n) ≡ suc m + n = omega arith in
    drop-drop m n xs ∙ ap (λ (k : ℕ). drop k (x ∷ xs)) e

pub be32-append : (xs ys : List ℕ) (i : ℕ) → i + 4 ≤ length xs → be32 (xs ++ ys) i ≡ be32 xs i
unfolding be32
be32-append xs ys i h =
    rw
      (
        get_or-append xs ys i 0 (omega arith),
        get_or-append xs ys (i + 1) 0 (omega arith),
        get_or-append xs ys (i + 2) 0 (omega arith),
        get_or-append xs ys (i + 3) 0 (omega arith),
      )
      refl

pub take-append_le : (n : ℕ) (xs ys : List ℕ) → n ≤ length xs → take n (xs ++ ys) ≡ take n xs
take-append_le zero xs ys h = refl
take-append_le (suc n) [] ys h = absurd (omega arith)
take-append_le (suc n) (x ∷ xs) ys h =
    ap (λ (zs : List ℕ). x ∷ zs) (take-append_le n xs ys (omega arith))

pub take-set : (n : ℕ) (xs : List ℕ) (i v : ℕ) → n ≤ i → take n (set xs i v) ≡ take n xs
take-set zero xs i v h = refl
take-set (suc n) [] i v h = refl
take-set (suc n) (x ∷ xs) zero v h = absurd (omega arith)
take-set (suc n) (x ∷ xs) (suc i) v h =
    ap (λ (zs : List ℕ). x ∷ zs) (take-set n xs i v (omega arith))

pub be32-set : (xs : List ℕ) (i v at : ℕ) → (at + 4 ≤ i) → be32 (set xs i v) at ≡ be32 xs at
unfolding be32
be32-set xs i v at h =
    rw
      (
        get_or-set_ne xs i at v 0 (λ e. absurd (omega arith)),
        get_or-set_ne xs i (at + 1) v 0 (λ e. absurd (omega arith)),
        get_or-set_ne xs i (at + 2) v 0 (λ e. absurd (omega arith)),
        get_or-set_ne xs i (at + 3) v 0 (λ e. absurd (omega arith)),
      )
      refl
