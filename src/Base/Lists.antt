-- ===== src/Base/Lists.antt =====
-- Arrays and vectors as lists, measured and indexed by native numbers.
use Prim.Native.Nat.{ℕ, zero, suc, ◌+◌, ◌-◌, ◌<◌, min}
use mathlib.Core.Path.{◌≡◌, refl, ap}
use mathlib.Core.Logic.{◌≢◌}
use mathlib.Core.List.{List, [], ◌∷◌, ◌++◌}
use native.Mathlib.Omega.{arith}

module _ {ℓ} {A : Type ℓ} where
  abbrev pub length : List A → ℕ
  length [] = 0
  length (x ∷ xs) = suc (length xs)

  -- A write out of bounds changes nothing.
  abbrev pub set : List A → ℕ → A → List A
  set [] i v = []
  set (x ∷ xs) zero v = v ∷ xs
  set (x ∷ xs) (suc i) v = x ∷ set xs i v

  abbrev pub get_or : List A → ℕ → A → A
  get_or [] i d = d
  get_or (x ∷ xs) zero d = x
  get_or (x ∷ xs) (suc i) d = get_or xs i d

  abbrev pub take : ℕ → List A → List A
  take zero xs = []
  take (suc n) [] = []
  take (suc n) (x ∷ xs) = x ∷ take n xs

  abbrev pub drop : ℕ → List A → List A
  drop zero xs = xs
  drop (suc n) [] = []
  drop (suc n) (x ∷ xs) = drop n xs

  abbrev pub replicate : ℕ → A → List A
  replicate zero a = []
  replicate (suc n) a = a ∷ replicate n a

  pub length-append : (xs ys : List A) → length (xs ++ ys) ≡ length xs + length ys
  length-append [] ys = omega arith
  length-append (x ∷ xs) ys = omega (arith, length-append xs ys)

  pub length-set : (xs : List A) (i : ℕ) (v : A) → length (set xs i v) ≡ length xs
  length-set [] i v = refl
  length-set (x ∷ xs) zero v = refl
  length-set (x ∷ xs) (suc i) v = ap suc (length-set xs i v)

  pub get_or-set_self :
      (xs : List A) (i : ℕ) (v d : A) → i < length xs → get_or (set xs i v) i d ≡ v
  get_or-set_self [] i v d h = absurd (omega arith)
  get_or-set_self (x ∷ xs) zero v d h = refl
  get_or-set_self (x ∷ xs) (suc i) v d h = get_or-set_self xs i v d (omega arith)

  pub get_or-set_ne :
      (xs : List A) (i j : ℕ) (v d : A) → i ≢ j → get_or (set xs i v) j d ≡ get_or xs j d
  get_or-set_ne [] i j v d ne = refl
  get_or-set_ne (x ∷ xs) zero zero v d ne = absurd (ne refl)
  get_or-set_ne (x ∷ xs) zero (suc j) v d ne = refl
  get_or-set_ne (x ∷ xs) (suc i) zero v d ne = refl
  get_or-set_ne (x ∷ xs) (suc i) (suc j) v d ne = get_or-set_ne xs i j v d (λ e. ne (ap suc e))

  pub take-append-drop : (n : ℕ) (xs : List A) → take n xs ++ drop n xs ≡ xs
  take-append-drop zero xs = refl
  take-append-drop (suc n) [] = refl
  take-append-drop (suc n) (x ∷ xs) = rw (take-append-drop n xs)

  pub length-take : (n : ℕ) (xs : List A) → length (take n xs) ≡ min n (length xs)
  length-take zero xs = omega arith
  length-take (suc n) [] = omega arith
  length-take (suc n) (x ∷ xs) = omega (arith, length-take n xs)

  pub length-drop : (n : ℕ) (xs : List A) → length (drop n xs) ≡ length xs - n
  length-drop zero xs = omega arith
  length-drop (suc n) [] = omega arith
  length-drop (suc n) (x ∷ xs) = omega (arith, length-drop n xs)

  pub length-replicate : (n : ℕ) (a : A) → length (replicate n a) ≡ n
  length-replicate zero a = refl
  length-replicate (suc n) a = ap suc (length-replicate n a)

  pub take-append : (xs ys : List A) → take (length xs) (xs ++ ys) ≡ xs
  take-append [] ys = refl
  take-append (x ∷ xs) ys = rw (take-append xs ys)

  pub drop-append : (xs ys : List A) → drop (length xs) (xs ++ ys) ≡ ys
  drop-append [] ys = refl
  drop-append (x ∷ xs) ys = drop-append xs ys

  pub take-all : (xs : List A) → take (length xs) xs ≡ xs
  take-all [] = refl
  take-all (x ∷ xs) = rw (take-all xs)

  pub get_or-append :
      (xs ys : List A) (i : ℕ) (d : A) → i < length xs → get_or (xs ++ ys) i d ≡ get_or xs i d
  get_or-append [] ys i d h = absurd (omega arith)
  get_or-append (x ∷ xs) ys zero d h = refl
  get_or-append (x ∷ xs) ys (suc i) d h = get_or-append xs ys i d (omega arith)

  pub get_or-take :
      (n : ℕ) (xs : List A) (i : ℕ) (d : A) → i < n → get_or (take n xs) i d ≡ get_or xs i d
  get_or-take zero xs i d h = absurd (omega arith)
  get_or-take (suc n) [] i d h = refl
  get_or-take (suc n) (x ∷ xs) zero d h = refl
  get_or-take (suc n) (x ∷ xs) (suc i) d h = get_or-take n xs i d (omega arith)

-- Every member satisfies a predicate.
abbrev pub All {ℓ κ} : {A : Type ℓ} → (A → Type κ) → List A → Type κ
All P [] = Unit
All P (x ∷ xs) = P x × All P xs

module _ {ℓ κ} {A : Type ℓ} (P : A → Type κ) where
  pub All-set : (xs : List A) (i : ℕ) (v : A) → P v → All P xs → All P (set xs i v)
  All-set [] i v p h = h
  All-set (x ∷ xs) zero v p h = (p, h.1)
  All-set (x ∷ xs) (suc i) v p h = (h.0, All-set xs i v p h.1)

  pub All-get_or : (xs : List A) (i : ℕ) (d : A) → P d → All P xs → P (get_or xs i d)
  All-get_or [] i d p h = p
  All-get_or (x ∷ xs) zero d p h = h.0
  All-get_or (x ∷ xs) (suc i) d p h = All-get_or xs i d p h.1

  pub All-append : (xs ys : List A) → All P xs → All P ys → All P (xs ++ ys)
  All-append [] ys h k = k
  All-append (x ∷ xs) ys h k = (h.0, All-append xs ys h.1 k)

  pub All-take : (n : ℕ) (xs : List A) → All P xs → All P (take n xs)
  All-take zero xs h = tt
  All-take (suc n) [] h = tt
  All-take (suc n) (x ∷ xs) h = (h.0, All-take n xs h.1)

  pub All-drop : (n : ℕ) (xs : List A) → All P xs → All P (drop n xs)
  All-drop zero xs h = h
  All-drop (suc n) [] h = tt
  All-drop (suc n) (x ∷ xs) h = All-drop n xs h.1

module _ {ℓ κ} {A : Type ℓ} (P : A → Type κ) where
  pub All-replicate : (n : ℕ) (a : A) → P a → All P (replicate n a)
  All-replicate zero a p = tt
  All-replicate (suc n) a p = (p, All-replicate n a p)

-- Bytes of a buffer.
abbrev pub IsByte : ℕ → Type 0
IsByte b = b < 256

abbrev pub AllBytes : List ℕ → Type 0
AllBytes = All IsByte
