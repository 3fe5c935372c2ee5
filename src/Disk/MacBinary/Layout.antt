-- ===== src/Disk/MacBinary/Layout.antt =====
-- The parts of a MacBinary file one after the other, and taking them apart.
use open_mac_for_linux.Base.{
  ℕ, zero, suc, ◌+◌, ◌-◌, ◌*◌, ◌/◌, ◌%◌, ◌^◌, ◌≤◌, ◌<◌, Bool, true, ◌&&◌, ◌≡◌, ◌⊎◌, refl, sym, ap,
  ◌∙◌, List, [], ◌∷◌, ◌++◌, length, get_or, take, drop, replicate, leb, ◌!=◌, if◌then◌else◌, arith,
  length-append, length-replicate, take-append, drop-append, get_or-append, bit_and_low,
  bit_and_split, bit_and-zero,
}
use mathlib.Core.List.{append_assoc, append-nil}
use open_mac_for_linux.Disk.Bytes.{be32, be32-append, drop-drop, take-append_le}
use open_mac_for_linux.Disk.MacBinary.{
  crc, pad128, stored_crc, is_mac_binary, Parts, wrapped, split, resize, refresh, add_resource,
  rewrap,
}

pad128_lem : (n : ℕ) → n < 2 ^ 32 → pad128 n ≡ (n + 127) / 128 * 128
unfolding pad128
pad128_lem n h =
    bit_and_split 7 (n + 127) (2 ^ 64 - 1 - 127)
    ∙ omega (arith, bit_and_low 57 ((n + 127) / 2 ^ 7), bit_and-zero ((n + 127) % 2 ^ 7))

take-long : (n : ℕ) (xs : List ℕ) → length xs ≤ n → take n xs ≡ xs
take-long zero [] h = refl
take-long zero (x ∷ xs) h = absurd (omega arith)
take-long (suc n) [] h = refl
take-long (suc n) (x ∷ xs) h = ap (λ (ys : List ℕ). x ∷ ys) (take-long n xs (omega arith))

resize-up : (n : ℕ) (xs : List ℕ) → length xs ≤ n → resize n xs ≡ xs ++ replicate (n - length xs) 0
unfolding resize
resize-up n xs h = ap (λ (ys : List ℕ). ys ++ replicate (n - length xs) 0) (take-long n xs h)

-- A fork and the zeros after it.
abbrev pub padding : List ℕ → List ℕ
padding fork = replicate (pad128 (length fork) - length fork) 0

pub padded : List ℕ → List ℕ
padded fork = fork ++ padding fork

length-padded : (fork : List ℕ) → length fork < 2 ^ 32 → length (padded fork) ≡ pad128 (length fork)
unfolding padded
length-padded fork h =
    let n = length fork in
    omega (
      arith,
      length-append fork (padding fork),
      length-replicate {A = ℕ} (pad128 n - n) 0,
      pad128_lem n h,
    )

add_resource-padded :
    (rs out : List ℕ) → length rs < 2 ^ 32 → add_resource rs out ≡ out ++ padded rs
unfolding add_resource padded pad128
add_resource-padded [] out h = sym (append-nil out)
add_resource-padded (r ∷ rs) out h =
    let rest = r ∷ rs in
    let k = pad128 (length rest) - length rest in
    let e : length (out ++ rest) + k - length (out ++ rest) ≡ k = omega arith in
    resize-up (length (out ++ rest) + k) (out ++ rest) (omega arith)
    ∙ (ap (λ (j : ℕ). (out ++ rest) ++ replicate j 0) e ∙ append_assoc out rest (replicate k 0))

-- The parts of a file one after the other.
pub rewrap-padded :
    (p : Parts) (fork : List ℕ)
    → wrapped p ≡ true
    → length fork < 2 ^ 32
    → length p.resource < 2 ^ 32
    → length (refresh p.header (length fork)) ≡ 128
    → rewrap p fork ≡ refresh p.header (length fork) ++ (padded fork ++ padded p.resource)
unfolding rewrap
rewrap-padded p fork w h h' long =
    let n = length fork in
    let header = refresh p.header n in
    let l = length-append header fork in
    let e : 128 + pad128 n - length (header ++ fork) ≡ pad128 n - n = omega arith in
    let body : resize (128 + pad128 n) (header ++ fork) ≡ header ++ padded fork =
      resize-up (128 + pad128 n) (header ++ fork) (omega (arith, pad128_lem n h))
      ∙ (ap (λ (j : ℕ). (header ++ fork) ++ replicate j 0) e
          ∙ (append_assoc header fork (padding fork) ∙ (unfold padded in refl))) in
    rw (w, body)
      (add_resource-padded p.resource (header ++ padded fork) h'
        ∙ append_assoc header (padded fork) (padded p.resource))

-- A header whose forks have `n` and `m` bytes; with its check it identifies its file.
pub record IsShaped (h : List ℕ) (n m : ℕ) : Type 0 where
  pub sized : length h ≡ 128
  pub zero_at_0 : get_or h 0 0 ≡ 0
  pub zero_at_74 : get_or h 74 0 ≡ 0
  pub zero_at_82 : get_or h 82 0 ≡ 0
  pub named : 1 ≤ get_or h 1 0
  pub short : get_or h 1 0 ≤ 63
  pub data_length : be32 h 83 ≡ n
  pub resource_length : be32 h 87 ≡ m

pub record IsHeader (h : List ℕ) (n m : ℕ) : Type 0 where
  pub shape : IsShaped h n m
  pub checked : (stored_crc h ≡ 0) ⊎ (stored_crc h ≡ crc h 124)

abbrev pub parts_of : List ℕ → List ℕ → Parts
parts_of h r = record { header = h; resource = r }

present : (r : List ℕ) (b : Bool) → b ≡ true → (if length r != 0 && b then r else []) ≡ r
present [] b e = refl
present (x ∷ r) b e = rw e (ground arith)

le-leb : (a b : ℕ) → a ≤ b → leb a b ≡ true
le-leb a b h = ground arith

module _ (h fork resource : List ℕ) (is : IsHeader h (length fork) (length resource))
    (small : length fork ≤ 0xFFFFFF) (small' : length resource ≤ 0xFFFFFF) where
  abbrev pub file : List ℕ
  file = h ++ (padded fork ++ padded resource)

  length-file : length file ≡ 128 + pad128 (length fork) + pad128 (length resource)
  length-file = omega (
    arith,
    length-append h (padded fork ++ padded resource),
    length-append (padded fork) (padded resource),
    length-padded fork (omega arith),
    length-padded resource (omega arith),
    is.shape.sized,
  )

  at_header : (i : ℕ) → i < 128 → get_or file i 0 ≡ get_or h i 0
  at_header i b =
      get_or-append h (padded fork ++ padded resource) i 0 (omega (arith, is.shape.sized))

  stored_crc-file : stored_crc file ≡ stored_crc h
  unfolding stored_crc
  stored_crc-file = rw (at_header 124 (omega arith), at_header 125 (omega arith)) refl

  crc-file : crc file 124 ≡ crc h 124
  unfolding crc
  crc-file =
      rw (take-append_le 124 h (padded fork ++ padded resource) (omega (arith, is.shape.sized)))
        refl

  pub identified : is_mac_binary file ≡ true
  unfolding is_mac_binary
  identified =
      let n = length fork in
      let m = length resource in
      let data_len =
        be32-append h (padded fork ++ padded resource) 83 (omega (arith, is.shape.sized))
        ∙ is.shape.data_length in
      let rsrc_len =
        be32-append h (padded fork ++ padded resource) 87 (omega (arith, is.shape.sized))
        ∙ is.shape.resource_length in
      let total = length-file in
      let a = pad128_lem n (omega arith) in
      let b = pad128_lem m (omega arith) in
      rw
        (
          data_len,
          rsrc_len,
          stored_crc-file,
          crc-file,
          at_header 0 (omega arith),
          at_header 1 (omega arith),
          at_header 74 (omega arith),
          at_header 82 (omega arith),
          is.shape.zero_at_0,
          is.shape.zero_at_74,
          is.shape.zero_at_82,
        )
        (ground (arith, is.shape.named, is.shape.short, is.checked))

  taken_apart :
      (take 128 file ≡ h)
      × ((take (length fork) (drop 128 file) ≡ fork)
          × (take (length resource) (drop (128 + pad128 (length fork)) file) ≡ resource))
  unfolding padded
  taken_apart =
      let rest = padded fork ++ padded resource in
      let n = length fork in
      let m = length resource in
      let cut : drop 128 file ≡ rest =
        ap (λ (k : ℕ). drop k file) (sym is.shape.sized) ∙ drop-append h rest in
      let data_part : take n rest ≡ fork =
        ap (take n) (append_assoc fork (padding fork) (padded resource))
        ∙ take-append fork (padding fork ++ padded resource) in
      let after : drop (pad128 n) rest ≡ padded resource =
        ap (λ (k : ℕ). drop k rest) (sym (length-padded fork (omega arith)))
        ∙ drop-append (padded fork) (padded resource) in
      (
        ap (λ (k : ℕ). take k file) (sym is.shape.sized) ∙ take-append h rest,
        (
          ap (take n) cut ∙ data_part,
          ap (take m) (sym (drop-drop 128 (pad128 n) file) ∙ (ap (drop (pad128 n)) cut ∙ after))
              ∙ take-append resource (padding resource),
        ),
      )

  pub split-file : split file ≡ (record { header = h; resource = resource }, fork)
  unfolding split
  split-file =
      let apart = taken_apart in
      let total = length-file in
      let b = pad128_lem (length resource) (omega arith) in
      rw (identified, apart.0, is.shape.data_length, is.shape.resource_length, apart.1.0, apart.1.1)
        (ap (λ (r : List ℕ). (parts_of h r, fork))
          (present resource (leb (128 + pad128 (length fork) + length resource) (length file))
            (le-leb (128 + pad128 (length fork) + length resource) (length file) (omega arith))))
