-- ===== src/Disk/DiskCopy/Wrapping.antt =====
-- Splitting and reassembling a DiskCopy file.
use open_mac_for_linux.Base.{
  ℕ, ◌+◌, ◌%◌, ◌^◌, ◌≤◌, ◌<◌, bit_or, true, ◌≡◌, refl, sym, ap, ◌∙◌, inl, inr, List, [], ◌∷◌, ◌++◌,
  length, get_or, take, drop, u32, ◌<<<◌, ◌>>>◌, if◌then◌else◌, arith, AllBytes, IsByte, Bool-cases,
  length-append, length-take, length-drop, take-append, drop-append, take-append-drop,
  get_or-append, get_or-take, bit_and_low, bit_or-lt, All-take,
}
use open_mac_for_linux.Disk.Bytes.{
  be32, put32, be32-put32, be32-put32_ne, put32-be32, put32-append, length-put32, AllBytes-put32,
  get_or-put32, drop-drop, be32-append,
}
use open_mac_for_linux.Disk.DiskCopy.{
  is_disk_copy, data_size, Parts, wrapped, split, checksum, checksum_from, rewrap,
}

-- What the test for an image found.
pub record IsImage (img : List ℕ) : Type 0 where
  pub sized : 84 + be32 img 64 + be32 img 68 ≡ length img
  pub whole : be32 img 64 % 512 ≡ 0
  pub nonempty : 1 ≤ be32 img 64

is_disk_copy-IsImage : (img : List ℕ) → is_disk_copy img ≡ true → IsImage img
unfolding is_disk_copy
is_disk_copy-IsImage img e =
    let low = bit_and_low 9 (be32 img 64) in
    record { sized = ground arith; whole = ground arith; nonempty = ground arith }

-- A sum is a 32-bit word.
checksum_from-lt : (sum : ℕ) (bytes : List ℕ) → sum < 2 ^ 32 → checksum_from sum bytes < 2 ^ 32
unfolding checksum_from
checksum_from-lt sum [] h = h
checksum_from-lt sum (x ∷ []) h = h
checksum_from-lt sum (hi ∷ lo ∷ rest) h =
    let sum' = u32 (sum + bit_or (hi <<< 8) lo) in
    checksum_from-lt (bit_or (sum' >>> 1) (u32 (sum' <<< 31))) rest
      (bit_or-lt 32 (sum' >>> 1) (u32 (sum' <<< 31)) (omega arith) (omega arith))

checksum-lt : (bytes : List ℕ) → checksum bytes < 2 ^ 32
unfolding checksum
checksum-lt bytes = checksum_from-lt 0 bytes (omega arith)

be32-take : (n i : ℕ) (xs : List ℕ) → i + 4 ≤ n → be32 (take n xs) i ≡ be32 xs i
unfolding be32
be32-take n i xs h =
    rw
      (
        get_or-take n xs i 0 (omega arith),
        get_or-take n xs (i + 1) 0 (omega arith),
        get_or-take n xs (i + 2) 0 (omega arith),
        get_or-take n xs (i + 3) 0 (omega arith),
      )
      refl

-- A DiskCopy image cut in three.
pieces :
    (img : List ℕ)
    → is_disk_copy img ≡ true
    → split img ≡ (
      record { header = take 84 img; tags = drop (84 + be32 img 64) img },
      take (be32 img 64) (drop 84 img),
    )
unfolding split data_size
pieces img e = rw e refl

-- Splitting any file of fewer than 2^32 bytes and reassembling it around the unchanged data gives
-- the file back, except that in a DiskCopy image the data checksum is brought up to date: an image
-- with the right checksum comes back byte for byte, and so does a file that is not an image.
pub rewrap-split :
    (img : List ℕ)
    → AllBytes img
    → length img < 2 ^ 32
    → let (p, sectors) = split img in
      rewrap p sectors ≡ (if is_disk_copy img then put32 72 (checksum sectors) img else img)
unfolding rewrap wrapped
rewrap-split img h small = elim (Bool-cases (is_disk_copy img)) [
  | inl e ↦
      let image = is_disk_copy-IsImage img e in
      let sized = image.sized in
      let header = take 84 img in
      let n = be32 img 64 in
      let sectors = take n (drop 84 img) in
      let tags = drop (84 + n) img in
      let l_header : length header ≡ 84 = length-take 84 img ∙ omega arith in
      let l_sectors : u32 (length sectors) ≡ n =
        omega (arith, length-take n (drop 84 img), length-drop 84 img) in
      let l_tags : u32 (length tags) ≡ be32 img 68 = omega (arith, length-drop (84 + n) img) in
      let joined : header ++ (sectors ++ tags) ≡ img =
        ap (λ (ys : List ℕ). header ++ (sectors ++ ys)) (sym (drop-drop 84 n img))
        ∙ (ap (λ (ys : List ℕ). header ++ ys) (take-append-drop n (drop 84 img))
            ∙ take-append-drop 84 img) in
      let h_header = All-take IsByte 84 img h in
      let same : put32 68 (be32 img 68) (put32 64 n header) ≡ header =
        rw (put32-be32 64 n header h_header (be32-take 84 64 img (omega arith)))
          (put32-be32 68 (be32 img 68) header h_header (be32-take 84 68 img (omega arith))) in
      rw (pieces img e, e, l_header, l_sectors, l_tags, same)
        (sym (put32-append 72 (checksum sectors) header (sectors ++ tags) (omega arith))
          ∙ ap (put32 72 (checksum sectors)) joined)
  | inr e ↦ unfold split in rw e refl
]

-- Taking the two pieces after a header apart.
after_header :
    (header sectors tags : List ℕ) (n : ℕ)
    → length header ≡ 84
    → length sectors ≡ n
    → (take n (drop 84 (header ++ (sectors ++ tags))) ≡ sectors)
      × (drop (84 + n) (header ++ (sectors ++ tags)) ≡ tags)
after_header header sectors tags n eh es =
    let img = header ++ (sectors ++ tags) in
    let cut : drop 84 img ≡ sectors ++ tags =
      ap (λ (k : ℕ). drop k img) (sym eh) ∙ drop-append header (sectors ++ tags) in
    (
      ap (take n) cut
          ∙ (ap (λ (k : ℕ). take k (sectors ++ tags)) (sym es) ∙ take-append sectors tags),
      sym (drop-drop 84 n img)
          ∙ (ap (drop n) cut
              ∙ (ap (λ (k : ℕ). drop k (sectors ++ tags)) (sym es) ∙ drop-append sectors tags)),
    )

-- Reassembling a file around any sectors, a whole number of them and one at least, makes an image
-- again, and splitting it gives these sectors and the old tags. The kept header is of bytes and has
-- the word that identifies the format; the two blocks have fewer than 2^32 bytes each.
pub split-rewrap :
    (p : Parts) (sectors : List ℕ)
    → wrapped p ≡ true
    → AllBytes p.header
    → get_or p.header 82 0 ≡ 1
    → get_or p.header 83 0 ≡ 0
    → length sectors % 512 ≡ 0
    → 1 ≤ length sectors
    → length sectors < 2 ^ 32
    → length p.tags < 2 ^ 32
    → let img = rewrap p sectors in
      (is_disk_copy img ≡ true) × (((split img).1 ≡ sectors) × ((split img).0.tags ≡ p.tags))
unfolding rewrap wrapped
split-rewrap p sectors w h m0 m1 hs nonempty small small' =
    let long : length p.header ≡ 84 = ground arith in
    let n = length sectors in
    let t = length p.tags in
    let header1 = put32 64 (u32 n) p.header in
    let header2 = put32 68 (u32 t) header1 in
    let header = put32 72 (checksum sectors) header2 in
    let img = header ++ (sectors ++ p.tags) in
    let long1 : length header1 ≡ 84 = length-put32 64 (u32 n) p.header ∙ long in
    let long2 : length header2 ≡ 84 = length-put32 68 (u32 t) header1 ∙ long1 in
    let long3 : length header ≡ 84 = length-put32 72 (checksum sectors) header2 ∙ long2 in
    let h1 = AllBytes-put32 64 (u32 n) p.header h in
    let total : length img ≡ 84 + n + t =
      omega (arith, length-append header (sectors ++ p.tags), length-append sectors p.tags) in
    let size : be32 img 64 ≡ n =
      be32-append header _ 64 (omega arith)
      ∙ (be32-put32_ne 72 (checksum sectors) header2 64 (inl (omega arith))
          ∙ (be32-put32_ne 68 (u32 t) header1 64 (inl (omega arith))
              ∙ (be32-put32 64 (u32 n) p.header (omega arith) h (omega arith) ∙ omega arith))) in
    let tag_size : be32 img 68 ≡ t =
      be32-append header _ 68 (omega arith)
      ∙ (be32-put32_ne 72 (checksum sectors) header2 68 (inl (omega arith))
          ∙ (be32-put32 68 (u32 t) header1 (omega arith) h1 (omega arith) ∙ omega arith)) in
    let magic : (i : ℕ) → 76 ≤ i → i < 84 → get_or img i 0 ≡ get_or p.header i 0 = λ i low high.
      get_or-append header _ i 0 (omega arith)
      ∙ (get_or-put32 72 (checksum sectors) header2 i (inr (omega arith))
          ∙ (get_or-put32 68 (u32 t) header1 i (inr (omega arith))
              ∙ get_or-put32 64 (u32 n) p.header i (inr (omega arith)))) in
    let made : is_disk_copy img ≡ true =
      unfold is_disk_copy in
      ground (
        arith,
        magic 82 (omega arith) (omega arith),
        magic 83 (omega arith) (omega arith),
        bit_and_low 9 n,
      ) in
    let cut = after_header header sectors p.tags n long3 refl in
    rw (long) (made, (rw (pieces img made, size) cut.0, rw (pieces img made, size) cut.1))
