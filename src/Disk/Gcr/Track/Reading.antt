-- ===== src/Disk/Gcr/Track/Reading.antt =====
-- A track that was built is read back.
use open_mac_for_linux.Base.{
  ℕ, zero, suc, ◌+◌, ◌≤◌, true, false, ◌&&◌, ◌≡◌, refl, ap, ◌∙◌, none, some, List, [], ◌∷◌, ◌++◌,
  length, get_or, drop, ltb, leb, ◌==◌, arith, drop-append, length-append, length-drop,
}
use open_mac_for_linux.Disk.Gcr.{decode, nibblized_size}
use open_mac_for_linux.Disk.Gcr.Track.{
  at_mark, k_payload, Decoding, take_header, take_data, decode_loop, decoded_at,
}

-- Any fuel from the length of the stream on gives the same.
decode_loop-enough :
    (before n f g : ℕ) (bytes : List ℕ) (d : Decoding)
    → length bytes ≤ f
    → length bytes ≤ g
    → decode_loop before n f bytes d ≡ decode_loop before n g bytes d
unfolding decode_loop
decode_loop-enough before n zero zero bytes d h k = refl
decode_loop-enough before n zero (suc g) [] d h k = refl
decode_loop-enough before n zero (suc g) (b ∷ bs) d h k = absurd (omega arith)
decode_loop-enough before n (suc f) zero [] d h k = refl
decode_loop-enough before n (suc f) zero (b ∷ bs) d h k = absurd (omega arith)
decode_loop-enough before n (suc f) (suc g) bytes d h k =
    let same = λ (m : ℕ) (d' : Decoding) (p : 1 ≤ m).
      decode_loop-enough before n f g (drop m bytes) d' (omega (arith, length-drop m bytes))
        (omega (arith, length-drop m bytes)) in
    rw
      (
        same 8 _ (omega arith),
        same (4 + nibblized_size k_payload + 4) _ (omega arith),
        same 1 d (omega arith),
      )
      refl

-- The loop with enough fuel.
module _ (before n : ℕ) where
  abbrev pub run : List ℕ → Decoding → Decoding
  run bytes d = decode_loop before n (length bytes) bytes d

  -- One round on each of its branches.
  round-skip :
      (f : ℕ) (bytes : List ℕ) (d : Decoding)
      → leb (length bytes) 3 ≡ false
      → (get_or bytes 0 0 == 0xD5) ≡ false
      → decode_loop before n (suc f) bytes d ≡ decode_loop before n f (drop 1 bytes) d
  unfolding decode_loop
  round-skip f bytes d long e = rw (long, e) refl

  round-header :
      (f : ℕ) (bytes : List ℕ) (d : Decoding)
      → leb (length bytes) 3 ≡ false
      → (at_mark 0x96 bytes && ltb 8 (length bytes)) ≡ true
      → decode_loop before n (suc f) bytes d
        ≡ decode_loop before n f (drop 8 bytes) (
            take_header
              (decoded_at bytes 3)
              (decoded_at bytes 4)
              (decoded_at bytes 5)
              (decoded_at bytes 6)
              (decoded_at bytes 7)
              d)
  unfolding decode_loop
  round-header f bytes d long e = rw (long, e) refl

  round-data :
      (f s : ℕ) (bytes : List ℕ) (d : Decoding)
      → leb (length bytes) 3 ≡ false
      → (at_mark 0x96 bytes && ltb 8 (length bytes)) ≡ false
      → at_mark 0xAD bytes ≡ true
      → leb (4 + nibblized_size k_payload + 4) (length bytes) ≡ true
      → d.cur_sector ≡ some s
      → decode_loop before n (suc f) bytes d
        ≡ decode_loop before n f
            (drop (4 + nibblized_size k_payload + 4) bytes)
            (record (take_data before n s (drop 4 bytes) d) { cur_sector = none })
  unfolding decode_loop
  round-data f s bytes d long none_there marked whole at =
      rw (long, none_there, marked, at, whole) refl

  -- A byte that begins no mark is passed over.
  pub run-skip :
      (b : ℕ) (bs : List ℕ) (d : Decoding)
      → (b == 0xD5) ≡ false
      → 3 ≤ length bs
      → run (b ∷ bs) d ≡ run bs d
  run-skip b bs d e h = round-skip (length bs) (b ∷ bs) d (ground arith) e

  pub run-header :
      (t s sh f ck : ℕ) (bs : List ℕ) (d : Decoding)
      → 1 ≤ length bs
      → run (0xD5 ∷ 0xAA ∷ 0x96 ∷ t ∷ s ∷ sh ∷ f ∷ ck ∷ bs) d
        ≡ run bs (take_header (decode t) (decode s) (decode sh) (decode f) (decode ck) d)
  run-header t s sh f ck bs d h =
      round-header (length (0xAA ∷ 0x96 ∷ t ∷ s ∷ sh ∷ f ∷ ck ∷ bs)) _ d (ground arith)
        (ground arith)
      ∙ decode_loop-enough before n _ _ bs _ (omega arith) (omega arith)

  pub run-data :
      (x s : ℕ) (field bs : List ℕ) (d : Decoding)
      → length field ≡ nibblized_size k_payload + 4
      → d.cur_sector ≡ some s
      → run (0xD5 ∷ 0xAA ∷ 0xAD ∷ x ∷ (field ++ bs)) d
        ≡ run bs (record (take_data before n s (field ++ bs) d) { cur_sector = none })
  run-data x s field bs d e at =
      let whole = length-append field bs in
      let step : 4 + nibblized_size k_payload + 4 ≡ suc (suc (suc (suc (length field)))) =
        omega arith in
      let dropped : drop (4 + nibblized_size k_payload + 4) (0xD5 ∷ 0xAA ∷ 0xAD ∷ x ∷ (field ++ bs))
          ≡ bs =
        ap (λ (m : ℕ). drop m (0xD5 ∷ 0xAA ∷ 0xAD ∷ x ∷ (field ++ bs))) step
        ∙ drop-append field bs in
      let d' : Decoding = record (take_data before n s (field ++ bs) d) { cur_sector = none } in
      round-data (length (0xAA ∷ 0xAD ∷ x ∷ (field ++ bs))) s _ d (ground (arith, whole))
        (ground arith) refl (ground (arith, whole)) at
      ∙ (ap (λ (ys : List ℕ). decode_loop before n (length (0xAA ∷ 0xAD ∷ x ∷ (field ++ bs))) ys d')
            dropped
          ∙ decode_loop-enough before n _ _ bs d' (omega (arith, whole)) (omega arith))
