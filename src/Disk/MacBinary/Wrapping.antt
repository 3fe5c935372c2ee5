-- ===== src/Disk/MacBinary/Wrapping.antt =====
-- Splitting what was reassembled around a data fork.
use open_mac_for_linux.Base.{
  ℕ, ◌^◌, ◌≤◌, ◌<◌, true, false, ◌≡◌, refl, sym, subst, ◌∙◌, inl, inr, List, length, get_or, set,
  take, u8, u32, ◌>>>◌, ◌!=◌, arith, AllBytes, Bool-cases, length-set, get_or-set_self,
  get_or-set_ne, bit_or_join,
}
use open_mac_for_linux.Disk.Bytes.{
  be32, put32, be32-put32, be32-put32_ne, length-put32, get_or-put32, be32-set, take-set,
}
use open_mac_for_linux.Disk.Crc.Detection.{crc16-lt}
use open_mac_for_linux.Disk.MacBinary.{
  crc, stored_crc, is_mac_binary, Parts, wrapped, split, refresh, rewrap,
}
use open_mac_for_linux.Disk.MacBinary.Layout.{
  IsShaped, IsHeader, rewrap-padded, identified, split-file,
}

-- A header of bytes that a reassembled file can keep.
pub record IsKept (h : List ℕ) : Type 0 where
  pub sized : length h ≡ 128
  pub bytes : AllBytes h
  pub zero_at_0 : get_or h 0 0 ≡ 0
  pub zero_at_74 : get_or h 74 0 ≡ 0
  pub zero_at_82 : get_or h 82 0 ≡ 0
  pub named : 1 ≤ get_or h 1 0
  pub short : get_or h 1 0 ≤ 63

module _ (header : List ℕ) (is : IsKept header) (n : ℕ) (small : n < 2 ^ 32) where
  abbrev sized_out : List ℕ
  sized_out = put32 83 (u32 n) header

  sized_out-IsShaped : IsShaped sized_out n (be32 header 87)
  sized_out-IsShaped =
      let first = get_or-put32 83 (u32 n) header in
      record {
        sized = length-put32 83 (u32 n) header ∙ is.sized;
        zero_at_0 = first 0 (inl (omega arith)) ∙ is.zero_at_0;
        zero_at_74 = first 74 (inl (omega arith)) ∙ is.zero_at_74;
        zero_at_82 = first 82 (inl (omega arith)) ∙ is.zero_at_82;
        named = omega (arith, is.named, first 1 (inl (omega arith)));
        short = omega (arith, is.short, first 1 (inl (omega arith)));
        data_length =
            be32-put32 83 (u32 n) header (omega (arith, is.sized)) is.bytes (omega arith)
            ∙ omega arith;
        resource_length = be32-put32_ne 83 (u32 n) header 87 (inr (omega arith));
      }

  stored_crc-sized_out : stored_crc sized_out ≡ stored_crc header
  unfolding stored_crc
  stored_crc-sized_out =
      rw
        (
          get_or-put32 83 (u32 n) header 124 (inr (omega arith)),
          get_or-put32 83 (u32 n) header 125 (inr (omega arith)),
        )
        refl

IsShaped-set : (h : List ℕ) (n m i v : ℕ) → 124 ≤ i → IsShaped h n m → IsShaped (set h i v) n m
IsShaped-set h n m i v b is =
    let same : (j : ℕ) → j < 124 → get_or (set h i v) j 0 ≡ get_or h j 0 =
      λ j below. get_or-set_ne h i j v 0 (λ e. absurd (omega arith)) in
    record {
      sized = length-set h i v ∙ is.sized;
      zero_at_0 = same 0 (omega arith) ∙ is.zero_at_0;
      zero_at_74 = same 74 (omega arith) ∙ is.zero_at_74;
      zero_at_82 = same 82 (omega arith) ∙ is.zero_at_82;
      named = omega (arith, is.named, same 1 (omega arith));
      short = omega (arith, is.short, same 1 (omega arith));
      data_length = be32-set h i v 83 (omega arith) ∙ is.data_length;
      resource_length = be32-set h i v 87 (omega arith) ∙ is.resource_length;
    }

-- A check stored where it belongs is the check of the header that has it.
stored_crc-set :
    (h : List ℕ) (c : ℕ)
    → length h ≡ 128
    → c < 2 ^ 16
    → stored_crc (set (set h 124 (u8 (c >>> 8))) 125 (u8 c)) ≡ c
unfolding stored_crc
stored_crc-set h c e b =
    let h1 = set h 124 (u8 (c >>> 8)) in
    let hi =
      get_or-set_ne h1 125 124 (u8 c) 0 (λ q. absurd (omega arith))
      ∙ get_or-set_self h 124 (u8 (c >>> 8)) 0 (omega arith) in
    let lo = get_or-set_self h1 125 (u8 c) 0 (omega (arith, length-set h 124 (u8 (c >>> 8)))) in
    rw (hi, lo, bit_or_join 8 (u8 (c >>> 8)) (u8 c) (omega arith)) (omega arith)

crc-set : (h : List ℕ) (a b : ℕ) → crc (set (set h 124 a) 125 b) 124 ≡ crc h 124
unfolding crc
crc-set h a b =
    rw (take-set 124 (set h 124 a) 125 b (omega arith), take-set 124 h 124 a (omega arith)) refl

crc-lt : (bytes : List ℕ) (n : ℕ) → crc bytes n < 2 ^ 16
unfolding crc
crc-lt bytes n = crc16-lt (take n bytes) 0 (omega arith)

refresh-IsHeader :
    (header : List ℕ) (n : ℕ)
    → IsKept header
    → n < 2 ^ 32
    → IsHeader (refresh header n) n (be32 header 87)
unfolding refresh
refresh-IsHeader header n is small =
    let out = put32 83 (u32 n) header in
    let shape = sized_out-IsShaped header is n small in
    let c = crc out 124 in
    elim (Bool-cases (stored_crc header != 0)) [
      | inl e ↦
          let checked = set (set out 124 (u8 (c >>> 8))) 125 (u8 c) in
          rw e (record {
            shape =
                IsShaped-set _ n _ 125 (u8 c) (omega arith)
                  (IsShaped-set out n _ 124 (u8 (c >>> 8)) (omega arith) shape);
            checked = inr (
                stored_crc-set out c shape.sized (crc-lt out 124)
                ∙ sym (crc-set out (u8 (c >>> 8)) (u8 c)));
          })
      | inr e ↦ rw e (record {
        shape = shape;
        checked =
            inl (
              omega (arith, stored_crc-sized_out header is n small, zero_of (stored_crc header) e));
      })
    ]
  where
    zero_of : (x : ℕ) → (x != 0) ≡ false → x ≡ 0
    zero_of x e = ground arith

-- Reassembling a MacBinary file around any data fork and splitting it again gives this fork and the
-- kept resource fork. The kept header is of 128 bytes, with zeros where the standard wants them and
-- the length of the kept resource fork; the forks have fewer than 2^24 bytes. Its check may be
-- absent, right or wrong.
pub split-rewrap_fork :
    (p : Parts) (fork : List ℕ)
    → wrapped p ≡ true
    → IsKept p.header
    → be32 p.header 87 ≡ length p.resource
    → length fork ≤ 0xFFFFFF
    → length p.resource ≤ 0xFFFFFF
    → let (q, found) = split (rewrap p fork) in
      (is_mac_binary (rewrap p fork) ≡ true) × ((found ≡ fork) × (q.resource ≡ p.resource))
split-rewrap_fork p fork w is e small small' =
    let n = length fork in
    let header = refresh p.header n in
    let kept = refresh-IsHeader p.header n is (omega arith) in
    let found = subst (IsHeader header n) e kept in
    rw (rewrap-padded p fork w (omega arith) (omega arith) kept.shape.sized) (
      rw (split-file header fork p.resource found small small')
        (identified header fork p.resource found small small', (refl, refl)))
