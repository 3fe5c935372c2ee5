-- ===== src/Disk/Gcr/Track/Interleave.antt =====
-- The interleave places every sector of a track.
use open_mac_for_linux.Base.{
  ℕ, zero, suc, ◌/◌, ◌≤◌, ◌<◌, Bool, true, false, ◌&&◌, ◌||◌, ◌≡◌, refl, List, [], ◌∷◌, length, ltb,
  ◌==◌, if◌then◌else◌, arith, All, every_below, every_below_sound, get_or,
}
use open_mac_for_linux.Disk.Gcr.{sectors_on_track}
use open_mac_for_linux.Disk.Gcr.Track.{interleave_order, place, free_slot}

-- A sector in a list.
abbrev pub holds : ℕ → List ℕ → Bool
holds s [] = false
holds s (x ∷ xs) = (x == s) || holds s xs

all_inside : ℕ → List ℕ → Bool
all_inside n [] = true
all_inside n (s ∷ ss) = ltb s n && all_inside n ss

complete : ℕ → List ℕ → Bool
unfolding all_inside
complete n order = (length order == n) && (all_inside n order && every_below n (λ s. holds s order))

every_track : every_below 13 (λ n. ltb n 8 || complete n (interleave_order n)) ≡ true
unfolding every_below complete interleave_order place free_slot
every_track = refl

All-all_inside : (n : ℕ) (ss : List ℕ) → all_inside n ss ≡ true → All (λ s. s < n) ss
unfolding all_inside
All-all_inside n [] h = tt
All-all_inside n (s ∷ ss) h = (ground arith, All-all_inside n ss (ground arith))

-- Between eight and twelve.
pub sectors_on_track_bounds :
    (track : ℕ) → (8 ≤ sectors_on_track track) × (sectors_on_track track ≤ 12)
unfolding sectors_on_track
sectors_on_track_bounds track = zones (if ltb 4 (track / 16) then 4 else track / 16) (ground arith)
  where
    zones :
        (z : ℕ)
        → z ≤ 4
        → (8 ≤ get_or (12 ∷ 11 ∷ 10 ∷ 9 ∷ 8 ∷ []) z 0)
          × (get_or (12 ∷ 11 ∷ 10 ∷ 9 ∷ 8 ∷ []) z 0 ≤ 12)
    zones zero h = omega arith
    zones (suc zero) h = omega arith
    zones (suc (suc zero)) h = omega arith
    zones (suc (suc (suc zero))) h = omega arith
    zones (suc (suc (suc (suc zero)))) h = omega arith
    zones (suc (suc (suc (suc (suc z))))) h = absurd (omega arith)

pub record IsComplete (n : ℕ) (order : List ℕ) : Type 0 where
  pub count : length order ≡ n
  pub inside : All (λ s. s < n) order
  pub checked : every_below n (λ s. holds s order) ≡ true

pub interleave-IsComplete :
    (track : ℕ) → IsComplete (sectors_on_track track) (interleave_order (sectors_on_track track))
unfolding complete
interleave-IsComplete track =
    let n = sectors_on_track track in
    let order = interleave_order n in
    let bounds = sectors_on_track_bounds track in
    let found =
      every_below_sound 13 (λ n. ltb n 8 || complete n (interleave_order n)) every_track n
        (omega arith) in
    record {
      count = ground arith;
      inside = All-all_inside n order (ground arith);
      checked = ground arith;
    }

-- On every track the search for free slots, on as much fuel as there are slots, places each logical
-- sector: the slots hold as many sectors as the track has, none beyond the track, and every one of
-- them.
pub interleave_order_lem :
    (track s : ℕ)
    → s < sectors_on_track track
    → let order = interleave_order (sectors_on_track track) in
      (length order ≡ sectors_on_track track)
      × (All (λ s. s < sectors_on_track track) order × (holds s order ≡ true))
interleave_order_lem track s h =
    let done = interleave-IsComplete track in
    let n = sectors_on_track track in
    (
      done.count,
      (done.inside, every_below_sound n (λ s. holds s (interleave_order n)) done.checked s h),
    )
