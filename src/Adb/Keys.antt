-- ===== src/Adb/Keys.antt =====
-- The keyboard's ring of transitions, read as a queue. Its runs are in a child.
pub mod Refinement
use open_mac_for_linux.Base.{
  ℕ, zero, suc, ◌+◌, ◌-◌, ◌*◌, ◌/◌, ◌%◌, ◌^◌, ◌≤◌, ◌<◌, bit_and, bit_or, Bool, true, false, not,
  same, ◌≡◌, ◌≢◌, refl, ap, ap₂, sym, ◌∙◌, inl, inr, List, [], ◌∷◌, ◌++◌, get_or, set, take, drop,
  length, u8, ltb, leb, ◌==◌, ◌!=◌, if◌then◌else◌, arith, Bool-cases, get_or-set_self,
  get_or-set_ne, length-set,
}
use open_mac_for_linux.Adb.{AdbTransceiver, queue_key, inject_key, talk_keyboard, emit, dequeue}

-- The transitions from a place on.
waiting : ℕ → ℕ → List ℕ → List ℕ
waiting zero head q = []
waiting (suc n) head q = get_or q head 0 ∷ waiting n ((head + 1) % 32) q

abbrev count : ℕ → ℕ → ℕ
count head tail = (tail + 32 - head) % 32

-- The transitions that wait, the oldest first.
pub queue : AdbTransceiver → List ℕ
queue t = waiting (count t.kbd_head t.kbd_tail) t.kbd_head t.kbd_q

pub record IsRing (t : AdbTransceiver) : Type 0 where
  pub head_inside : t.kbd_head < 32
  pub tail_inside : t.kbd_tail < 32
  pub sized : length t.kbd_q ≡ 32
  pub buffer : 2 ≤ length t.buf

length-waiting : (n head : ℕ) (q : List ℕ) → length (waiting n head q) ≡ n
unfolding waiting
length-waiting zero head q = refl
length-waiting (suc n) head q = ap suc (length-waiting n ((head + 1) % 32) q)

waiting-last :
    (n head : ℕ) (q : List ℕ)
    → head < 32
    → waiting (suc n) head q ≡ waiting n head q ++ (get_or q ((head + n) % 32) 0 ∷ [])
unfolding waiting
waiting-last zero head q h =
    let e : head ≡ (head + 0) % 32 = omega arith in ap (λ (i : ℕ). get_or q i 0 ∷ []) e
waiting-last (suc n) head q h =
    let e : ((head + 1) % 32 + n) % 32 ≡ (head + suc n) % 32 = omega arith in
    ap (λ (ys : List ℕ). get_or q head 0 ∷ ys)
      (waiting-last n ((head + 1) % 32) q (omega arith)
        ∙ ap (λ (i : ℕ). waiting n ((head + 1) % 32) q ++ (get_or q i 0 ∷ [])) e)

waiting-set :
    (n head i v : ℕ) (q : List ℕ)
    → head < 32
    → i < 32
    → n ≤ count head i
    → waiting n head (set q i v) ≡ waiting n head q
unfolding waiting
waiting-set zero head i v q h hi b = refl
waiting-set (suc n) head i v q h hi b =
    ap₂ (λ (x : ℕ) (xs : List ℕ). x ∷ xs) (get_or-set_ne q i head v 0 (λ e. absurd (omega arith)))
      (waiting-set n ((head + 1) % 32) i v q (omega arith) hi (omega arith))

-- A transition is put at the end, unless thirty-one wait.
pub queue-queue_key :
    (ev : ℕ) (t : AdbTransceiver)
    → IsRing t
    → queue (queue_key ev t) ≡ (if length (queue t) == 31 then queue t else queue t ++ (ev ∷ []))
unfolding queue queue_key
queue-queue_key ev t is =
    let n = count t.kbd_head t.kbd_tail in
    let counted = length-waiting n t.kbd_head t.kbd_q in
    elim (Bool-cases ((t.kbd_tail + 1) % 32 == t.kbd_head)) [
      | inl e ↦
          let full : (length (waiting n t.kbd_head t.kbd_q) == 31) ≡ true =
            ground (arith, is.head_inside, is.tail_inside) in
          rw (e, full) refl
      | inr e ↦
          let room : (length (waiting n t.kbd_head t.kbd_q) == 31) ≡ false =
            ground (arith, is.head_inside, is.tail_inside) in
          let more : count t.kbd_head ((t.kbd_tail + 1) % 32) ≡ suc n =
            ground (arith, is.head_inside, is.tail_inside) in
          let place : (t.kbd_head + n) % 32 ≡ t.kbd_tail =
            omega (arith, is.head_inside, is.tail_inside) in
          let q' = set t.kbd_q t.kbd_tail ev in
          rw (e, room)
            (ap (λ (m : ℕ). waiting m t.kbd_head q') more
              ∙ (waiting-last n t.kbd_head q' is.head_inside
                  ∙ ap₂ (λ (xs : List ℕ) (x : ℕ). xs ++ (x ∷ []))
                      (waiting-set n t.kbd_head t.kbd_tail ev t.kbd_q is.head_inside is.tail_inside
                        (omega arith))
                      (ap (λ (i : ℕ). get_or q' i 0) place
                        ∙ get_or-set_self t.kbd_q t.kbd_tail ev 0
                            (omega (arith, is.sized, is.tail_inside)))))
    ]

-- What a Talk of register 0 answers: the staged bytes, of a response staged anew.
unfoldable pub poll_keys : AdbTransceiver → List ℕ × AdbTransceiver
poll_keys t = let t' = talk_keyboard 0 (record t { len = 0; idx = 0 }) in (take t'.len t'.buf, t')

-- The two oldest transitions, a filler for the second where there is but one.
abbrev pub answer : List ℕ → List ℕ
answer [] = []
answer (a ∷ []) = a ∷ 0xFF ∷ []
answer (a ∷ b ∷ ks) = a ∷ b ∷ []

staged : (buf : List ℕ) (a b : ℕ) → 2 ≤ length buf → take 2 (set (set buf 0 a) 1 b) ≡ a ∷ b ∷ []
staged [] a b h = absurd (omega arith)
staged (x ∷ []) a b h = absurd (omega arith)
staged (x ∷ y ∷ buf) a b h = refl

-- A poll answers with the oldest transitions and takes them out of the queue.
pub queue-poll_keys :
    (t : AdbTransceiver)
    → IsRing t
    → ((poll_keys t).0 ≡ answer (queue t)) × (queue (poll_keys t).1 ≡ drop 2 (queue t))
unfolding queue poll_keys talk_keyboard emit waiting
queue-poll_keys t is = go (count t.kbd_head t.kbd_tail) refl
  where
    go :
        (n : ℕ)
        → count t.kbd_head t.kbd_tail ≡ n
        → ((poll_keys t).0 ≡ answer (waiting n t.kbd_head t.kbd_q))
          × (queue (poll_keys t).1 ≡ drop 2 (waiting n t.kbd_head t.kbd_q))
    go zero e =
        let same_place : (t.kbd_head == t.kbd_tail) ≡ true =
          ground (arith, is.head_inside, is.tail_inside) in
        rw same_place (refl, ap (λ (m : ℕ). waiting m t.kbd_head t.kbd_q) e)
    go (suc zero) e =
        let apart : (t.kbd_head == t.kbd_tail) ≡ false =
          ground (arith, is.head_inside, is.tail_inside) in
        let last : ((t.kbd_head + 1) % 32 != t.kbd_tail) ≡ false =
          ground (arith, is.head_inside, is.tail_inside) in
        let none_left : count ((t.kbd_head + 1) % 32) t.kbd_tail ≡ 0 =
          ground (arith, is.head_inside, is.tail_inside) in
        rw (apart, last)
          (
            staged t.buf (get_or t.kbd_q t.kbd_head 0) 0xFF is.buffer,
            ap (λ (m : ℕ). waiting m ((t.kbd_head + 1) % 32) t.kbd_q) none_left,
          )
    go (suc (suc n)) e =
        let apart : (t.kbd_head == t.kbd_tail) ≡ false =
          ground (arith, is.head_inside, is.tail_inside) in
        let next = (t.kbd_head + 1) % 32 in
        let more : (next != t.kbd_tail) ≡ true = ground (arith, is.head_inside, is.tail_inside) in
        let left : count ((next + 1) % 32) t.kbd_tail ≡ n =
          ground (arith, is.head_inside, is.tail_inside) in
        rw (apart, more)
          (
            staged t.buf (get_or t.kbd_q t.kbd_head 0) (get_or t.kbd_q next 0) is.buffer,
            ap (λ (m : ℕ). waiting m ((next + 1) % 32) t.kbd_q) left,
          )
