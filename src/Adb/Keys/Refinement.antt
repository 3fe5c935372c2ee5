-- ===== src/Adb/Keys/Refinement.antt =====
-- Runs of the keyboard's ring against a plain queue.
use open_mac_for_linux.Base.{
  ℕ, ◌≤◌, bit_and, bit_or, Bool, false, same, ◌≡◌, refl, ap, ap₂, ◌∙◌, inl, inr, List, [], ◌∷◌,
  ◌++◌, get_or, set, drop, length, u8, ◌==◌, ◌!=◌, if◌then◌else◌, arith, Bool-cases, length-set,
}
use open_mac_for_linux.Adb.{AdbTransceiver, queue_key, inject_key, talk_keyboard, emit, dequeue}
use open_mac_for_linux.Adb.Keys.{queue, IsRing, queue-queue_key, poll_keys, answer, queue-poll_keys}

queue_key-IsRing : (ev : ℕ) (t : AdbTransceiver) → IsRing t → IsRing (queue_key ev t)
unfolding queue_key
queue_key-IsRing ev t is = record {
  head_inside = ground (arith, is.head_inside);
  tail_inside = ground (arith, is.tail_inside);
  sized = ground (arith, is.sized, length-set t.kbd_q t.kbd_tail ev);
  buffer = ground (arith, is.buffer);
}

emitted : (buf : List ℕ) (a b : ℕ) → 2 ≤ length buf → 2 ≤ length (set (set buf 0 a) 1 b)
emitted buf a b h = omega (arith, length-set buf 0 a, length-set (set buf 0 a) 1 b)

emit-IsRing : (a b : ℕ) (t : AdbTransceiver) → IsRing t → IsRing (emit a b t)
unfolding emit
emit-IsRing a b t is = record {
  head_inside = is.head_inside;
  tail_inside = is.tail_inside;
  sized = is.sized;
  buffer = emitted t.buf a b is.buffer;
}

dequeue-IsRing : (t : AdbTransceiver) → IsRing t → IsRing (dequeue t)
dequeue-IsRing t is = record {
  head_inside = omega arith;
  tail_inside = is.tail_inside;
  sized = is.sized;
  buffer = is.buffer;
}

poll_keys-IsRing : (t : AdbTransceiver) → IsRing t → IsRing (poll_keys t).1
unfolding poll_keys talk_keyboard
poll_keys-IsRing t is =
    let t0 : AdbTransceiver = record t { len = 0; idx = 0 } in
    let is0 : IsRing t0 = record {
      head_inside = is.head_inside;
      tail_inside = is.tail_inside;
      sized = is.sized;
      buffer = is.buffer;
    } in
    let t1 = dequeue t0 in
    let is1 = dequeue-IsRing t0 is0 in
    let first = get_or t.kbd_q t.kbd_head 0 in
    elim (Bool-cases (t.kbd_head == t.kbd_tail)) [
      | inl e ↦ rw e is0
      | inr e ↦ elim (Bool-cases (t1.kbd_head != t1.kbd_tail)) [
        | inl m ↦
            rw (e, m)
              (emit-IsRing first (get_or t.kbd_q t1.kbd_head 0) (dequeue t1)
                (dequeue-IsRing t1 is1))
        | inr m ↦ rw (e, m) (emit-IsRing first 0xFF t1 is1)
      ]
    ]

poll_keys-key_state : (t : AdbTransceiver) → (poll_keys t).1.key_state ≡ t.key_state
unfolding poll_keys talk_keyboard emit
poll_keys-key_state t = ground arith

queue_key-key_state : (ev : ℕ) (t : AdbTransceiver) → (queue_key ev t).key_state ≡ t.key_state
unfolding queue_key
queue_key-key_state ev t = ground arith

-- What the host and the guest do to the keyboard.
pub data KeyOp : Type 0 where
  injects : ℕ → Bool → KeyOp
  asks : KeyOp

-- All the bytes that polls answer, and the transceiver after them.
unfoldable pub run_keys : List KeyOp → AdbTransceiver → List ℕ × AdbTransceiver
run_keys [] t = ([], t)
run_keys (injects code down ∷ ops) t = run_keys ops (inject_key code down t)
run_keys (asks ∷ ops) t =
    let (bytes, t') = poll_keys t in let (rest, t'') = run_keys ops t' in (bytes ++ rest, t'')

-- The keyboard as it is meant: the keys held, and a queue of thirty-one transitions at most.
pub record Keyboard : Type 0 where
  pub held : List Bool
  pub events : List ℕ

abbrev pub transition : ℕ → Bool → ℕ
transition code down = u8 (bit_or code (if down then 0 else 0x80))

abbrev pub enqueue : ℕ → List ℕ → List ℕ
enqueue ev events = if length events == 31 then events else events ++ (ev ∷ [])

unfoldable pub inject_spec : ℕ → Bool → Keyboard → Keyboard
inject_spec adb_code down k =
    let code = bit_and adb_code 0x7F in
    if same (get_or k.held code false) down
    then k
    else record { held = set k.held code down; events = enqueue (transition code down) k.events }

unfoldable pub run_keyboard : List KeyOp → Keyboard → List ℕ
run_keyboard [] k = []
run_keyboard (injects code down ∷ ops) k = run_keyboard ops (inject_spec code down k)
run_keyboard (asks ∷ ops) k =
    answer k.events ++ run_keyboard ops (record k { events = drop 2 k.events })

abbrev pub keyboard_of : AdbTransceiver → Keyboard
keyboard_of t = record { held = t.key_state; events = queue t }

-- The new state of a key does not touch the ring.
inject-keyboard :
    (code : ℕ) (down : Bool) (t : AdbTransceiver)
    → IsRing t
    → IsRing (inject_key code down t)
      × (keyboard_of (inject_key code down t) ≡ inject_spec code down (keyboard_of t))
unfolding inject_key inject_spec
inject-keyboard code0 down t is =
    let code = bit_and code0 0x7F in
    let pressed : AdbTransceiver = record t { key_state = set t.key_state code down } in
    let ring : IsRing pressed = record {
      head_inside = is.head_inside;
      tail_inside = is.tail_inside;
      sized = is.sized;
      buffer = is.buffer;
    } in
    let ev = transition code down in
    elim (Bool-cases (same (get_or t.key_state code false) down)) [
      | inl e ↦ rw e (is, refl)
      | inr e ↦ rw e (
        queue_key-IsRing ev pressed ring,
        ap₂ (λ (h : List Bool) (q : List ℕ). keyboard h q) (queue_key-key_state ev pressed)
            (queue-queue_key ev pressed ring ∙ (unfold queue in refl)),
      )
    ]
  where
    keyboard : List Bool → List ℕ → Keyboard
    keyboard h q = record { held = h; events = q }

-- Whatever keys the host injects between the guest's polls, the polls answer what the plain queue
-- answers: every change of a key once, in order, two to a poll, and none lost while fewer than
-- thirty-one wait. The ring has thirty-two places, its two marks lie inside it, and the response
-- buffer has two places at least.
pub run_keys-run_keyboard :
    (ops : List KeyOp) (t : AdbTransceiver)
    → IsRing t
    → (run_keys ops t).0 ≡ run_keyboard ops (keyboard_of t)
unfolding run_keys run_keyboard
run_keys-run_keyboard [] t is = refl
run_keys-run_keyboard (injects code down ∷ ops) t is =
    let step = inject-keyboard code down t is in
    run_keys-run_keyboard ops (inject_key code down t) step.0 ∙ ap (run_keyboard ops) step.1
run_keys-run_keyboard (asks ∷ ops) t is =
    let answered = queue-poll_keys t is in
    let t' = (poll_keys t).1 in
    let after : keyboard_of t' ≡ record (keyboard_of t) { events = drop 2 (queue t) } =
      ap₂ (λ (h : List Bool) (q : List ℕ). keyboard h q) (poll_keys-key_state t) answered.1 in
    ap₂ (λ (a b : List ℕ). a ++ b) answered.0
      (run_keys-run_keyboard ops t' (poll_keys-IsRing t is) ∙ ap (run_keyboard ops) after)
  where
    keyboard : List Bool → List ℕ → Keyboard
    keyboard h q = record { held = h; events = q }
