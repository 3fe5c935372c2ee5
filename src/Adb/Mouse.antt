-- ===== src/Adb/Mouse.antt =====
-- The mouse's motion, polled.
use open_mac_for_linux.Base.{
  ℕ, zero, suc, ◌+◌, ◌-◌, ◌*◌, ◌/◌, ◌%◌, ◌^◌, ◌≤◌, ◌<◌, bit_and, bit_or, Bool, true, false, ◌||◌,
  ◌≡◌, refl, ap, ◌∙◌, ◌⊎◌, none, get_or, set, length, u8, u32, sub32, ltb, ◌==◌, ◌!=◌,
  if◌then◌else◌, arith, bit_and_low, bit_or_join, get_or-set_self, get_or-set_ne, length-set,
}
use open_mac_for_linux.Adb.{
  set_state, cpu_shift_in, AdbTransceiver, clamp_delta, mouse_report, talk_mouse, emit, run_command,
  cpu_shift_out,
}

-- How far a delta is from zero.
abbrev pub distance : ℕ → ℕ
distance v = if ltb v (2 ^ 31) then v else 2 ^ 32 - v

-- The seven digits of a report, read as a signed number.
abbrev pub reported : ℕ → ℕ
reported b = let low = b % 128 in if ltb low 64 then low else low + (2 ^ 32 - 128)

clamp_delta-small :
    (v : ℕ)
    → v < 2 ^ 32
    → (clamp_delta v ≤ 63) ⊎ ((2 ^ 32 - 63 ≤ clamp_delta v) × (clamp_delta v < 2 ^ 32))
unfolding clamp_delta
clamp_delta-small v h = ground arith

taken-back : (v k : ℕ) → v < 2 ^ 32 → k < 2 ^ 32 → u32 (k + sub32 v k) ≡ v
taken-back v k h hk = omega arith

read_back :
    (k top : ℕ)
    → top ≤ 1
    → (k ≤ 63) ⊎ ((2 ^ 32 - 63 ≤ k) × (k < 2 ^ 32))
    → reported (u8 (bit_or (top * 128) (bit_and k 0x7F))) ≡ k
read_back k top ht h =
    let joined : bit_or (top * 2 ^ 7) (bit_and k 0x7F) ≡ top * 2 ^ 7 + k % 128 =
      rw (bit_and_low 7 k) (bit_or_join 7 top (k % 128) (omega arith)) in
    rw joined (ground arith)

-- The guest's exchange for a mouse report: the command, two bytes read, and the bus left idle.
unfoldable pub poll : AdbTransceiver → (ℕ × ℕ) × AdbTransceiver
poll t =
    let t1 = cpu_shift_out (t.mouse_addr * 16 + 12) (set_state 0 t) in
    let (b0, t2) = cpu_shift_in (set_state 1 t1) in
    let (b1, t3) = cpu_shift_in (set_state 2 t2) in ((b0, b1), set_state 3 t3)

-- The mouse can be polled: it has an address of its own, and no key waits.
pub record IsReady (t : AdbTransceiver) : Type 0 where
  pub addressed : t.mouse_addr < 16
  pub apart : (t.mouse_addr == t.kbd_addr) ≡ false
  pub no_keys : (t.kbd_head != t.kbd_tail) ≡ false
  pub buffer : 2 ≤ length t.buf
  pub word_x : t.mouse_dx < 2 ^ 32
  pub word_y : t.mouse_dy < 2 ^ 32

-- The transceiver that a Talk command finds.
abbrev commanded : AdbTransceiver → AdbTransceiver
commanded t = record t {
  state = 0;
  cmd = t.mouse_addr * 16 + 12;
  len = 0;
  idx = 0;
  int_line = true;
  open_ = true;
  staged_by_wake = false;
  listen_reg = none;
}

talk-commanded :
    (t : AdbTransceiver)
    → IsReady t
    → cpu_shift_out (t.mouse_addr * 16 + 12) (set_state 0 t) ≡ talk_mouse 0 (commanded t)
unfolding cpu_shift_out set_state run_command
talk-commanded t is =
    let c = t.mouse_addr * 16 + 12 in
    let addr : bit_and (c / 2 ^ 4) 0xF ≡ t.mouse_addr =
      bit_and_low 4 (c / 2 ^ 4) ∙ omega (arith, is.addressed) in
    let op : bit_and (c / 2 ^ 2) 3 ≡ 3 = bit_and_low 2 (c / 2 ^ 2) ∙ omega arith in
    let reg : bit_and c 3 ≡ 0 = bit_and_low 2 c ∙ omega arith in
    let own : (t.mouse_addr == t.mouse_addr) ≡ true = ground arith in
    rw (addr, op, reg, is.apart, own) refl

talk-report :
    (t : AdbTransceiver)
    → IsReady t
    → t.mouse_pending ≡ true
    → talk_mouse 0 (commanded t) ≡ mouse_report (commanded t)
unfolding talk_mouse
talk-report t is p = rw (is.no_keys, p) refl

-- A poll of a mouse that has moved, in its parts.
poll-report :
    (t : AdbTransceiver)
    → IsReady t
    → t.mouse_pending ≡ true
    → let r = mouse_report (commanded t) in
      poll t
      ≡ ((get_or r.buf 0 0, get_or r.buf 1 0), record r { idx = 2; state = 3; open_ = false })
unfolding poll cpu_shift_in set_state
poll-report t is p = rw (talk-commanded t is, talk-report t is p) (unfold mouse_report emit in refl)

-- The two bytes of a report.
abbrev byte_y : AdbTransceiver → ℕ
byte_y t =
    u8 (bit_or (if t.mouse_button then 0x00 else 0x80) (bit_and (clamp_delta t.mouse_dy) 0x7F))

abbrev byte_x : AdbTransceiver → ℕ
byte_x t = u8 (bit_or 0x80 (bit_and (clamp_delta t.mouse_dx) 0x7F))

report-bytes :
    (t : AdbTransceiver)
    → 2 ≤ length t.buf
    → let r = mouse_report t in (get_or r.buf 0 0 ≡ byte_y t) × (get_or r.buf 1 0 ≡ byte_x t)
unfolding mouse_report emit
report-bytes t h = (
  get_or-set_ne (set t.buf 0 (byte_y t)) 1 0 (byte_x t) 0 (λ e. absurd (omega arith))
      ∙ get_or-set_self t.buf 0 (byte_y t) 0 (omega arith),
  get_or-set_self (set t.buf 0 (byte_y t)) 1 (byte_x t) 0
      (omega (arith, length-set t.buf 0 (byte_y t))),
)

button-digit :
    (button : Bool) (k : ℕ)
    → (reported (u8 (bit_or (if button then 0x00 else 0x80) (bit_and k 0x7F)))
        ≡ reported (u8 (bit_or 0 (bit_and k 0x7F))))
      × ((u8 (bit_or (if button then 0x00 else 0x80) (bit_and k 0x7F)) / 128 == 0) ≡ button)
button-digit true k =
    let low = bit_and_low 7 k in
    (refl, rw (low, bit_or_join 7 0 (k % 128) (omega arith)) (ground arith))
button-digit false k =
    let low = bit_and_low 7 k in
    rw (low, bit_or_join 7 0 (k % 128) (omega arith), bit_or_join 7 1 (k % 128) (omega arith))
      (ground arith, ground arith)

clamped-word : (v : ℕ) → v < 2 ^ 32 → clamp_delta v < 2 ^ 32
unfolding clamp_delta
clamped-word v h = ground arith

-- A poll of a mouse that has moved reports what it takes from each axis and the button: the motion
-- read from the two bytes and the motion left are together the motion before, as 32-bit words.
pub poll-delivers :
    (t : AdbTransceiver)
    → IsReady t
    → t.mouse_pending ≡ true
    → let ((b0, b1), t') = poll t in
      (u32 (reported b1 + t'.mouse_dx) ≡ t.mouse_dx)
      × ((u32 (reported b0 + t'.mouse_dy) ≡ t.mouse_dy) × ((b0 / 128 == 0) ≡ t.mouse_button))
poll-delivers t is p =
    let r = commanded t in
    let bytes = report-bytes r is.buffer in
    let button = button-digit t.mouse_button (clamp_delta t.mouse_dy) in
    let x =
      read_back (clamp_delta t.mouse_dx) 1 (omega arith) (clamp_delta-small t.mouse_dx is.word_x) in
    let y =
      button.0
      ∙ read_back (clamp_delta t.mouse_dy) 0 (omega arith)
          (clamp_delta-small t.mouse_dy is.word_y) in
    rw (poll-report t is p, bytes.0, bytes.1)
      (unfold mouse_report emit in
        (
          ap (λ (k : ℕ). u32 (k + sub32 t.mouse_dx (clamp_delta t.mouse_dx))) x
              ∙ taken-back t.mouse_dx (clamp_delta t.mouse_dx) is.word_x
                  (clamped-word t.mouse_dx is.word_x),
          (
            ap (λ (k : ℕ). u32 (k + sub32 t.mouse_dy (clamp_delta t.mouse_dy))) y
                ∙ taken-back t.mouse_dy (clamp_delta t.mouse_dy) is.word_y
                    (clamped-word t.mouse_dy is.word_y),
            button.1,
          ),
        ))

-- What a poll leaves.
pub record IsPolled (t t' : AdbTransceiver) : Type 0 where
  pub ready : IsReady t'
  pub closer_x : distance t'.mouse_dx ≡ distance t.mouse_dx - 63
  pub closer_y : distance t'.mouse_dy ≡ distance t.mouse_dy - 63
  pub pending : t'.mouse_pending ≡ (t'.mouse_dx != 0 || t'.mouse_dy != 0)

-- A poll of a mouse at rest changes nothing of it.
record IsResting (t t' : AdbTransceiver) : Type 0 where
  ready : IsReady t'
  still_x : t'.mouse_dx ≡ t.mouse_dx
  still_y : t'.mouse_dy ≡ t.mouse_dy
  quiet : t'.mouse_pending ≡ false

-- The motion read so far: a report's byte counts where the mouse had one to give.
abbrev counted : Bool → ℕ → ℕ → ℕ
counted pending b total = if pending then u32 (reported b + total) else total

-- A number of polls: the sums of the motions that their reports give, to the right and down, as 32-bit
-- words, and the transceiver after them. A mouse at rest gives no report.
pub polls : ℕ → AdbTransceiver → (ℕ × ℕ) × AdbTransceiver
polls zero t = ((0, 0), t)
polls (suc n) t =
    let ((b0, b1), t') = poll t in
    let ((x, y), end) = polls n t' in
    ((counted t.mouse_pending b1 x, counted t.mouse_pending b0 y), end)

-- The reports have given the motion that the mouse had made, and no motion is left.
pub record IsDelivered (t : AdbTransceiver) (sums : ℕ × ℕ) (end : AdbTransceiver) : Type 0 where
  pub all_x : sums.0 ≡ t.mouse_dx
  pub all_y : sums.1 ≡ t.mouse_dy
  pub none_x : end.mouse_dx ≡ 0
  pub none_y : end.mouse_dy ≡ 0
  pub quiet : end.mouse_pending ≡ false

abbrev Delivers : ℕ → AdbTransceiver → Type 0
Delivers n t = IsDelivered t (polls n t).0 (polls n t).1
