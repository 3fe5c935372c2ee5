-- ===== src/Adb.antt =====
-- The ADB transceiver of adb.hpp with its keyboard and mouse. A signed delta is its two's
-- complement. The counters and logs for diagnosis are left out, and with them `lastEmitMouse_`.
pub mod Keys
pub mod Mouse
pub mod Tests
use open_mac_for_linux.Base.{
  ℕ, zero, suc, ◌+◌, ◌-◌, ◌*◌, ◌/◌, ◌%◌, ◌^◌, bit_and, bit_or, Bool, true, false, not, ◌&&◌, ◌||◌,
  same, Option, none, some, List, [], ◌∷◌, get_or, set, replicate, u8, u32, not8, sub32, ◌>>>◌, ltb,
  leb, ◌==◌, ◌!=◌, if◌then◌else◌,
}

pub record AdbTransceiver : Type 0 where
  pub state : ℕ
  pub cmd : ℕ
  pub buf : List ℕ
  pub len : ℕ
  pub idx : ℕ
  pub int_line : Bool
  pub open_ : Bool
  pub staged_by_wake : Bool
  pub kbd_addr : ℕ
  pub mouse_addr : ℕ
  pub key_state : List Bool
  pub kbd_q : List ℕ
  pub kbd_head : ℕ
  pub kbd_tail : ℕ
  pub mouse_dx : ℕ
  pub mouse_dy : ℕ
  pub mouse_button : Bool
  pub mouse_pending : Bool
  pub listen_reg : Option ℕ
  pub listen_addr : ℕ
  pub listen_pos : ℕ
  pub listen_buf : List ℕ

abbrev pub k_kbd_q : ℕ
k_kbd_q = 32

-- An event is dropped when the queue is full.
unfoldable pub queue_key : ℕ → AdbTransceiver → AdbTransceiver
queue_key ev t =
    let next = (t.kbd_tail + 1) % k_kbd_q in
    if next == t.kbd_head
    then t
    else record t { kbd_q = set t.kbd_q t.kbd_tail ev; kbd_tail = next }

-- The keys held, from `c` on, are queued again.
unfoldable pub requeue : List Bool → ℕ → AdbTransceiver → AdbTransceiver
requeue [] c t = t
requeue (held ∷ rest) c t = requeue rest (c + 1) (if held then queue_key c t else t)

unfoldable pub reset : AdbTransceiver → AdbTransceiver
reset t =
    let cleared = record t {
      state = 3;
      cmd = 0;
      len = 0;
      idx = 0;
      int_line = true;
      open_ = false;
      staged_by_wake = false;
      kbd_addr = 2;
      mouse_addr = 3;
      kbd_head = 0;
      kbd_tail = 0;
    } in
    record (requeue t.key_state 0 cleared) {
      mouse_dx = 0;
      mouse_dy = 0;
      mouse_button = false;
      mouse_pending = false;
      listen_reg = none;
      listen_addr = 0;
      listen_pos = 0;
    }

unfoldable pub key_held : ℕ → AdbTransceiver → Bool
key_held adb_code t = get_or t.key_state (bit_and adb_code 0x7F) false

unfoldable pub inject_key : ℕ → Bool → AdbTransceiver → AdbTransceiver
inject_key adb_code down t =
    let code = bit_and adb_code 0x7F in
    if same (get_or t.key_state code false) down
    then t
    else queue_key (u8 (bit_or code (if down then 0 else 0x80)))
        (record t { key_state = set t.key_state code down })

unfoldable pub inject_mouse : ℕ → ℕ → Bool → AdbTransceiver → AdbTransceiver
inject_mouse dx dy button t = record t {
  mouse_dx = u32 (t.mouse_dx + dx);
  mouse_dy = u32 (t.mouse_dy + dy);
  mouse_button = button;
  mouse_pending = true;
}

unfoldable pub set_state : ℕ → AdbTransceiver → AdbTransceiver
set_state state t =
    let s = bit_and state 3 in
    record t { state = s; int_line = true; open_ = if s == 3 then false else t.open_ }

unfoldable pub response_pending : AdbTransceiver → Bool
response_pending t = ltb t.idx t.len

unfoldable pub rom_response_pending : AdbTransceiver → Bool
rom_response_pending t = response_pending t && not t.staged_by_wake

unfoldable pub has_pending_event : AdbTransceiver → Bool
has_pending_event t = t.mouse_pending || t.kbd_head != t.kbd_tail

unfoldable pub wake_worth_poking : AdbTransceiver → Bool
wake_worth_poking t = not (rom_response_pending t) && (has_pending_event t || response_pending t)

unfoldable pub emit : ℕ → ℕ → AdbTransceiver → AdbTransceiver
emit a b t = record t { buf = set (set t.buf 0 a) 1 b; len = 2 }

-- A digit of the modifier register, cleared when the key is down.
abbrev pub modifier : ℕ → ℕ → AdbTransceiver → ℕ → ℕ
modifier key mask t hi = if get_or t.key_state key false then bit_and hi (not8 mask) else hi

-- The next transition, and its place given up.
abbrev pub dequeue : AdbTransceiver → AdbTransceiver
dequeue t = record t { kbd_head = (t.kbd_head + 1) % k_kbd_q }

unfoldable pub talk_keyboard : ℕ → AdbTransceiver → AdbTransceiver
talk_keyboard reg t =
    if reg == 0
    then (if t.kbd_head == t.kbd_tail
        then t
        else let first = get_or t.kbd_q t.kbd_head 0 in
          let t' = dequeue t in
          if t'.kbd_head != t'.kbd_tail
          then emit first (get_or t'.kbd_q t'.kbd_head 0) (dequeue t')
          else emit first 0xFF t')
    else if reg == 2
    then emit
        (modifier 0x39 0x20 t (
          modifier 0x36 0x08 t
            (modifier 0x38 0x04 t (modifier 0x3A 0x02 t (modifier 0x37 0x01 t 0xFF)))))
        0xFF t
    else if reg == 3
    then emit 0x22 0x02 t
    else t

-- Signed comparison of a 32-bit word with 63 and -63.
unfoldable pub clamp_delta : ℕ → ℕ
clamp_delta v =
    if ltb v (2 ^ 31) && ltb 63 v
    then 63
    else if leb (2 ^ 31) v && ltb v (2 ^ 32 - 63)
    then 2 ^ 32 - 63
    else v

unfoldable pub mouse_report : AdbTransceiver → AdbTransceiver
mouse_report t =
    let dx = clamp_delta t.mouse_dx in
    let dy = clamp_delta t.mouse_dy in
    let left_x = sub32 t.mouse_dx dx in
    let left_y = sub32 t.mouse_dy dy in
    emit (u8 (bit_or (if t.mouse_button then 0x00 else 0x80) (bit_and dy 0x7F)))
      (u8 (bit_or 0x80 (bit_and dx 0x7F)))
      (record t {
        mouse_dx = left_x;
        mouse_dy = left_y;
        mouse_pending = left_x != 0 || left_y != 0;
      })

unfoldable pub talk_mouse : ℕ → AdbTransceiver → AdbTransceiver
talk_mouse reg t =
    if reg == 0
    then (if t.kbd_head != t.kbd_tail then t else if not t.mouse_pending then t else mouse_report t)
    else if reg == 3
    then emit 0x23 0x01 t
    else t

abbrev pub talk : ℕ → ℕ → AdbTransceiver → AdbTransceiver
talk addr reg t =
    if addr == t.kbd_addr
    then talk_keyboard reg t
    else if addr == t.mouse_addr
    then talk_mouse reg t
    else t

unfoldable pub run_command : AdbTransceiver → AdbTransceiver
run_command t0 =
    let addr = bit_and (t0.cmd >>> 4) 0xF in
    let op = bit_and (t0.cmd >>> 2) 3 in
    let reg = bit_and t0.cmd 3 in
    let t = record t0 {
      len = 0;
      idx = 0;
      int_line = true;
      open_ = true;
      staged_by_wake = false;
      listen_reg = none;
    } in
    if op == 2
    then record t { listen_reg = some reg; listen_addr = addr; listen_pos = 0 }
    else if op == 3
    then talk addr reg t
    else t

-- The two bytes of a new register 3 move the addressed device.
unfoldable pub listened : AdbTransceiver → AdbTransceiver
listened t =
    if t.listen_pos == 2
    then (let new_addr = bit_and (get_or t.listen_buf 0 0) 0x0F in
        let moved =
          if t.listen_addr == t.kbd_addr
          then record t { kbd_addr = new_addr }
          else if t.listen_addr == t.mouse_addr
          then record t { mouse_addr = new_addr }
          else t in
        record moved { listen_reg = none })
    else t

abbrev pub data_state : AdbTransceiver → Bool
data_state t = t.state == 1 || t.state == 2

abbrev pub is_three : Option ℕ → Bool
is_three none = false
is_three (some r) = r == 3

unfoldable pub cpu_shift_out : ℕ → AdbTransceiver → AdbTransceiver
cpu_shift_out value t =
    if t.state == 0
    then run_command (record t { cmd = value })
    else if data_state t && is_three t.listen_reg
    then listened (
        if ltb t.listen_pos 2
        then record t {
          listen_buf = set t.listen_buf t.listen_pos value;
          listen_pos = t.listen_pos + 1;
        }
        else t)
    else t

unfoldable pub cpu_shift_in : AdbTransceiver → ℕ × AdbTransceiver
cpu_shift_in t =
    if data_state t && ltb t.idx t.len
    then (get_or t.buf t.idx 0, record t { idx = t.idx + 1 })
    else if response_pending t
    then (0xFF, t)
    else (0xFF, record t { int_line = false })

unfoldable pub listening : AdbTransceiver → Bool
listening t = elim t.listen_reg [ none ↦ false | some _ ↦ true ]

unfoldable pub re_stage_last_talk : AdbTransceiver → AdbTransceiver
re_stage_last_talk t =
    let addr = bit_and (t.cmd >>> 4) 0xF in
    let staged = talk addr (bit_and t.cmd 3) (record t { len = 0; idx = 0 }) in
    if response_pending t
    then t
    else if bit_and (t.cmd >>> 2) 3 != 3
    then t
    else record staged { staged_by_wake = ltb 0 staged.len }

unfoldable pub flush_stale_input : AdbTransceiver → AdbTransceiver
flush_stale_input t =
    let flushed = record t {
      mouse_pending = false;
      mouse_dx = 0;
      mouse_dy = 0;
      kbd_head = 0;
      kbd_tail = 0;
    } in
    if t.staged_by_wake
    then record flushed { len = 0; idx = 0; staged_by_wake = false }
    else flushed
