-- ===== src/Adb/Tests.antt =====
-- A mouse moved and polled, and the transceiver's theorems at it.
use open_mac_for_linux.Base.{
  ◌-◌, ◌^◌, true, false, ◌≡◌, refl, none, replicate, arith, List, [], ◌∷◌,
}
use open_mac_for_linux.Adb.{
  AdbTransceiver, cpu_shift_out, cpu_shift_in, set_state, clamp_delta, talk_mouse, mouse_report,
  emit, run_command, inject_key, queue_key, talk_keyboard,
}
use open_mac_for_linux.Adb.Mouse.{poll}
use open_mac_for_linux.Adb.Keys.{IsRing, poll_keys}
use open_mac_for_linux.Adb.Keys.Refinement.{
  KeyOp, injects, asks, run_keys, run_keyboard, keyboard_of, run_keys-run_keyboard,
}

-- 100 counts right, 3 up, the button down.
abbrev moved : AdbTransceiver
moved = record {
  state = 3;
  cmd = 0;
  buf = replicate 8 0;
  len = 0;
  idx = 0;
  int_line = true;
  open_ = false;
  staged_by_wake = false;
  kbd_addr = 2;
  mouse_addr = 3;
  key_state = replicate 128 false;
  kbd_q = replicate 32 0;
  kbd_head = 0;
  kbd_tail = 0;
  mouse_dx = 100;
  mouse_dy = 2 ^ 32 - 3;
  mouse_button = true;
  mouse_pending = true;
  listen_reg = none;
  listen_addr = 0;
  listen_pos = 0;
  listen_buf = replicate 2 0;
}

first_report : (poll moved).0 ≡ (0x7D, 0xBF)
unfolding poll cpu_shift_out cpu_shift_in set_state run_command talk_mouse mouse_report emit
    clamp_delta
first_report = refl

-- Shift and O pressed, polled, and O released.
abbrev typing : List KeyOp
typing = injects 0x38 true ∷ injects 0x1F true ∷ asks ∷ injects 0x1F false ∷ asks ∷ []

moved-IsRing : IsRing moved
moved-IsRing = record {
  head_inside = omega arith;
  tail_inside = omega arith;
  sized = refl;
  buffer = omega arith;
}

run_keys-run_keyboard_example : (run_keys typing moved).0 ≡ run_keyboard typing (keyboard_of moved)
run_keys-run_keyboard_example = run_keys-run_keyboard typing moved moved-IsRing

typed : (run_keys typing moved).0 ≡ 0x38 ∷ 0x1F ∷ 0x9F ∷ 0xFF ∷ []
unfolding run_keys inject_key queue_key poll_keys talk_keyboard emit
typed = refl
