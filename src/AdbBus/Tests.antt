-- ===== src/AdbBus/Tests.antt =====
-- A command sent over the serial bus, and the bus's theorems at it.
use open_mac_for_linux.Base.{
  ℕ, ◌+◌, ◌*◌, Bool, true, false, List, [], ◌∷◌, ◌≡◌, refl, none, replicate, arith, if◌then◌else◌,
}
use open_mac_for_linux.Adb.{AdbTransceiver, listening}
use open_mac_for_linux.AdbBus.{
  idle, stop, IifxAdbBus, reset, bus_ticks, finish_command, reply_events, schedule_reply, advance,
}
use open_mac_for_linux.AdbBus.Wire.{drives, reads, run, IsWired, run-reset-IsWired}
use open_mac_for_linux.AdbBus.Command.{
  Cell, line, number, latest, now_after, send, send-finish_command,
}
use open_mac_for_linux.AdbBus.Reply.{
  heard, bits_of, after_pull, heard-reply_events, schedule_reply-IsOver,
}

-- A transceiver with a key waiting.
abbrev keyboard : AdbTransceiver
keyboard = record {
  state = 3;
  cmd = 0;
  buf = replicate 8 0;
  len = 0;
  idx = 0;
  int_line = true;
  open_ = false;
  staged_by_wake = false;
  kbd_addr = 2;
  mouse_addr = 3;
  key_state = replicate 128 false;
  kbd_q = 0x12 ∷ replicate 31 0;
  kbd_head = 0;
  kbd_tail = 1;
  mouse_dx = 0;
  mouse_dy = 0;
  mouse_button = false;
  mouse_pending = false;
  listen_reg = none;
  listen_addr = 0;
  listen_pos = 0;
  listen_buf = 0 ∷ 0 ∷ [];
}

abbrev resting : IifxAdbBus
resting = record {
  devices = keyboard;
  receive_state = idle;
  host_released = true;
  device_released = true;
  wire_high = true;
  device_sending = false;
  now = 0;
  last_edge = 0;
  shift = 0;
  bit = 0;
  listen_bytes = 0;
  last_listen = 0 ∷ 0 ∷ [];
  events = [];
  commands = 0;
  replies = 0;
  reply_bytes = 0;
  resets = 0;
  reply_samples = 0;
  reply_low_samples = 0;
  aborted_replies = 0;
  listen_transactions = 0;
  last_command = 0;
}

-- A cell of about a hundred microseconds, a one or a zero.
abbrev sent : ℕ → Bool → Cell
sent n one = let start = 3000 + 200 * n in (start + (if one then 68 else 128), start + 196)

-- The digits of 0x2C: talk to the keyboard.
abbrev talk_cells : List Cell
talk_cells =
    sent 0 false
    ∷ sent 1 false
    ∷ sent 2 true
    ∷ sent 3 false
    ∷ sent 4 true
    ∷ sent 5 true
    ∷ sent 6 false
    ∷ sent 7 false
    ∷ []

talk_number : number 0 talk_cells ≡ 0x2C
unfolding number bus_ticks
talk_number = refl

send-finish_command_example :
    let now = latest (now_after (latest (latest (latest 0 100) 1700) 1850) talk_cells) 4700 in
    send 100 1700 1850 talk_cells 4700 (line true idle 0 0 0 0 resting)
    ≡ finish_command
        (bus_ticks 4700)
        (line true stop (number 0 talk_cells) 8 now (bus_ticks 4700) resting)
unfolding bus_ticks listening
send-finish_command_example =
    send-finish_command 100 1700 1850 4700 talk_cells 0 0 0 0 resting (omega arith) (omega arith)
      (omega arith) refl refl refl

run-reset-IsWired_example :
    IsWired (run (drives false 100 ∷ reads 200 ∷ drives true 1700 ∷ []) (reset resting))
run-reset-IsWired_example =
    run-reset-IsWired (drives false 100 ∷ reads 200 ∷ drives true 1700 ∷ []) resting

heard-reply_events_example :
    heard none (after_pull (reply_events 5000 (0x12 ∷ 0xFF ∷ [])))
    ≡ true ∷ bits_of (0x12 ∷ 0xFF ∷ [])
heard-reply_events_example = heard-reply_events 5000 (0x12 ∷ 0xFF ∷ []) (omega arith)

schedule_reply-IsOver_example :
    (advance 9000 (schedule_reply 5000 (0x12 ∷ 0xFF ∷ []) resting)).device_sending ≡ false
schedule_reply-IsOver_example =
    (schedule_reply-IsOver 9000 5000 (0x12 ∷ 0xFF ∷ []) resting (omega arith) (omega arith)
      (omega arith)).0
