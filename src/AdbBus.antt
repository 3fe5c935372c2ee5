-- ===== src/AdbBus.antt =====
-- The serial Apple Desktop Bus of the IIfx: core/src/machine/iifx/adb_bus.cpp and adb_bus.hpp. The
-- transceiver that the bus refers to is a field; `events` holds the events of the vector that are still
-- to come, in place of the vector and its index.
pub mod Wire
pub mod Command
pub mod Reply
pub mod Tests
use open_mac_for_linux.Base.{
  ℕ, zero, suc, ◌+◌, ◌-◌, ◌*◌, ◌/◌, ◌%◌, ◌^◌, bit_and, bit_or, Bool, true, false, not, ◌&&◌, ◌||◌,
  List, [], ◌∷◌, ◌++◌, length, set, u8, ◌<<<◌, ◌>>>◌, ltb, leb, ◌==◌, ◌!=◌, if◌then◌else◌,
}
use open_mac_for_linux.Adb.{
  AdbTransceiver, set_state, response_pending, has_pending_event, cpu_shift_out, cpu_shift_in,
  listening,
}
use open_mac_for_linux.Adb as Adb

abbrev pub u64 : ℕ → ℕ
u64 n = n % 2 ^ 64

abbrev pub sub64 : ℕ → ℕ → ℕ
sub64 a b = u64 (a + 2 ^ 64 - b)

abbrev pub k_attention_minimum : ℕ
k_attention_minimum = 1200

abbrev pub k_reset_minimum : ℕ
k_reset_minimum = 4500

abbrev pub k_cell_half_minimum : ℕ
k_cell_half_minimum = 90

abbrev pub k_listen_turnaround : ℕ
k_listen_turnaround = 300

abbrev pub k_reply_turnaround : ℕ
k_reply_turnaround = 81

abbrev pub k_short : ℕ
k_short = 70

abbrev pub k_long : ℕ
k_long = 130

abbrev pub k_service_request : ℕ
k_service_request = 300

pub data ReceiveState : Type 0 where
  idle sync bits stop listen_turnaround listen_start : ReceiveState

pub record LineEvent : Type 0 where
  pub tick : ℕ
  pub released : Bool
  pub final : Bool

abbrev pub event : ℕ → Bool → Bool → LineEvent
event tick released final = record { tick = tick; released = released; final = final }

pub record IifxAdbBus : Type 0 where
  pub devices : AdbTransceiver
  pub receive_state : ReceiveState
  pub host_released : Bool
  pub device_released : Bool
  pub wire_high : Bool
  pub device_sending : Bool
  pub now : ℕ
  pub last_edge : ℕ
  pub shift : ℕ
  pub bit : ℕ
  pub listen_bytes : ℕ
  pub last_listen : List ℕ
  pub events : List LineEvent
  pub commands : ℕ
  pub replies : ℕ
  pub reply_bytes : ℕ
  pub resets : ℕ
  pub reply_samples : ℕ
  pub reply_low_samples : ℕ
  pub aborted_replies : ℕ
  pub listen_transactions : ℕ
  pub last_command : ℕ

unfoldable pub reset : IifxAdbBus → IifxAdbBus
reset b = record {
  devices = b.devices;
  receive_state = idle;
  host_released = true;
  device_released = true;
  wire_high = true;
  device_sending = false;
  now = 0;
  last_edge = 0;
  shift = 0;
  bit = 0;
  listen_bytes = 0;
  last_listen = 0 ∷ 0 ∷ [];
  events = [];
  commands = 0;
  replies = 0;
  reply_bytes = 0;
  resets = 0;
  reply_samples = 0;
  reply_low_samples = 0;
  aborted_replies = 0;
  listen_transactions = 0;
  last_command = 0;
}

unfoldable pub bus_ticks : ℕ → ℕ
bus_ticks iop_cpu_cycles = u64 (iop_cpu_cycles * 625) / 612

abbrev pub update_wire : IifxAdbBus → IifxAdbBus
update_wire b = record b { wire_high = b.host_released && b.device_released }

unfoldable pub set_device_line : Bool → Bool → IifxAdbBus → IifxAdbBus
set_device_line released final b = update_wire (record b {
  device_released = released;
  device_sending = if final then false else b.device_sending;
})

-- The loop of `advance` on the events still to come.
unfoldable pub deliver : ℕ → List LineEvent → IifxAdbBus → IifxAdbBus
deliver now [] b = record b { events = [] }
deliver now (e ∷ es) b =
    let rest = deliver now es (set_device_line e.released e.final b) in
    if leb e.tick now then rest else record b { events = e ∷ es }

unfoldable pub advance : ℕ → IifxAdbBus → IifxAdbBus
advance now b =
    let later = if ltb now b.now then b.now else now in
    record (deliver later b.events b) { now = later }

-- The two edges of a bit, and of all the bits from the highest on.
unfoldable pub cell : ℕ → Bool → List LineEvent × ℕ
cell at one =
    let up = u64 (at + (if one then k_short else k_long)) in
    let down = u64 (up + (if one then k_long else k_short)) in
    (event up true false ∷ event down false false ∷ [], down)

unfoldable pub byte_cells : ℕ → ℕ → ℕ → List LineEvent × ℕ
byte_cells zero byte at = ([], at)
byte_cells (suc n) byte at =
    let (es, next) = cell at (bit_and byte (1 <<< n) != 0) in
    let (rest, end) = byte_cells n byte next in (es ++ rest, end)

unfoldable pub reply_cells : List ℕ → ℕ → List LineEvent × ℕ
reply_cells [] at = ([], at)
reply_cells (byte ∷ bytes) at =
    let (es, next) = byte_cells 8 byte at in
    let (rest, end) = reply_cells bytes next in (es ++ rest, end)

-- The events of a reply: the start bit, the bytes, the stop bit.
unfoldable pub reply_events : ℕ → List ℕ → List LineEvent
reply_events now bytes =
    let t0 = u64 (now + k_reply_turnaround) in
    let t1 = u64 (t0 + k_short) in
    let t2 = u64 (t1 + k_short) in
    let t3 = u64 (t2 + k_long) in
    let (es, at) = reply_cells bytes t3 in
    event t0 true false
    ∷ event t1 false false
    ∷ event t2 true false
    ∷ event t3 false false
    ∷ (es ++ (event (u64 (at + k_short * 2)) true true ∷ []))

unfoldable pub schedule_reply : ℕ → List ℕ → IifxAdbBus → IifxAdbBus
schedule_reply now bytes b = record b {
  events = reply_events now bytes;
  device_released = true;
  device_sending = true;
  replies = u64 (b.replies + 1);
  reply_bytes = u64 (b.reply_bytes + length bytes);
}

unfoldable pub schedule_service_request : ℕ → IifxAdbBus → IifxAdbBus
schedule_service_request now b =
    let b' = set_device_line false false (record b { device_sending = true }) in
    record b' { events = event (u64 (now + k_service_request)) true true ∷ [] }

-- The bytes of a response, as many as there is room for.
unfoldable pub collect : ℕ → AdbTransceiver → List ℕ × AdbTransceiver
collect zero t = ([], t)
collect (suc room) t =
    let (byte, t') = cpu_shift_in t in
    let (bytes, t'') = collect room t' in
    if response_pending t then (byte ∷ bytes, t'') else ([], t)

-- The end of a command: the reply or the request for service.
unfoldable pub answer : ℕ → List ℕ × AdbTransceiver → IifxAdbBus → IifxAdbBus
answer now reply b =
    let (bytes, t) = reply in
    let b' = record b { devices = set_state 3 t; receive_state = idle } in
    if length bytes != 0
    then schedule_reply now bytes b'
    else if has_pending_event b'.devices
    then schedule_service_request now b'
    else b'

unfoldable pub finish_command : ℕ → IifxAdbBus → IifxAdbBus
finish_command now b =
    let command = b.shift in
    let b' = record b { last_command = command; commands = u64 (b.commands + 1) } in
    let t = cpu_shift_out command (set_state 0 b.devices) in
    let operation = bit_and (command >>> 2) 3 in
    if command == 0
    then record b' {
      devices = Adb.reset b.devices;
      resets = u64 (b.resets + 1);
      receive_state = idle;
    }
    else if operation == 2 && listening t
    then record b' { devices = set_state 1 t; listen_bytes = 0; receive_state = listen_turnaround }
    else answer now (if operation == 3 then collect 8 (set_state 1 t) else ([], t)) b'

unfoldable pub finish_listen_byte : IifxAdbBus → IifxAdbBus
finish_listen_byte b =
    let b' = record b {
      last_listen =
          if ltb b.listen_bytes 2 then set b.last_listen b.listen_bytes b.shift else b.last_listen;
      devices = cpu_shift_out b.shift b.devices;
      listen_bytes = b.listen_bytes + 1;
    } in
    if ltb b'.listen_bytes 2
    then record b' { shift = 0; bit = 0; receive_state = bits }
    else record b' {
      devices = set_state 3 b'.devices;
      listen_transactions = u64 (b.listen_transactions + 1);
      listen_bytes = 0;
      receive_state = idle;
    }

-- An edge to `level` after `duration`, in each state of the receiver.
unfoldable pub received : ReceiveState → Bool → ℕ → ℕ → IifxAdbBus → IifxAdbBus
received idle level duration now b =
    if not level
    then b
    else if leb k_reset_minimum duration
    then record b { devices = Adb.reset b.devices; resets = u64 (b.resets + 1) }
    else if leb k_attention_minimum duration
    then record b { receive_state = sync; shift = 0; bit = 0 }
    else b
received sync level duration now b =
    if not level && leb k_cell_half_minimum duration
    then record b { receive_state = bits; shift = 0; bit = 0 }
    else b
received bits level duration now b = if level then b else record b {
  shift = u8 (bit_or (b.shift <<< 1) (if leb k_cell_half_minimum duration then 1 else 0));
  bit = b.bit + 1;
  receive_state = if b.bit + 1 == 8 then stop else bits;
}
received stop level duration now b =
    if not level
    then b
    else if b.listen_bytes != 0 || listening b.devices
    then finish_listen_byte b
    else finish_command now b
received listen_turnaround level duration now b =
    if not level && leb k_listen_turnaround duration
    then record b { receive_state = listen_start }
    else b
received listen_start level duration now b =
    if not level && leb k_cell_half_minimum duration
    then record b { receive_state = bits; shift = 0; bit = 0 }
    else b

unfoldable pub host_edge : Bool → ℕ → IifxAdbBus → IifxAdbBus
host_edge level now b =
    received b.receive_state level (sub64 now b.last_edge) now (record b { last_edge = now })

abbrev pub differs : Bool → Bool → Bool
differs true q = not q
differs false q = q

-- A reply that the host pulls the line under.
unfoldable pub abort : IifxAdbBus → IifxAdbBus
abort b = record b {
  aborted_replies = u64 (b.aborted_replies + 1);
  events = [];
  device_sending = false;
  device_released = true;
}

-- The host's change of the line, after the events up to now.
unfoldable pub drive : Bool → ℕ → IifxAdbBus → IifxAdbBus
drive released tick b0 =
    let b1 = if not released && b0.device_sending then abort b0 else b0 in
    let b2 = record b1 { host_released = released } in
    let new_wire = released && b1.device_released in
    if differs new_wire b2.wire_high
    then host_edge new_wire tick (record b2 { wire_high = new_wire })
    else b2

unfoldable pub host_drive : Bool → ℕ → IifxAdbBus → IifxAdbBus
host_drive released iop_cpu_cycles b =
    let tick = bus_ticks iop_cpu_cycles in
    let b' = advance tick b in
    if differs b'.host_released released then drive released tick b' else b'

unfoldable pub read_line : ℕ → IifxAdbBus → Bool × IifxAdbBus
read_line iop_cpu_cycles b =
    let b' = advance (bus_ticks iop_cpu_cycles) b in
    (
      b'.wire_high,
      if b'.device_sending
          then record b' {
            reply_samples = u64 (b'.reply_samples + 1);
            reply_low_samples =
                if b'.wire_high then b'.reply_low_samples else u64 (b'.reply_low_samples + 1);
          }
          else b',
    )
