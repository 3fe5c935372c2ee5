-- ===== src/AdbBus/Wire.antt =====
-- The wire: who pulls it, and which events are still to come.
use mathlib.Core.Bool.{true≢false}
use mathlib.Core.List.{cons≢nil}
use open_mac_for_linux.Base.{
  ℕ, zero, suc, Bool, true, false, not, ◌&&◌, ◌||◌, List, [], ◌∷◌, ◌++◌, length, ◌≡◌, refl, sym,
  ◌∙◌, leb, ltb, ◌==◌, ◌!=◌, if◌then◌else◌, arith, bit_and, ◌>>>◌, ◌+◌,
}
use open_mac_for_linux.Adb as Adb
use open_mac_for_linux.Adb.{AdbTransceiver, has_pending_event, cpu_shift_out, set_state, listening}
use open_mac_for_linux.AdbBus.{
  ReceiveState, idle, sync, bits, stop, listen_turnaround, listen_start, LineEvent, event,
  IifxAdbBus, reset, set_device_line, deliver, advance, cell, byte_cells, reply_cells, reply_events,
  bus_ticks, u64, k_reply_turnaround, k_short, k_long, schedule_reply, schedule_service_request,
  answer, collect, finish_command, finish_listen_byte, received, host_edge, differs, abort, drive,
  host_drive, read_line,
}

-- Events of which the last one alone ends the sending, and releases the line.
unfoldable pub train : List LineEvent → Bool
train [] = false
train (e ∷ []) = e.final && e.released
train (e ∷ f ∷ es) = not e.final && train (f ∷ es)

-- A device that sends has such events to come and the host has released the line; one that does not
-- has none to come and has released the line itself.
pub IsMode : (sending released host : Bool) → List LineEvent → Type 0
IsMode true released host es = (train es ≡ true) × (host ≡ true)
IsMode false released host es = (es ≡ []) × (released ≡ true)

-- The wire is high when both release it.
pub record IsWired (b : IifxAdbBus) : Type 0 where
  pub wired : b.wire_high ≡ (b.host_released && b.device_released)
  pub mode : IsMode b.device_sending b.device_released b.host_released b.events

either-IsWired :
    (c : Bool) (x y : IifxAdbBus) → IsWired x → IsWired y → IsWired (if c then x else y)
either-IsWired true x y hx hy = hx
either-IsWired false x y hx hy = hy

next-IsMode :
    (s r h released final : Bool) (tick : ℕ) (es : List LineEvent)
    → IsMode s r h (event tick released final ∷ es)
    → IsMode (if final then false else s) released h es
unfolding IsMode train
next-IsMode true r h released true tick [] m = (refl, m.0)
next-IsMode true r h released false tick [] m = absurd (true≢false (sym m.0))
next-IsMode true r h released true tick (f ∷ es) m = absurd (true≢false (sym m.0))
next-IsMode true r h released false tick (f ∷ es) m = m
next-IsMode false r h released final tick es m = absurd (cons≢nil m.0)

deliver-IsWired :
    (now : ℕ) (es : List LineEvent) (b : IifxAdbBus)
    → b.wire_high ≡ (b.host_released && b.device_released)
    → IsMode b.device_sending b.device_released b.host_released es
    → IsWired (deliver now es b)
unfolding deliver set_device_line
deliver-IsWired now [] b w m = record { wired = w; mode = m }
deliver-IsWired now (e ∷ es) b w m =
    either-IsWired (leb e.tick now) _ _
      (deliver-IsWired now es (set_device_line e.released e.final b) refl (
        next-IsMode b.device_sending b.device_released b.host_released e.released e.final e.tick es
          m))
      (record { wired = w; mode = m })

advance-IsWired : (now : ℕ) (b : IifxAdbBus) → IsWired b → IsWired (advance now b)
unfolding advance
advance-IsWired now b w =
    let d = deliver-IsWired (if ltb now b.now then b.now else now) b.events b w.wired w.mode in
    record { wired = d.wired; mode = d.mode }

-- The events of a reply end as they should.
plain : List LineEvent → Bool
plain [] = true
plain (e ∷ es) = not e.final && plain es

plain-append :
    (xs ys : List LineEvent) → plain xs ≡ true → plain ys ≡ true → plain (xs ++ ys) ≡ true
unfolding plain
plain-append [] ys hx hy = hy
plain-append (e ∷ xs) ys hx hy = ground (arith, plain-append xs ys)

plain-byte_cells : (n byte at : ℕ) → plain (byte_cells n byte at).0 ≡ true
unfolding plain byte_cells cell
plain-byte_cells zero byte at = refl
plain-byte_cells (suc n) byte at = plain-byte_cells n byte _

plain-reply_cells : (bytes : List ℕ) (at : ℕ) → plain (reply_cells bytes at).0 ≡ true
unfolding plain reply_cells
plain-reply_cells [] at = refl
plain-reply_cells (byte ∷ bytes) at =
    let next = (byte_cells 8 byte at).1 in
    plain-append (byte_cells 8 byte at).0 (reply_cells bytes next).0 (plain-byte_cells 8 byte at)
      (plain-reply_cells bytes next)

train-append :
    (es : List LineEvent) (t : ℕ) → plain es ≡ true → train (es ++ (event t true true ∷ [])) ≡ true
unfolding train plain
train-append [] t h = refl
train-append (e ∷ []) t h = ground arith
train-append (e ∷ f ∷ es) t h = ground (arith, train-append (f ∷ es) t)

pub train-reply_events : (now : ℕ) (bytes : List ℕ) → train (reply_events now bytes) ≡ true
unfolding reply_events train plain
train-reply_events now bytes =
    let t3 = u64 (u64 (u64 (u64 (now + k_reply_turnaround) + k_short) + k_short) + k_long) in
    train-append (event t3 false false ∷ (reply_cells bytes t3).0) _ (plain-reply_cells bytes t3)

-- A bus that is not sending.
abbrev IsQuiet : IifxAdbBus → Type 0
IsQuiet b = (b.device_sending ≡ false) × (b.events ≡ []) × (b.device_released ≡ true)

and_true : (p : Bool) → p ≡ (p && true)
and_true true = refl
and_true false = refl

quiet-IsWired : (b : IifxAdbBus) → IsQuiet b → b.wire_high ≡ b.host_released → IsWired b
unfolding IsMode
quiet-IsWired b (silent, done, free) w = record {
  wired = rw free (w ∙ and_true b.host_released);
  mode = rw silent (done, free);
}

-- A rising edge is the host's, and nothing is then being sent.
answer-IsWired :
    (now : ℕ) (reply : List ℕ × AdbTransceiver) (b : IifxAdbBus)
    → IsQuiet b
    → b.wire_high ≡ true
    → b.host_released ≡ true
    → IsWired (answer now reply b)
unfolding answer schedule_reply schedule_service_request set_device_line
answer-IsWired now (bytes, t) b q w h =
    either-IsWired (length bytes != 0) _ _
      (record { wired = rw (w, h) refl; mode = unfold IsMode in (train-reply_events now bytes, h) })
      (either-IsWired (has_pending_event _) _ _
        (record { wired = refl; mode = unfold IsMode train in (refl, h) })
        (quiet-IsWired _ q (w ∙ sym h)))

-- What concerns the wire is the same in two states.
record AreSame (b c : IifxAdbBus) : Type 0 where
  high : c.wire_high ≡ b.wire_high
  host : c.host_released ≡ b.host_released
  device : c.device_released ≡ b.device_released
  sending : c.device_sending ≡ b.device_sending
  coming : c.events ≡ b.events

finish_listen_byte-AreSame : (b : IifxAdbBus) → AreSame b (finish_listen_byte b)
unfolding finish_listen_byte
finish_listen_byte-AreSame b = record {
  high = ground arith;
  host = ground arith;
  device = ground arith;
  sending = ground arith;
  coming = ground arith;
}

received_idle-AreSame :
    (level : Bool) (duration now : ℕ) (b : IifxAdbBus)
    → AreSame b (received idle level duration now b)
unfolding received
received_idle-AreSame level duration now b = record {
  high = ground arith;
  host = ground arith;
  device = ground arith;
  sending = ground arith;
  coming = ground arith;
}

received_sync-AreSame :
    (level : Bool) (duration now : ℕ) (b : IifxAdbBus)
    → AreSame b (received sync level duration now b)
unfolding received
received_sync-AreSame level duration now b = record {
  high = ground arith;
  host = ground arith;
  device = ground arith;
  sending = ground arith;
  coming = ground arith;
}

received_bits-AreSame :
    (level : Bool) (duration now : ℕ) (b : IifxAdbBus)
    → AreSame b (received bits level duration now b)
unfolding received
received_bits-AreSame level duration now b = record {
  high = ground arith;
  host = ground arith;
  device = ground arith;
  sending = ground arith;
  coming = ground arith;
}

received_listen_turnaround-AreSame :
    (level : Bool) (duration now : ℕ) (b : IifxAdbBus)
    → AreSame b (received listen_turnaround level duration now b)
unfolding received
received_listen_turnaround-AreSame level duration now b = record {
  high = ground arith;
  host = ground arith;
  device = ground arith;
  sending = ground arith;
  coming = ground arith;
}

received_listen_start-AreSame :
    (level : Bool) (duration now : ℕ) (b : IifxAdbBus)
    → AreSame b (received listen_start level duration now b)
unfolding received
received_listen_start-AreSame level duration now b = record {
  high = ground arith;
  host = ground arith;
  device = ground arith;
  sending = ground arith;
  coming = ground arith;
}

finish_command-IsWired :
    (now : ℕ) (b : IifxAdbBus)
    → IsQuiet b
    → b.wire_high ≡ true
    → b.host_released ≡ true
    → IsWired (finish_command now b)
unfolding finish_command
finish_command-IsWired now b q w h =
    let b' = record b { last_command = b.shift; commands = u64 (b.commands + 1) } in
    let t = cpu_shift_out b.shift (set_state 0 b.devices) in
    let operation = bit_and (b.shift >>> 2) 3 in
    either-IsWired (b.shift == 0)
      (record b' {
        devices = Adb.reset b.devices;
        resets = u64 (b.resets + 1);
        receive_state = idle;
      })
      _ (quiet-IsWired _ q (w ∙ sym h))
      (either-IsWired (operation == 2 && listening t)
        (record b' { devices = set_state 1 t; listen_bytes = 0; receive_state = listen_turnaround })
        _ (quiet-IsWired _ q (w ∙ sym h))
        (answer-IsWired now (if operation == 3 then collect 8 (set_state 1 t) else ([], t)) b' q w
          h))

same-IsWired :
    {b c : IifxAdbBus} → AreSame b c → IsQuiet b → b.wire_high ≡ b.host_released → IsWired c
same-IsWired {c = c} s (silent, done, free) e =
    quiet-IsWired c (s.sending ∙ silent, s.coming ∙ done, s.device ∙ free)
      (s.high ∙ (e ∙ sym s.host))

stop-IsWired :
    (level : Bool) (duration now : ℕ) (b : IifxAdbBus)
    → IsQuiet b
    → b.wire_high ≡ level
    → b.host_released ≡ level
    → IsWired (received stop level duration now b)
unfolding received
stop-IsWired false duration now b q w h = quiet-IsWired b q (w ∙ sym h)
stop-IsWired true duration now b q w h =
    either-IsWired (b.listen_bytes != 0 || listening b.devices) (finish_listen_byte b)
      (finish_command now b) (same-IsWired (finish_listen_byte-AreSame b) q (w ∙ sym h))
      (finish_command-IsWired now b q w h)

received-IsWired :
    (state : ReceiveState) (level : Bool) (duration now : ℕ) (b : IifxAdbBus)
    → IsQuiet b
    → b.wire_high ≡ level
    → b.host_released ≡ level
    → IsWired (received state level duration now b)
received-IsWired stop level duration now b q w h = stop-IsWired level duration now b q w h
received-IsWired idle level duration now b q w h =
    same-IsWired (received_idle-AreSame level duration now b) q (w ∙ sym h)
received-IsWired sync level duration now b q w h =
    same-IsWired (received_sync-AreSame level duration now b) q (w ∙ sym h)
received-IsWired bits level duration now b q w h =
    same-IsWired (received_bits-AreSame level duration now b) q (w ∙ sym h)
received-IsWired listen_turnaround level duration now b q w h =
    same-IsWired (received_listen_turnaround-AreSame level duration now b) q (w ∙ sym h)
received-IsWired listen_start level duration now b q w h =
    same-IsWired (received_listen_start-AreSame level duration now b) q (w ∙ sym h)

host_edge-IsWired :
    (level : Bool) (now : ℕ) (b : IifxAdbBus)
    → IsQuiet b
    → b.wire_high ≡ level
    → b.host_released ≡ level
    → IsWired (host_edge level now b)
unfolding host_edge
host_edge-IsWired level now b q w h =
    received-IsWired b.receive_state level _ now (record b { last_edge = now }) q w h

chosen-IsWired :
    (c : Bool) (x y : IifxAdbBus)
    → (c ≡ true → IsWired x)
    → (c ≡ false → IsWired y)
    → IsWired (if c then x else y)
chosen-IsWired true x y hx hy = hx refl
chosen-IsWired false x y hx hy = hy refl

agreed : (p q : Bool) → differs p q ≡ false → q ≡ p
agreed true true h = refl
agreed true false h = absurd (true≢false h)
agreed false true h = absurd (true≢false h)
agreed false false h = refl

-- Driving a bus that does not send.
settled-IsWired :
    (released level : Bool) (tick : ℕ) (b : IifxAdbBus)
    → IsQuiet b
    → level ≡ released
    → let b2 = record b { host_released = released } in
      IsWired (
        if differs level b.wire_high
        then host_edge level tick (record b2 { wire_high = level })
        else b2)
settled-IsWired released level tick b q e =
    let b2 = record b { host_released = released } in
    let up = record b2 { wire_high = level } in
    chosen-IsWired (differs level b.wire_high) (host_edge level tick up) b2
      (λ d. host_edge-IsWired level tick up q refl (sym e))
      (λ d. quiet-IsWired b2 q (agreed level b.wire_high d ∙ e))

held_quiet :
    (s r h : Bool) (es : List LineEvent)
    → IsMode s r h es
    → h ≡ false
    → (s ≡ false) × (es ≡ []) × (r ≡ true)
unfolding IsMode
held_quiet true r h es m e = absurd (true≢false (sym m.1 ∙ e))
held_quiet false r h es m e = (refl, m.0, m.1)

abort-IsQuiet :
    (s : Bool) (b : IifxAdbBus)
    → b.device_sending ≡ s
    → IsMode s b.device_released b.host_released b.events
    → IsQuiet (if s then abort b else b)
unfolding IsMode abort
abort-IsQuiet true b e m = (refl, refl, refl)
abort-IsQuiet false b e m = (e, m.0, m.1)

drive-IsWired :
    (released : Bool) (tick : ℕ) (b : IifxAdbBus)
    → IsWired b
    → b.host_released ≡ not released
    → IsWired (drive released tick b)
unfolding drive
drive-IsWired true tick b w e =
    let q = held_quiet b.device_sending b.device_released b.host_released b.events w.mode e in
    settled-IsWired true b.device_released tick b q q.2
drive-IsWired false tick b w e =
    settled-IsWired false false tick (if b.device_sending then abort b else b)
      (abort-IsQuiet b.device_sending b refl w.mode) refl

opposed : (p q : Bool) → differs p q ≡ true → p ≡ not q
opposed true true h = absurd (true≢false (sym h))
opposed true false h = refl
opposed false true h = refl
opposed false false h = absurd (true≢false (sym h))

-- What happens to a bus: the host drives it, or reads it, at a time in the
-- processor's cycles, or it is reset.
pub data Action : Type 0 where
  drives : (released : Bool) (cycles : ℕ) → Action
  reads : (cycles : ℕ) → Action
  resets : Action

pub run : List Action → IifxAdbBus → IifxAdbBus
run [] b = b
run (drives released cycles ∷ acts) b = run acts (host_drive released cycles b)
run (reads cycles ∷ acts) b = run acts (read_line cycles b).1
run (resets ∷ acts) b = run acts (reset b)

reset-IsWired : (b : IifxAdbBus) → IsWired (reset b)
unfolding reset IsMode
reset-IsWired b = record { wired = refl; mode = (refl, refl) }

host_drive-IsWired :
    (released : Bool) (cycles : ℕ) (b : IifxAdbBus)
    → IsWired b
    → IsWired (host_drive released cycles b)
unfolding host_drive
host_drive-IsWired released cycles b w =
    let tick = bus_ticks cycles in
    let b' = advance tick b in
    let w' = advance-IsWired tick b w in
    chosen-IsWired (differs b'.host_released released) (drive released tick b') b'
      (λ e. drive-IsWired released tick b' w' (opposed b'.host_released released e)) (λ e. w')

read_line-IsWired : (cycles : ℕ) (b : IifxAdbBus) → IsWired b → IsWired (read_line cycles b).1
unfolding read_line
read_line-IsWired cycles b w =
    let w' = advance-IsWired (bus_ticks cycles) b w in
    let b' = advance (bus_ticks cycles) b in
    either-IsWired b'.device_sending
      (record b' {
        reply_samples = u64 (b'.reply_samples + 1);
        reply_low_samples =
            if b'.wire_high then b'.reply_low_samples else u64 (b'.reply_low_samples + 1);
      })
      b' (record { wired = w'.wired; mode = w'.mode }) w'

run-IsWired : (acts : List Action) (b : IifxAdbBus) → IsWired b → IsWired (run acts b)
unfolding run
run-IsWired [] b w = w
run-IsWired (drives released cycles ∷ acts) b w =
    run-IsWired acts _ (host_drive-IsWired released cycles b w)
run-IsWired (reads cycles ∷ acts) b w = run-IsWired acts _ (read_line-IsWired cycles b w)
run-IsWired (resets ∷ acts) b w = run-IsWired acts _ (reset-IsWired b)

-- After a reset, whatever the host drives and reads at whatever times, the wire is high exactly when
-- the host and the device both release it. While a device sends, the host has the line released and
-- there are events to come, of which the last one alone ends the sending and releases the line; while
-- none sends, there are no events to come and the device has the line released.
pub run-reset-IsWired : (acts : List Action) (b : IifxAdbBus) → IsWired (run acts (reset b))
run-reset-IsWired acts b = run-IsWired acts (reset b) (reset-IsWired b)
