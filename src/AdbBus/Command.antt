-- ===== src/AdbBus/Command.antt =====
-- The decoding of the host's pulses.
use open_mac_for_linux.Base.{
  ℕ, suc, ◌+◌, ◌*◌, ◌^◌, ◌<◌, ◌≤◌, bit_or, Bool, true, false, List, [], ◌∷◌, length, ◌≡◌, refl, ap,
  ◌∙◌, u8, ◌<<<◌, leb, ltb, ◌==◌, if◌then◌else◌, arith, bit_or_join, every_below, every_below_sound,
  ap₂,
}
use native.Mathlib.Nat.{pow-suc}
use open_mac_for_linux.Adb.{listening}
use open_mac_for_linux.AdbBus.{
  sub64, ReceiveState, idle, sync, bits, stop, IifxAdbBus, bus_ticks, deliver, advance,
  finish_command, received, host_edge, drive, host_drive,
}

-- The time between two moments in the processor's cycles, in ticks of the bus.
abbrev pub between : ℕ → ℕ → ℕ
between from to = sub64 (bus_ticks to) (bus_ticks from)

-- The latest of a time and the ticks of a moment.
abbrev pub latest : ℕ → ℕ → ℕ
latest now cycles = let tick = bus_ticks cycles in if ltb tick now then now else tick

-- A bus on which no device sends, the host holding the line at a level.
abbrev pub line : Bool → ReceiveState → (shift bit now last_edge : ℕ) → IifxAdbBus → IifxAdbBus
line level state shift bit now last_edge b = record b {
  receive_state = state;
  host_released = level;
  device_released = true;
  wire_high = level;
  device_sending = false;
  now = now;
  last_edge = last_edge;
  shift = shift;
  bit = bit;
  events = [];
}

-- A cell: the moments at which the host releases the line and pulls it low again.
abbrev pub Cell : Type 0
Cell = ℕ × ℕ

-- A bit is one when the line is high for the longer part of its cell.
abbrev pub cell_bit : Cell → Bool
cell_bit (up, down) = leb 90 (between up down)

-- The number whose binary digits the cells are, the highest first, after a number.
unfoldable pub number : ℕ → List Cell → ℕ
number n [] = n
number n (c ∷ cs) = number (2 * n + (if cell_bit c then 1 else 0)) cs

pub drive_cells : List Cell → IifxAdbBus → IifxAdbBus
drive_cells [] b = b
drive_cells ((up, down) ∷ cs) b = drive_cells cs (host_drive false down (host_drive true up b))

falling :
    (state : ReceiveState) (shift bit now last cycles : ℕ) (b : IifxAdbBus)
    → host_drive false cycles (line true state shift bit now last b)
      ≡ host_edge false (bus_ticks cycles) (line false state shift bit (latest now cycles) last b)
unfolding host_drive advance deliver drive
falling state shift bit now last cycles b = refl

rising :
    (state : ReceiveState) (shift bit now last cycles : ℕ) (b : IifxAdbBus)
    → host_drive true cycles (line false state shift bit now last b)
      ≡ host_edge true (bus_ticks cycles) (line true state shift bit (latest now cycles) last b)
unfolding host_drive advance deliver drive
rising state shift bit now last cycles b = refl

-- The state, the time and the last edge after cells.
abbrev at_bit : ℕ → ReceiveState
at_bit bit = if bit == 8 then stop else bits

pub now_after : ℕ → List Cell → ℕ
now_after now [] = now
now_after now ((up, down) ∷ cs) = now_after (latest (latest now up) down) cs

pub edge_after : ℕ → List Cell → ℕ
edge_after last [] = last
edge_after last ((up, down) ∷ cs) = edge_after (bus_ticks down) cs

-- The shift register after a bit.
abbrev taken : ℕ → Cell → ℕ
taken shift c = u8 (bit_or (shift <<< 1) (if cell_bit c then 1 else 0))

cell_step :
    (up down shift bit now last : ℕ) (b : IifxAdbBus)
    → host_drive false down (host_drive true up (line false bits shift bit now last b))
      ≡ line false
          (at_bit (bit + 1))
          (taken shift (up, down))
          (bit + 1)
          (latest (latest now up) down)
          (bus_ticks down)
          b
unfolding host_drive advance deliver drive host_edge received
cell_step up down shift bit now last b = refl

digit-lt : (c : Bool) → (if c then 1 else 0) < 2
digit-lt true = omega arith
digit-lt false = omega arith

taken_lem :
    (shift : ℕ) (c : Cell) → shift < 128 → taken shift c ≡ 2 * shift + (if cell_bit c then 1 else 0)
taken_lem shift c h =
    let d : ℕ = if cell_bit c then 1 else 0 in
    omega (arith, bit_or_join 1 shift d (digit-lt (cell_bit c)), digit-lt (cell_bit c))

power_small : every_below 8 (λ n. leb (2 ^ n) 128) ≡ true
unfolding every_below
power_small = refl

below_eight : (bit shift : ℕ) → bit < 8 → shift < 2 ^ bit → shift < 128
below_eight bit shift h s =
    ground (arith, every_below_sound 8 (λ n. leb (2 ^ n) 128) power_small bit h)

open_state : (bit : ℕ) → bit < 8 → at_bit bit ≡ bits
open_state bit h = ground arith

attended :
    (d tick shift bit now last : ℕ) (b : IifxAdbBus)
    → 1200 ≤ d
    → d < 4500
    → received idle true d tick (line true idle shift bit now last b)
      ≡ line true sync 0 0 now last b
unfolding received
attended d tick shift bit now last b low high =
    let short : leb 4500 d ≡ false = ground arith in
    let long : leb 1200 d ≡ true = ground arith in rw (short, long) refl

synced :
    (d tick shift bit now last : ℕ) (b : IifxAdbBus)
    → 90 ≤ d
    → received sync false d tick (line false sync shift bit now last b)
      ≡ line false bits 0 0 now last b
unfolding received
synced d tick shift bit now last b low = let long : leb 90 d ≡ true = ground arith in rw long refl

pulled :
    (cycles shift bit now last : ℕ) (b : IifxAdbBus)
    → host_drive false cycles (line true idle shift bit now last b)
      ≡ line false idle shift bit (latest now cycles) (bus_ticks cycles) b
unfolding host_drive advance deliver drive host_edge received
pulled cycles shift bit now last b = refl

-- The attention and the sync.
opening :
    (low high sync_end shift bit now last : ℕ) (b : IifxAdbBus)
    → 1200 ≤ between low high
    → between low high < 4500
    → 90 ≤ between high sync_end
    → host_drive false sync_end
        (host_drive true high (host_drive false low (line true idle shift bit now last b)))
      ≡ line false bits 0 0 (latest (latest (latest now low) high) sync_end) (bus_ticks sync_end) b
unfolding host_edge
opening low high sync_end shift bit now last b ha hr hs =
    let n1 = latest now low in
    let n2 = latest n1 high in
    ap (λ c. host_drive false sync_end (host_drive true high c)) (pulled low shift bit now last b)
    ∙ (ap (host_drive false sync_end) (
          rising idle shift bit n1 (bus_ticks low) high b
          ∙ attended (between low high) (bus_ticks high) shift bit n2 (bus_ticks high) b ha hr)
        ∙ (falling sync 0 0 n2 (bus_ticks high) sync_end b
            ∙ synced (between high sync_end) (bus_ticks sync_end) 0 0 (latest n2 sync_end)
                (bus_ticks sync_end) b hs))

-- The rising edge of the stop bit.
closing :
    (end shift bit now last : ℕ) (b : IifxAdbBus)
    → b.listen_bytes ≡ 0
    → listening b.devices ≡ false
    → host_drive true end (line false stop shift bit now last b)
      ≡ finish_command (bus_ticks end) (line true stop shift bit (latest now end) (bus_ticks end) b)
unfolding host_drive advance deliver drive host_edge received
closing end shift bit now last b hl hd = rw (hl, hd) refl

doubled : (n : ℕ) → 2 ^ (n + 1) ≡ 2 * 2 ^ n
doubled n =
    let e : n + 1 ≡ suc n = omega arith in omega (arith, ap (λ (k : ℕ). 2 ^ k) e, pow-suc 2 n)

eighth : (n : ℕ) → n ≡ 8 → at_bit (0 + n) ≡ stop
eighth n h = ground arith

-- Cells shift their bits in.
drive_cells_lem :
    (cs : List Cell) (shift bit now last : ℕ) (b : IifxAdbBus)
    → bit + length cs ≤ 8
    → shift < 2 ^ bit
    → drive_cells cs (line false (at_bit bit) shift bit now last b)
      ≡ line false
          (at_bit (bit + length cs))
          (number shift cs)
          (bit + length cs)
          (now_after now cs)
          (edge_after last cs)
          b
unfolding drive_cells number now_after edge_after
drive_cells_lem [] shift bit now last b h s =
    ap (λ n. line false (at_bit n) shift n now last b) (omega arith)
drive_cells_lem ((up, down) ∷ cs) shift bit now last b h s =
    let t = taken_lem shift (up, down) (below_eight bit shift (omega arith) s) in
    let d = digit-lt (cell_bit (up, down)) in
    let more =
      drive_cells_lem cs (taken shift (up, down)) (bit + 1) (latest (latest now up) down)
        (bus_ticks down) b (omega arith) (omega (arith, t, d, s, doubled bit)) in
    ap
      (λ q.
        drive_cells cs
          (host_drive false down (host_drive true up (line false q shift bit now last b))))
      (open_state bit (omega arith))
    ∙ (ap (drive_cells cs) (cell_step up down shift bit now last b)
        ∙ (more
            ∙ ap₂
                (λ n k.
                  line false (at_bit n) (number k cs) n (now_after now ((up, down) ∷ cs))
                    (edge_after last ((up, down) ∷ cs)) b)
                (omega arith) t))

-- A command: the host pulls the line low, releases it after the attention, pulls it low after the
-- sync, sends its cells, and releases the line for the stop bit.
unfoldable pub send : (low high sync_end : ℕ) → List Cell → ℕ → IifxAdbBus → IifxAdbBus
send low high sync_end cs end b =
    host_drive true end
      (drive_cells cs (host_drive false sync_end (host_drive true high (host_drive false low b))))

-- On a bus at rest, an attention of 1200 to 4499 ticks, a sync of 90 at least and eight cells, then the
-- stop bit, run the command whose binary digits, the highest first, are one where the line is high for
-- 90 ticks at least of its cell, whatever else the times are; no byte to listen to is awaited.
pub send-finish_command :
    (low high sync_end end : ℕ) (cs : List Cell) (shift bit now last : ℕ) (b : IifxAdbBus)
    → 1200 ≤ between low high
    → between low high < 4500
    → 90 ≤ between high sync_end
    → length cs ≡ 8
    → b.listen_bytes ≡ 0
    → listening b.devices ≡ false
    → let now' = latest (now_after (latest (latest (latest now low) high) sync_end) cs) end in
      send low high sync_end cs end (line true idle shift bit now last b)
      ≡ finish_command (bus_ticks end) (line true stop (number 0 cs) 8 now' (bus_ticks end) b)
unfolding send
send-finish_command low high sync_end end cs shift bit now last b ha hr hs hn hl hd =
    let opened = latest (latest (latest now low) high) sync_end in
    ap (λ c. host_drive true end (drive_cells cs c))
      (opening low high sync_end shift bit now last b ha hr hs)
    ∙ (ap (host_drive true end)
          (drive_cells_lem cs 0 0 opened (bus_ticks sync_end) b (omega arith) (omega arith))
        ∙ (ap₂
              (λ q n. host_drive true end (
                line false q (number 0 cs) n (now_after opened cs)
                  (edge_after (bus_ticks sync_end) cs) b))
              (eighth (length cs) hn) (omega (arith, hn))
            ∙ closing end (number 0 cs) 8 (now_after opened cs) (edge_after (bus_ticks sync_end) cs)
                b hl hd))
