-- ===== src/Scc/Transmit.antt =====
-- The transmitter.
use open_mac_for_linux.Base.{
  ltb, ◌||◌, Bool, if◌then◌else◌, ◌==◌, ℕ, ◌+◌, ◌<◌, ◌≤◌, bit_and, true, false, not, List, [], ◌∷◌,
  get_or, set, ◌⊎◌, inl, inr, ◌≡◌, refl, ◌!=◌, arith,
}
use open_mac_for_linux.Scc.{
  k_byte_cycles, Chan, Scc8530, chan_reset, chan, with_chan, reset, tx_byte, transmit, commanded,
  command, write_wr9, write_wr14, write, read, tick_feed, shifted_out, tick_chan, tick,
}

-- The buffer can take a byte exactly when it holds none, and holds one only behind a byte on the wire.
abbrev pub IsPaced : Chan → Type 0
IsPaced c =
    (c.tx_empty ≡ not c.buf_full)
    × ((not c.buf_full || ltb 0 c.shift_timer) ≡ true)
    × (c.shift_timer ≤ k_byte_cycles)

tx_byte-IsPaced : (c : Chan) → IsPaced c → IsPaced (tx_byte c).1
unfolding tx_byte
tx_byte-IsPaced c h = ground arith

commanded-IsPaced : (v : ℕ) (c : Chan) → IsPaced c → IsPaced (commanded v c)
unfolding commanded
commanded-IsPaced v c h = ground arith

tick_feed-IsPaced : (cycles : ℕ) (c : Chan) → IsPaced c → IsPaced (tick_feed cycles c)
unfolding tick_feed
tick_feed-IsPaced cycles c h = ground arith

tick_chan-IsPaced : (cycles : ℕ) (c : Chan) → IsPaced c → IsPaced (tick_chan cycles c).1
unfolding tick_chan shifted_out
tick_chan-IsPaced cycles c h =
    let d = tick_feed cycles c in let paced = tick_feed-IsPaced cycles c h in ground (arith, paced)

-- What happens to the controller.
pub data Access : Type 0 where
  writes : (off v : ℕ) → Access
  reads : (off : ℕ) → Access
  ticks : (cycles : ℕ) → Access

pub run : List Access → Scc8530 → Scc8530
run [] s = s
run (writes off v ∷ acts) s = run acts (write off v s)
run (reads off ∷ acts) s = run acts (read off s).1
run (ticks cycles ∷ acts) s = run acts (tick cycles s)

abbrev ArePaced : Scc8530 → Type 0
ArePaced s = IsPaced s.b × IsPaced s.a

chan-IsPaced : (off : ℕ) (s : Scc8530) → ArePaced s → IsPaced (chan off s)
chan-IsPaced off s h = ground arith

with_chan-ArePaced :
    (off : ℕ) (c : Chan) (s : Scc8530) → IsPaced c → ArePaced s → ArePaced (with_chan off c s)
with_chan-ArePaced off c s p h = ground arith

transmit-ArePaced : (off : ℕ) (s : Scc8530) → ArePaced s → ArePaced (transmit off s)
transmit-ArePaced off s h =
    let p = tx_byte-IsPaced (chan off s) (chan-IsPaced off s h) in
    ground (arith, with_chan-ArePaced off (tx_byte (chan off s)).1 s p h)

chan_reset-IsPaced : (c : Chan) → IsPaced (chan_reset c)
unfolding chan_reset
chan_reset-IsPaced c = (refl, refl, omega arith)

write_wr9-ArePaced : (v : ℕ) (s : Scc8530) → ArePaced s → ArePaced (write_wr9 v s)
unfolding write_wr9
write_wr9-ArePaced v s h = ground (arith, h, chan_reset-IsPaced s.a, chan_reset-IsPaced s.b)

write_wr14-IsPaced : (v : ℕ) (c : Chan) → IsPaced c → IsPaced (write_wr14 v c)
unfolding write_wr14
write_wr14-IsPaced v c h = h

either-ArePaced :
    (c : Bool) (x y : Scc8530) → ArePaced x → ArePaced y → ArePaced (if c then x else y)
either-ArePaced true x y hx hy = hx
either-ArePaced false x y hx hy = hy

write-ArePaced : (off v : ℕ) (s : Scc8530) → ArePaced s → ArePaced (write off v s)
unfolding write command
write-ArePaced off v s h =
    let s' = record s { ptr = 0 } in
    let c = chan off s in
    let p = chan-IsPaced off s h in
    let reg = s.ptr in
    either-ArePaced (bit_and off 4 != 0) (transmit off s) _ (transmit-ArePaced off s h) (
      either-ArePaced (reg == 0) (command off v s) _
        (with_chan-ArePaced off (commanded v c) s (commanded-IsPaced v c p) h)
        (either-ArePaced (reg == 2) (record s' { wr2 = v }) _ h
          (either-ArePaced (reg == 8) (transmit off s') _ (transmit-ArePaced off s' h) (
            either-ArePaced (reg == 9) (write_wr9 v s') _ (write_wr9-ArePaced v s' h) (
              either-ArePaced (reg == 14) (with_chan off (write_wr14 v c) s') _
                (with_chan-ArePaced off (write_wr14 v c) s' (write_wr14-IsPaced v c p) h)
                (with_chan-ArePaced off (record c { wr = set c.wr (bit_and reg 15) v }) s' p h))))))

tick-ArePaced : (cycles : ℕ) (s : Scc8530) → ArePaced s → ArePaced (tick cycles s)
unfolding tick
tick-ArePaced cycles s h =
    ground (arith, tick_chan-IsPaced cycles s.b h.0, tick_chan-IsPaced cycles s.a h.1)

read-ArePaced : (off : ℕ) (s : Scc8530) → ArePaced s → ArePaced (read off s).1
unfolding read
read-ArePaced off s h = ground (arith, h)

run-ArePaced : (acts : List Access) (s : Scc8530) → ArePaced s → ArePaced (run acts s)
unfolding run
run-ArePaced [] s h = h
run-ArePaced (writes off v ∷ acts) s h = run-ArePaced acts _ (write-ArePaced off v s h)
run-ArePaced (reads off ∷ acts) s h = run-ArePaced acts _ (read-ArePaced off s h)
run-ArePaced (ticks cycles ∷ acts) s h = run-ArePaced acts _ (tick-ArePaced cycles s h)

-- After a reset, whatever is written and read and whatever time passes, each channel's buffer can take a
-- byte exactly when it holds none, it holds one only behind a byte on the wire, and that byte takes 1150
-- cycles at most.
pub run-reset-ArePaced :
    (acts : List Access) (s : Scc8530) → let t = run acts (reset s) in IsPaced t.b × IsPaced t.a
unfolding reset
run-reset-ArePaced acts s = run-ArePaced acts _ (chan_reset-IsPaced s.b, chan_reset-IsPaced s.a)

-- Time passes for a channel.
pub tick_all : List ℕ → Chan → Chan
tick_all [] c = c
tick_all (n ∷ ns) c = tick_all ns (tick_chan n c).1

unfoldable pub total : List ℕ → ℕ
total [] = 0
total (n ∷ ns) = n + total ns

-- The end of the message has been reported.
abbrev IsReported : Chan → Type 0
IsReported c = (c.underrun ≡ true) × (c.ext_ip ≡ true)

tick_chan-IsReported : (n : ℕ) (c : Chan) → IsReported c → IsReported (tick_chan n c).1
unfolding tick_chan tick_feed shifted_out
tick_chan-IsReported n c h = ground arith

tick_all-IsReported : (ns : List ℕ) (c : Chan) → IsReported c → IsReported (tick_all ns c)
unfolding tick_all
tick_all-IsReported [] c h = h
tick_all-IsReported (n ∷ ns) c h = tick_all-IsReported ns _ (tick_chan-IsReported n c h)

-- The last byte of a message is on the wire, and its end is to be reported.
IsClosing : Chan → Type 0
IsClosing c =
    (c.buf_full ≡ false)
    × (c.underrun_armed ≡ true)
    × (0 < c.shift_timer)
    × ((bit_and (get_or c.wr 15 0) 0x40 != 0) ≡ true)
    × ((bit_and (get_or c.wr 1 0) 0x01 != 0) ≡ true)

last_step :
    (n : ℕ) (c : Chan)
    → IsClosing c
    → IsReported (tick_chan n c).1
      ⊎ (IsClosing (tick_chan n c).1 × ((tick_chan n c).1.shift_timer + n ≡ c.shift_timer))
unfolding IsClosing tick_chan tick_feed shifted_out
last_step n c h = ground arith

last_next :
    (n : ℕ) (ns : List ℕ) (c : Chan)
    → IsReported (tick_chan n c).1
      ⊎ (IsClosing (tick_chan n c).1 × ((tick_chan n c).1.shift_timer + n ≡ c.shift_timer))
    → (IsClosing (tick_chan n c).1
        → (tick_chan n c).1.shift_timer + n ≡ c.shift_timer
        → IsReported (tick_all ns (tick_chan n c).1))
    → IsReported (tick_all ns (tick_chan n c).1)
last_next n ns c (inl r) more = tick_all-IsReported ns _ r
last_next n ns c (inr (k, e)) more = more k e

closed :
    (ns : List ℕ) (c : Chan) → IsClosing c → c.shift_timer ≤ total ns → IsReported (tick_all ns c)
unfolding tick_all total IsClosing
closed [] c k h = absurd (omega (arith, k.2, h))
closed (n ∷ ns) c k h =
    last_next n ns c (last_step n c k)
      (λ k' e. closed ns (tick_chan n c).1 k' (omega (arith, e, h)))

-- The end of a message is reported: with a byte on the wire and none behind it, the report armed and its
-- two enables set, the underrun latch and the external interrupt are set once the byte's time has passed,
-- in however many steps.
pub tick_all_reports :
    (ns : List ℕ) (c : Chan)
    → c.buf_full ≡ false
    → c.underrun_armed ≡ true
    → 0 < c.shift_timer
    → (bit_and (get_or c.wr 15 0) 0x40 != 0) ≡ true
    → (bit_and (get_or c.wr 1 0) 0x01 != 0) ≡ true
    → c.shift_timer ≤ total ns
    → ((tick_all ns c).underrun ≡ true) × ((tick_all ns c).ext_ip ≡ true)
unfolding IsClosing
tick_all_reports ns c free armed busy e15 e1 h = closed ns c (free, armed, busy, e15, e1) h
