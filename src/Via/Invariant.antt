-- ===== src/Via/Invariant.antt =====
-- Every register of the VIA stays in its width, whatever the machine does.
use open_mac_for_linux.Base.{
  ℕ, zero, suc, ◌<◌, ◌≤◌, bit_and, bit_or, Bool, List, [], ◌∷◌, Option, arith, bit_or-lt,
  bit_and-le_left, bit_and-le_right, not8,
}
use open_mac_for_linux.Via.{
  Via6522, reset, set_ifr, clear_ifr, read_sr, write_sr, write_acr, read_high, read, write_t1_high,
  write_high, write, tick_sr, t1_expired, tick_t1, tick_t2, tick, set_ca1, set_ca2, complete_shift,
}

pub record IsValid (v : Via6522) : Type 0 where
  pub orb : v.orb < 256
  pub ora : v.ora < 256
  pub ddrb : v.ddrb < 256
  pub ddra : v.ddra < 256
  pub t1c : v.t1c < 65536
  pub t1l : v.t1l < 65536
  pub t2c : v.t2c < 65536
  pub t2ll : v.t2ll < 256
  pub sr : v.sr < 256
  pub acr : v.acr < 256
  pub pcr : v.pcr < 256
  pub ifr : v.ifr < 128
  pub ier : v.ier < 128
  pub sr_ticks : v.sr_ticks ≤ 16

reset-IsValid : (v : Via6522) → v.t2ll < 256 → v.sr_ticks ≤ 16 → IsValid (reset v)
unfolding reset
reset-IsValid v h k = omega arith

set_ifr-IsValid : (mask : ℕ) (v : Via6522) → mask < 128 → IsValid v → IsValid (set_ifr mask v)
unfolding set_ifr
set_ifr-IsValid mask v h k = ground (arith, bit_or-lt 7 v.ifr mask k.ifr h)

clear_ifr-IsValid : (mask : ℕ) (v : Via6522) → IsValid v → IsValid (clear_ifr mask v)
unfolding clear_ifr
clear_ifr-IsValid mask v k = ground (arith, bit_and-le_left v.ifr (not8 mask))

read_sr-IsValid : (v : Via6522) → IsValid v → IsValid (read_sr v).1
unfolding read_sr
read_sr-IsValid v k = ground (arith, clear_ifr-IsValid 4 v k)

write_sr-IsValid : (x : ℕ) (v : Via6522) → x < 256 → IsValid v → IsValid (write_sr x v).0
unfolding write_sr clear_ifr
write_sr-IsValid x v h k = ground (arith, bit_and-le_left v.ifr (not8 4))

write_acr-IsValid : (x : ℕ) (v : Via6522) → x < 256 → IsValid v → IsValid (write_acr x v).0
unfolding write_acr
write_acr-IsValid x v h k = ground arith

read_high-IsValid : (reg : ℕ) (v : Via6522) → IsValid v → IsValid (read_high reg v).1
unfolding read_high
read_high-IsValid reg v k = ground (arith, clear_ifr-IsValid 32 v k, read_sr-IsValid v k)

read-IsValid :
    (reg : ℕ) (in_a in_b : Option ℕ) (v : Via6522) → IsValid v → IsValid (read reg in_a in_b v).1
unfolding read
read-IsValid reg in_a in_b v k = ground (
  arith,
  clear_ifr-IsValid 24 v k,
  clear_ifr-IsValid 3 v k,
  clear_ifr-IsValid 64 v k,
  read_high-IsValid (bit_and reg 15) v k,
)

write_t1_high-IsValid : (x : ℕ) (v : Via6522) → IsValid v → IsValid (write_t1_high x v)
unfolding write_t1_high clear_ifr
write_t1_high-IsValid x v k = ground (arith, bit_and-le_left v.ifr (not8 64))

write_high-IsValid :
    (reg x : ℕ) (v : Via6522) → x < 256 → IsValid v → IsValid (write_high reg x v).0
unfolding write_high clear_ifr
write_high-IsValid reg x v h k = ground (
  arith,
  bit_and-le_left v.ifr (not8 32),
  write_sr-IsValid x v h k,
  write_acr-IsValid x v h k,
  bit_and-le_left v.ifr (not8 (bit_and x 0x7F)),
  bit_and-le_left v.ier (not8 (bit_and x 0x7F)),
  bit_and-le_right x 0x7F,
  bit_or-lt 7 v.ier (bit_and x 0x7F),
)

write-IsValid : (reg x : ℕ) (v : Via6522) → x < 256 → IsValid v → IsValid (write reg x v).0
unfolding write clear_ifr
write-IsValid reg x v h k = ground (
  arith,
  bit_and-le_left v.ifr (not8 24),
  bit_and-le_left v.ifr (not8 3),
  bit_and-le_left v.ifr (not8 64),
  write_t1_high-IsValid x v k,
  write_high-IsValid (bit_and reg 15) x v h k,
)

tick_sr-IsValid : (v : Via6522) → IsValid v → IsValid (tick_sr v)
unfolding tick_sr set_ifr
tick_sr-IsValid v k = ground (arith, bit_or-lt 7 v.ifr 4 k.ifr)

tick_t1-IsValid : (v : Via6522) → IsValid v → IsValid (tick_t1 v)
unfolding tick_t1 t1_expired set_ifr
tick_t1-IsValid v k = ground (arith, bit_or-lt 7 v.ifr 64 k.ifr)

tick_t2-IsValid : (v : Via6522) → IsValid v → IsValid (tick_t2 v)
unfolding tick_t2 set_ifr
tick_t2-IsValid v k = ground (arith, bit_or-lt 7 v.ifr 32 k.ifr)

tick-IsValid : (clocks : ℕ) (v : Via6522) → IsValid v → IsValid (tick clocks v)
unfolding tick
tick-IsValid zero v k = k
tick-IsValid (suc clocks) v k =
    tick-IsValid clocks (tick_t2 (tick_t1 (tick_sr v)))
      (tick_t2-IsValid (tick_t1 (tick_sr v)) (tick_t1-IsValid (tick_sr v) (tick_sr-IsValid v k)))

set_ca1-IsValid : (level : Bool) (v : Via6522) → IsValid v → IsValid (set_ca1 level v)
unfolding set_ca1 set_ifr
set_ca1-IsValid level v k = ground (arith, bit_or-lt 7 v.ifr 2 k.ifr)

set_ca2-IsValid : (level : Bool) (v : Via6522) → IsValid v → IsValid (set_ca2 level v)
unfolding set_ca2 set_ifr
set_ca2-IsValid level v k = ground (arith, bit_or-lt 7 v.ifr 1 k.ifr)

complete_shift-IsValid :
    (input : Bool) (x : ℕ) (v : Via6522) → x < 256 → IsValid v → IsValid (complete_shift input x v)
unfolding complete_shift
complete_shift-IsValid input x v h k =
    ground (arith, bit_or-lt 7 v.ifr 4 k.ifr, bit_or-lt 7 (bit_or v.ifr 4) 0x10)

-- What the machine does to the chip; bytes are below 256.
pub data Op : Type 0 where
  resets : Op
  reads : ℕ → Option ℕ → Option ℕ → Op
  writes : ℕ → (x : ℕ) → x < 256 → Op
  ticks : ℕ → Op
  ca1_line ca2_line : Bool → Op
  shifts : Bool → (x : ℕ) → x < 256 → Op

pub step : Op → Via6522 → Via6522
step resets v = reset v
step (reads reg in_a in_b) v = (read reg in_a in_b v).1
step (writes reg x h) v = (write reg x v).0
step (ticks clocks) v = tick clocks v
step (ca1_line level) v = set_ca1 level v
step (ca2_line level) v = set_ca2 level v
step (shifts input x h) v = complete_shift input x v

pub run : List Op → Via6522 → Via6522
run [] v = v
run (op ∷ ops) v = run ops (step op v)

step-IsValid : (op : Op) (v : Via6522) → IsValid v → IsValid (step op v)
unfolding step
step-IsValid resets v k = reset-IsValid v k.t2ll k.sr_ticks
step-IsValid (reads reg in_a in_b) v k = read-IsValid reg in_a in_b v k
step-IsValid (writes reg x h) v k = write-IsValid reg x v h k
step-IsValid (ticks clocks) v k = tick-IsValid clocks v k
step-IsValid (ca1_line level) v k = set_ca1-IsValid level v k
step-IsValid (ca2_line level) v k = set_ca2-IsValid level v k
step-IsValid (shifts input x h) v k = complete_shift-IsValid input x v h k

-- Whatever the machine does to the chip, every register stays in its width; the flag and enable
-- registers never have digit 7, and the shift countdown never exceeds 16.
pub run-IsValid : (ops : List Op) (v : Via6522) → IsValid v → IsValid (run ops v)
unfolding run
run-IsValid [] v k = k
run-IsValid (op ∷ ops) v k = run-IsValid ops (step op v) (step-IsValid op v k)
