-- ===== src/Rtc/Wire.antt =====
-- The serial protocol as its host drives it: a byte clocked in, and a byte clocked out, one bit
-- at a time and the highest first.
use open_mac_for_linux.Base.{
  every_below, every_below_sound, ==_iff, ℕ, zero, suc, ◌+◌, ◌*◌, ◌%◌, ◌<◌, bit_and, Bool, true,
  false, ◌≡◌, ◌≢◌, refl, sym, ◌∙◌, List, [], ◌∷◌, arith, length, from_bool, bit, bit-lt, ◌==◌,
  bit_or_join, ◌!=◌, u8, ◌<<<◌, bit_or, ap,
}
use open_mac_for_linux.Rtc.{
  Rtc, State, command, extended_command, write_data, read_data, byte_in, clocked_in_bit, shift_out,
  rising_edge, set_lines,
}

-- The host puts a level on the data line and pulses the clock, with the chip selected.
unfoldable pub pulse : Bool → Rtc → Rtc
pulse level r = set_lines level true false (set_lines level false false r)

unfoldable pub send : List Bool → Rtc → Rtc
send [] r = r
send (b ∷ bs) r = send bs (pulse b r)

-- The levels that the chip shows after each of `n` pulses, and the chip afterwards.
pub receive : ℕ → Rtc → List Bool × Rtc
receive zero r = ([], r)
receive (suc n) r =
    let r' = pulse false r in let (rest, end) = receive n r' in (r'.data_out ∷ rest, end)

abbrev level_of : ℕ → ℕ → Bool
level_of v k = bit v k == 1

abbrev pub byte_bits : ℕ → List Bool
byte_bits v =
    level_of v 7
    ∷ level_of v 6
    ∷ level_of v 5
    ∷ level_of v 4
    ∷ level_of v 3
    ∷ level_of v 2
    ∷ level_of v 1
    ∷ level_of v 0
    ∷ []

-- The byte that a shift register holds once it has taken the levels in.
abbrev pub byte_of : ℕ → List Bool → ℕ
byte_of s [] = s
byte_of s (b ∷ bs) = byte_of ((s * 2 + from_bool b) % 256) bs

level_of-digit : (v k : ℕ) → from_bool (level_of v k) ≡ bit v k
level_of-digit v k = ground (arith, bit-lt v k)

pub byte_of-byte_bits : (s v : ℕ) → v < 256 → byte_of s (byte_bits v) ≡ v
byte_of-byte_bits s v h = omega (
  arith,
  level_of-digit v 7,
  level_of-digit v 6,
  level_of-digit v 5,
  level_of-digit v 4,
  level_of-digit v 3,
  level_of-digit v 2,
  level_of-digit v 1,
  level_of-digit v 0,
)

-- A chip that has `n` bits of a byte, `s` in its shift register.
abbrev holding : ℕ → ℕ → Rtc → Rtc
holding n s r = record r { shift = s; bits = n; enabled = true; last_clock = true }

-- A chip that has taken the whole byte `s`.
abbrev pub taken : ℕ → Rtc → Rtc
taken s r =
    record (byte_in r.state
      (record r { shift = s; bits = 0; enabled = true; last_clock = false })) {
        shift = 0;
        last_clock = true;
      }

clock_low :
    (b : Bool) (r : Rtc)
    → set_lines b false false r ≡ record r { enabled = true; last_clock = false }
unfolding set_lines
clock_low b r = ground arith

pub pulse_lem :
    (b : Bool) (r : Rtc)
    → pulse b r ≡ record (rising_edge r.state b (record r { enabled = true; last_clock = false })) {
      last_clock = true;
    }
unfolding pulse
pulse_lem b r = rw (clock_low b r) (unfold set_lines in refl)

rising_edge_in :
    (s : State) (b : Bool) (r : Rtc) → s ≢ read_data → rising_edge s b r ≡ clocked_in_bit b r
unfolding rising_edge
rising_edge_in command b r ne = refl
rising_edge_in extended_command b r ne = refl
rising_edge_in write_data b r ne = refl
rising_edge_in read_data b r ne = absurd (ne refl)

shifted : (b : Bool) (s : ℕ) → u8 (bit_or (s <<< 1) (from_bool b)) ≡ (s * 2 + from_bool b) % 256
shifted b s = ap u8 (bit_or_join 1 s (from_bool b) (ground arith))

pulse-holding :
    (b : Bool) (n s : ℕ) (r : Rtc)
    → n < 7
    → r.state ≢ read_data
    → pulse b (holding n s r) ≡ holding (suc n) ((s * 2 + from_bool b) % 256) r
unfolding clocked_in_bit
pulse-holding b n s r h ne =
    rw (pulse_lem, rising_edge_in r.state b (record (holding n s r) { last_clock = false }) ne)
      (ground (arith, shifted b s))

pulse-holding_last :
    (b : Bool) (s : ℕ) (r : Rtc)
    → r.state ≢ read_data
    → pulse b (holding 7 s r) ≡ taken ((s * 2 + from_bool b) % 256) r
unfolding clocked_in_bit
pulse-holding_last b s r ne =
    rw (pulse_lem, rising_edge_in r.state b (record (holding 7 s r) { last_clock = false }) ne)
      (rw (shifted b s) refl)

-- The first pulse selects the chip.
pulse_first : (b : Bool) (r : Rtc) → pulse b r ≡ pulse b (holding r.bits r.shift r)
pulse_first b r = pulse_lem b r ∙ sym (pulse_lem b (holding r.bits r.shift r))

send_rest :
    (b : Bool) (bs : List Bool) (n s : ℕ) (r : Rtc)
    → n + length bs ≡ 7
    → r.state ≢ read_data
    → send (b ∷ bs) (holding n s r) ≡ taken (byte_of s (b ∷ bs)) r
unfolding send
send_rest b [] n s r h ne = let last : n ≡ 7 = omega arith in rw last (pulse-holding_last b s r ne)
send_rest b (c ∷ bs) n s r h ne =
    rw (pulse-holding b n s r (omega arith) ne)
      (send_rest c bs (suc n) ((s * 2 + from_bool b) % 256) r (omega arith) ne)

send_eight :
    (b : Bool) (bs : List Bool) (r : Rtc)
    → length bs ≡ 7
    → r.bits ≡ 0
    → r.state ≢ read_data
    → send (b ∷ bs) r ≡ taken (byte_of r.shift (b ∷ bs)) r
send_eight b bs r h none_yet ne =
    unfold send in
    ap (send bs) (pulse_first b r ∙ ap (λ n. pulse b (holding n r.shift r)) none_yet)
    ∙ send_rest b bs 0 r.shift r (omega arith) ne

-- Eight bits clocked into a chip that waits for a byte are handled as that byte.
pub send-byte_bits :
    (v : ℕ) (r : Rtc)
    → v < 256
    → r.bits ≡ 0
    → r.state ≢ read_data
    → send (byte_bits v) r ≡ taken v r
send-byte_bits v r h none_yet ne =
    send_eight (level_of v 7) _ r refl none_yet ne
    ∙ ap (λ s. taken s r) (byte_of-byte_bits r.shift v h)

-- The chip after it has shown a byte: it waits for a command, and its memory is as before.
pub record Shown (r e : Rtc) : Type 0 where
  pub same_xpram : e.xpram ≡ r.xpram
  pub same_seconds : e.seconds ≡ r.seconds
  pub same_protect : e.write_protect ≡ r.write_protect
  pub idle : e.state ≡ command
  pub none_yet : e.bits ≡ 0

-- The `n` highest levels of a byte.
highest : ℕ → ℕ → List Bool
highest zero s = []
highest (suc n) s = (bit_and s 0x80 != 0) ∷ highest n (s * 2 % 256)

pulse_shown :
    (b : Bool) (r : Rtc)
    → r.state ≡ read_data
    → pulse b r
      ≡ record (shift_out (record r { enabled = true; last_clock = false })) { last_clock = true }
unfolding rising_edge
pulse_shown b r e = rw (pulse_lem, e) refl

-- The chip between two bits of a byte that it shows.
abbrev showing : Rtc → Rtc
showing r = record r {
  enabled = true;
  last_clock = true;
  data_out = bit_and r.out_shift 0x80 != 0;
  out_shift = r.out_shift * 2 % 256;
  out_bits = r.out_bits + 1;
}

pulse-showing : (r : Rtc) → r.state ≡ read_data → r.out_bits < 7 → pulse false r ≡ showing r
unfolding shift_out
pulse-showing r e h = rw (pulse_shown false r e) (ground arith)

receive_one :
    (r : Rtc)
    → r.state ≡ read_data
    → r.out_bits ≡ 7
    → ((receive 1 r).0 ≡ highest 1 r.out_shift) × Shown r (receive 1 r).1
unfolding receive highest shift_out
receive_one r e h = rw (pulse_shown false r e) (ground arith, ground arith)

receive_some :
    (n : ℕ) (r : Rtc)
    → r.state ≡ read_data
    → r.out_bits + n ≡ 7
    → ((receive (suc n) r).0 ≡ highest (suc n) r.out_shift) × Shown r (receive (suc n) r).1
unfolding receive highest
receive_some zero r e h = receive_one r e (omega arith)
receive_some (suc n) r e h =
    let first : pulse false r ≡ showing r = pulse-showing r e (omega arith) in
    let rest = receive_some n (showing r) e (omega arith) in
    rw first (ap (λ l. (bit_and r.out_shift 0x80 != 0) ∷ l) rest.0, ground (arith, rest.1))

byte_of-highest : (v : ℕ) → v < 256 → byte_of 0 (highest 8 v) ≡ v
unfolding highest every_below
byte_of-highest v h =
    (==_iff _ v).0 (every_below_sound 256 (λ x. byte_of 0 (highest 8 x) == x) refl v h)

-- Eight pulses show the byte in the output register, and leave the chip ready for a command.
pub receive_lem :
    (r : Rtc)
    → r.state ≡ read_data
    → r.out_bits ≡ 0
    → r.out_shift < 256
    → (byte_of 0 (receive 8 r).0 ≡ r.out_shift) × Shown r (receive 8 r).1
receive_lem r e none_out h =
    let shown = receive_some 7 r e (omega arith) in
    (ap (byte_of 0) shown.0 ∙ byte_of-highest r.out_shift h, shown.1)
