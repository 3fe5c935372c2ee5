-- ===== src/Rtc/Protocol.antt =====
-- Whole transactions: what a host writes into the extended parameter RAM it reads back.
use open_mac_for_linux.Base.{
  ℕ, ◌+◌, ◌*◌, ◌/◌, ◌%◌, ◌<◌, bit_and, bit_or, Bool, true, false, not, ◌≡◌, ◌⊎◌, refl, ap, ◌∙◌,
  List, arith, length, set, get_or, get_or-set_self, All-get_or, IsByte, AllBytes, u8, ◌<<<◌, ◌>>>◌,
  ◌==◌, ◌!=◌, every_below, every_below_sound, ==_iff, ◌&&◌, get_or-set_ne, All-set, if◌then◌else◌,
  Bool-cases, inl, inr,
}
use open_mac_for_linux.Rtc.{
  Rtc, State, rising_edge, clocked_in_bit, shift_out, write_register, store_register, command,
  extended_command, write_data, read_data, byte_in, command_byte, address_byte, data_byte,
  xpram_address, set_lines,
}
use open_mac_for_linux.Rtc.Wire.{
  send, receive, byte_bits, byte_of, taken, send-byte_bits, receive_lem,
}
use open_mac_for_linux.Rtc.Invariant.{IsValid}

-- /enable high: the chip is deselected.
unfoldable pub deselect : Rtc → Rtc
deselect r = set_lines true false true r

-- The two bytes of an extended command for address `a`.
abbrev pub extended_write : ℕ → ℕ
extended_write a = 0x38 + a / 32

abbrev pub extended_read : ℕ → ℕ
extended_read a = 0xB8 + a / 32

abbrev pub address_bits : ℕ → ℕ
address_bits a = a % 32 * 4

unfoldable pub write_xpram : ℕ → ℕ → Rtc → Rtc
write_xpram a v r =
    send (byte_bits v)
      (send (byte_bits (address_bits a)) (send (byte_bits (extended_write a)) (deselect r)))

pub read_xpram : ℕ → Rtc → List Bool × Rtc
read_xpram a r =
    receive 8 (send (byte_bits (address_bits a)) (send (byte_bits (extended_read a)) (deselect r)))

-- The chip ready for the first byte of a transaction.
abbrev ready : Bool → Rtc → Rtc
ready extended r = record r {
  state = command;
  bits = 0;
  extended = extended;
  enabled = false;
  last_clock = false;
}

-- A chip that is selected, wherever in a transaction, or one that waits for a command.
unfoldable pub IsReady : Rtc → Type 0
IsReady r = (r.enabled ≡ true) ⊎ ((r.state ≡ command) × (r.bits ≡ 0))

rising_edge-enabled : (s : State) (b : Bool) (r : Rtc) → (rising_edge s b r).enabled ≡ r.enabled
unfolding rising_edge clocked_in_bit shift_out byte_in command_byte address_byte data_byte
    write_register store_register
rising_edge-enabled s b r = ground arith

-- A change of the lines keeps a chip so.
set_lines-IsReady :
    (level clock enable : Bool) (r : Rtc) → IsReady r → IsReady (set_lines level clock enable r)
unfolding IsReady set_lines
set_lines-IsReady level clock enable r is =
    ground (arith, rising_edge-enabled r.state level (record r { enabled = true }))

deselect-ready :
    (r : Rtc) → IsReady r → deselect r ≡ ready (if r.enabled then false else r.extended) r
unfolding deselect set_lines IsReady
deselect-ready r is = ground arith

-- The chip that has taken an extended command `c`, and that which has taken the address too.
abbrev addressed : ℕ → Rtc → Rtc
addressed c r = record r {
  state = extended_command;
  bits = 0;
  shift = 0;
  cmd = c;
  extended = true;
  enabled = true;
  last_clock = true;
}

abbrev writing : ℕ → ℕ → Rtc → Rtc
writing c b r = record (addressed c r) { state = write_data; ext_addr = b }

taken_extended :
    (c : ℕ) (x : Bool) (r : Rtc)
    → (bit_and c 0x78 == 0x38) ≡ true
    → taken c (ready x r) ≡ addressed c r
unfolding byte_in command_byte
taken_extended c x r e = ground arith

taken_address :
    (c b : ℕ) (r : Rtc) → (bit_and c 0x80 != 0) ≡ false → taken b (addressed c r) ≡ writing c b r
unfolding byte_in address_byte
taken_address c b r e = ground arith

-- The two bytes name the address, whatever the direction.
abbrev decoded : ℕ → ℕ → ℕ
decoded c b = u8 (bit_or (bit_and c 0x07 <<< 5) (bit_and (b >>> 2) 0x1F))

abbrev WellCoded : ℕ → Type 0
WellCoded a =
    ((bit_and (extended_write a) 0x78 == 0x38) ≡ true)
    × ((bit_and (extended_read a) 0x78 == 0x38) ≡ true)
    × ((bit_and (extended_write a) 0x80 != 0) ≡ false)
    × ((bit_and (extended_read a) 0x80 != 0) ≡ true)
    × (decoded (extended_write a) (address_bits a) ≡ a)
    × (decoded (extended_read a) (address_bits a) ≡ a)

abbrev well_coded : ℕ → Bool
well_coded a =
    (bit_and (extended_write a) 0x78 == 0x38)
    && ((bit_and (extended_read a) 0x78 == 0x38)
        && (not (bit_and (extended_write a) 0x80 != 0)
            && ((bit_and (extended_read a) 0x80 != 0)
                && ((decoded (extended_write a) (address_bits a) == a)
                    && (decoded (extended_read a) (address_bits a) == a)))))

well_coded_all : (a : ℕ) → a < 256 → well_coded a ≡ true
unfolding every_below
well_coded_all a h = every_below_sound 256 well_coded refl a h

WellCoded-all : (a : ℕ) → a < 256 → WellCoded a
WellCoded-all a h = let t = well_coded_all a h in ground arith

-- A write transaction stores the byte, and touches nothing else that a host can see.
write_xpram_lem :
    (a v : ℕ) (r : Rtc)
    → a < 256
    → v < 256
    → IsReady r
    → write_xpram a v r ≡ taken v (writing (extended_write a) (address_bits a) r)
unfolding write_xpram
write_xpram_lem a v r ha hv on =
    let coded = WellCoded-all a ha in
    let x = if r.enabled then false else r.extended in
    let first : send (byte_bits (extended_write a)) (deselect r) ≡ addressed (extended_write a) r =
      ap (send (byte_bits (extended_write a))) (deselect-ready r on)
      ∙ send-byte_bits (extended_write a) (ready x r) (omega arith) refl (λ e. cc)
      ∙ taken_extended (extended_write a) x r coded.0 in
    rw first (
      ap (send (byte_bits v)) (
        send-byte_bits (address_bits a) (addressed (extended_write a) r) (omega arith) refl
          (λ e. cc)
        ∙ taken_address (extended_write a) (address_bits a) r coded.2)
      ∙ send-byte_bits v (writing (extended_write a) (address_bits a) r) hv refl (λ e. cc))

stored :
    (c b v : ℕ) (r : Rtc)
    → (taken v (writing c b r)).xpram
      ≡ (if r.write_protect then r.xpram else set r.xpram (decoded c b) v)
unfolding byte_in data_byte xpram_address
stored c b v r = ground arith

data_taken :
    (c b v : ℕ) (r : Rtc)
    → let e = taken v (writing c b r) in
      (e.seconds ≡ r.seconds) × (e.write_protect ≡ r.write_protect) × (e.enabled ≡ true)
unfolding byte_in data_byte
data_taken c b v r = ground arith

-- Writing a byte over the wire, to a chip that waits or whose transaction is broken off: exactly the addressed byte of the parameter RAM changes, and not even that one while the chip
-- is write protected. The clock and the protection stay as they were.
pub write_xpram_stores :
    (a v : ℕ) (r : Rtc)
    → a < 256
    → v < 256
    → IsReady r
    → let w = write_xpram a v r in
      (w.xpram ≡ (if r.write_protect then r.xpram else set r.xpram a v))
      × (w.seconds ≡ r.seconds)
      × (w.write_protect ≡ r.write_protect)
      × (w.enabled ≡ true)
write_xpram_stores a v r ha hv on =
    let c = extended_write a in
    let b = address_bits a in
    let all = data_taken c b v r in
    let at_address : decoded c b ≡ a = (WellCoded-all a ha).4 in
    rw (write_xpram_lem a v r ha hv on) (rw (stored c b v r, at_address) refl, all.0, all.1, all.2)

-- The chip about to show the byte at `a`.
abbrev offering : ℕ → ℕ → Rtc → Rtc
offering c b r = record (addressed c r) {
  state = read_data;
  ext_addr = b;
  out_shift = get_or r.xpram (decoded c b) 0;
  out_bits = 0;
}

taken_read :
    (c b : ℕ) (r : Rtc) → (bit_and c 0x80 != 0) ≡ true → taken b (addressed c r) ≡ offering c b r
unfolding byte_in address_byte xpram_address
taken_read c b r e = ground arith

read_xpram_offers :
    (a : ℕ) (r : Rtc)
    → a < 256
    → IsReady r
    → read_xpram a r ≡ receive 8 (offering (extended_read a) (address_bits a) r)
unfolding read_xpram
read_xpram_offers a r ha on =
    let coded = WellCoded-all a ha in
    let x = if r.enabled then false else r.extended in
    let first : send (byte_bits (extended_read a)) (deselect r) ≡ addressed (extended_read a) r =
      ap (send (byte_bits (extended_read a))) (deselect-ready r on)
      ∙ send-byte_bits (extended_read a) (ready x r) (omega arith) refl (λ e. cc)
      ∙ taken_extended (extended_read a) x r coded.1 in
    rw first (
      ap (receive 8) (
        send-byte_bits (address_bits a) (addressed (extended_read a) r) (omega arith) refl (λ e. cc)
        ∙ taken_read (extended_read a) (address_bits a) r coded.3))

-- Reading a byte over the wire gives the byte at the address, and changes neither the parameter
-- RAM nor the clock.
pub read_xpram_lem :
    (a : ℕ) (r : Rtc)
    → a < 256
    → AllBytes r.xpram
    → IsReady r
    → (byte_of 0 (read_xpram a r).0 ≡ get_or r.xpram a 0)
      × ((read_xpram a r).1.xpram ≡ r.xpram)
      × ((read_xpram a r).1.seconds ≡ r.seconds)
read_xpram_lem a r ha bytes on =
    let c = extended_read a in
    let b = address_bits a in
    let at_address : decoded c b ≡ a = (WellCoded-all a ha).5 in
    let shown =
      receive_lem (offering c b r) refl refl
        (All-get_or IsByte r.xpram (decoded c b) 0 (omega arith) bytes) in
    rw (read_xpram_offers a r ha on)
      (shown.0 ∙ ap (λ i. get_or r.xpram i 0) at_address, shown.1.same_xpram, shown.1.same_seconds)

get_or-set_if :
    (xs : List ℕ) (i j v : ℕ)
    → i < length xs
    → get_or (set xs i v) j 0 ≡ (if i == j then v else get_or xs j 0)
get_or-set_if xs i j v h = elim (Bool-cases (i == j)) [
  | inl e ↦ rw (e, ← (==_iff i j).0 e) (get_or-set_self xs i v 0 h)
  | inr e ↦ rw e (get_or-set_ne xs i j v 0 (λ p. ground arith))
]

-- After a byte was written over the wire, a read over the wire gives that byte at its address and the
-- former content at any other. The chip's fields have their sizes, it is not write protected, and it is
-- selected, wherever in a transaction, which is broken off, or waits for a command with no bit of it taken.
pub read_xpram-write_xpram :
    (a j v : ℕ) (r : Rtc)
    → a < 256
    → j < 256
    → v < 256
    → IsValid r
    → IsReady r
    → r.write_protect ≡ false
    → byte_of 0 (read_xpram j (write_xpram a v r)).0 ≡ (if a == j then v else get_or r.xpram j 0)
unfolding IsReady
read_xpram-write_xpram a j v r ha hj hv valid on open_chip =
    let w = write_xpram_stores a v r ha hv on in
    let content : (write_xpram a v r).xpram ≡ set r.xpram a v = rw (w.0, open_chip) refl in
    let bytes : AllBytes (write_xpram a v r).xpram =
      rw content (All-set IsByte r.xpram a v hv valid.xpram_bytes) in
    (read_xpram_lem j (write_xpram a v r) hj bytes (inl w.3)).0
    ∙ ap (λ l. get_or l j 0) content
    ∙ get_or-set_if r.xpram a j v (omega (arith, valid.xpram_size))
