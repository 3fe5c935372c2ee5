-- ===== src/AdbBus/Reply.antt =====
-- The pulses of a reply.
use mathlib.Core.Bool.{true≢false}
use mathlib.Core.List.{append_assoc, append-nil}
use open_mac_for_linux.Base.{
  ℕ, zero, suc, Option, none, some, ◌+◌, ◌-◌, ◌*◌, ◌^◌, ◌<◌, ◌≤◌, bit_and, Bool, true, false, not,
  ◌&&◌, List, [], ◌∷◌, ◌++◌, length, ◌≡◌, refl, sym, ap, ◌∙◌, ◌<<<◌, leb, ◌!=◌, if◌then◌else◌,
  arith, ltb, subst,
}
use open_mac_for_linux.AdbBus.{
  u64, LineEvent, event, IifxAdbBus, cell, byte_cells, reply_cells, reply_events, schedule_reply,
  set_device_line, deliver, advance,
}
use open_mac_for_linux.AdbBus.Wire.{train, train-reply_events}

-- The bits that a listener hears. It keeps when the line rose, while the line is high, and at each fall
-- of the line it hears a one where the line was high for 90 ticks at least and a zero otherwise.
pub heard : Option ℕ → List LineEvent → List Bool
heard high [] = []
heard none (e ∷ es) = heard (if e.released then some e.tick else none) es
heard (some rise) (e ∷ es) =
    if e.released then heard (some rise) es else leb 90 (e.tick - rise) ∷ heard none es

-- The bits of bytes, the highest first.
pub byte_bits : ℕ → ℕ → List Bool
byte_bits zero byte = []
byte_bits (suc n) byte = (bit_and byte (1 <<< n) != 0) ∷ byte_bits n byte

pub bits_of : List ℕ → List Bool
bits_of [] = []
bits_of (byte ∷ bytes) = byte_bits 8 byte ++ bits_of bytes

-- A cell lasts 200 ticks.
cell-end : (at : ℕ) (one : Bool) → at + 200 < 2 ^ 64 → (cell at one).1 ≡ at + 200
unfolding cell
cell-end at true h = omega arith
cell-end at false h = omega arith

heard-cell :
    (at : ℕ) (one : Bool) (rest : List LineEvent)
    → at + 200 < 2 ^ 64
    → heard none ((cell at one).0 ++ rest) ≡ one ∷ heard none rest
unfolding heard cell
heard-cell at true rest h = ap (λ b. b ∷ heard none rest) (ground arith)
heard-cell at false rest h = ap (λ b. b ∷ heard none rest) (ground arith)

byte_cells-end : (n byte at : ℕ) → at + 200 * n < 2 ^ 64 → (byte_cells n byte at).1 ≡ at + 200 * n
unfolding byte_cells
byte_cells-end zero byte at h = omega arith
byte_cells-end (suc n) byte at h =
    let c = cell at (bit_and byte (1 <<< n) != 0) in
    let e = cell-end at (bit_and byte (1 <<< n) != 0) (omega arith) in
    omega (arith, e, byte_cells-end n byte c.1 (omega (arith, e)))

heard-byte_cells :
    (n byte at : ℕ) (rest : List LineEvent)
    → at + 200 * n < 2 ^ 64
    → heard none ((byte_cells n byte at).0 ++ rest) ≡ byte_bits n byte ++ heard none rest
unfolding byte_cells byte_bits
heard-byte_cells zero byte at rest h = refl
heard-byte_cells (suc n) byte at rest h =
    let one = bit_and byte (1 <<< n) != 0 in
    let c = cell at one in
    let e = cell-end at one (omega arith) in
    let tail = (byte_cells n byte c.1).0 in
    ap (heard none) (append_assoc c.0 tail rest)
    ∙ (heard-cell at one (tail ++ rest) (omega arith)
        ∙ ap (λ bs. one ∷ bs) (heard-byte_cells n byte c.1 rest (omega (arith, e))))

reply_cells-end :
    (bytes : List ℕ) (at : ℕ)
    → at + 1600 * length bytes < 2 ^ 64
    → (reply_cells bytes at).1 ≡ at + 1600 * length bytes
unfolding reply_cells
reply_cells-end [] at h = omega arith
reply_cells-end (byte ∷ bytes) at h =
    let e = byte_cells-end 8 byte at (omega arith) in
    omega (arith, e, reply_cells-end bytes (byte_cells 8 byte at).1 (omega (arith, e)))

heard-reply_cells :
    (bytes : List ℕ) (at : ℕ) (rest : List LineEvent)
    → at + 1600 * length bytes < 2 ^ 64
    → heard none ((reply_cells bytes at).0 ++ rest) ≡ bits_of bytes ++ heard none rest
unfolding reply_cells bits_of
heard-reply_cells [] at rest h = refl
heard-reply_cells (byte ∷ bytes) at rest h =
    let first = byte_cells 8 byte at in
    let more = (reply_cells bytes first.1).0 in
    let e = byte_cells-end 8 byte at (omega arith) in
    ap (heard none) (append_assoc first.0 more rest)
    ∙ (heard-byte_cells 8 byte at (more ++ rest) (omega arith)
        ∙ (ap (λ bs. byte_bits 8 byte ++ bs)
              (heard-reply_cells bytes first.1 rest (omega (arith, e)))
            ∙ sym (append_assoc (byte_bits 8 byte) (bits_of bytes) (heard none rest))))

-- What follows the first pull of the line.
pub after_pull : List LineEvent → List LineEvent
after_pull [] = []
after_pull (e ∷ es) = if e.released then after_pull es else es

start_bit :
    (t2 t3 : ℕ) (es : List LineEvent)
    → t2 + 130 ≡ t3
    → heard none (event t2 true false ∷ event t3 false false ∷ es) ≡ true ∷ heard none es
unfolding heard
start_bit t2 t3 es e = ap (λ b. b ∷ heard none es) (ground arith)

heard_last : (bs : List Bool) (t : ℕ) → bs ++ heard none (event t true true ∷ []) ≡ bs
unfolding heard
heard_last bs t = append-nil bs

-- A listener that starts at the first pull of the line, which is low then, hears a reply's start bit,
-- which is a one, and then the bits of its bytes, the highest first, and nothing more, whatever the
-- bytes, while the clock does not wrap.
pub heard-reply_events :
    (now : ℕ) (bytes : List ℕ)
    → now + 600 + 1600 * length bytes < 2 ^ 64
    → heard none (after_pull (reply_events now bytes)) ≡ true ∷ bits_of bytes
unfolding reply_events after_pull
heard-reply_events now bytes h =
    let t2 = u64 (u64 (u64 (now + 81) + 70) + 70) in
    let t3 = u64 (t2 + 130) in
    let end = u64 ((reply_cells bytes t3).1 + 140) in
    let last = event end true true in
    start_bit t2 t3 ((reply_cells bytes t3).0 ++ (last ∷ [])) (omega arith)
    ∙ ap (λ bs. true ∷ bs)
        (heard-reply_cells bytes t3 (last ∷ []) (omega arith) ∙ heard_last (bits_of bytes) end)

-- Events that are due at a time.
due : ℕ → List LineEvent → Bool
due t [] = true
due t (e ∷ es) = leb e.tick t && due t es

due-append :
    (t : ℕ) (xs ys : List LineEvent) → due t xs ≡ true → due t ys ≡ true → due t (xs ++ ys) ≡ true
unfolding due
due-append t [] ys hx hy = hy
due-append t (e ∷ xs) ys hx hy = ground (arith, due-append t xs ys)

due-cell :
    (t at : ℕ) (one : Bool) (rest : List LineEvent)
    → at + 200 ≤ t
    → due t rest ≡ true
    → due t ((cell at one).0 ++ rest) ≡ true
unfolding due cell
due-cell t at true rest h r = ground arith
due-cell t at false rest h r = ground arith

due-byte_cells :
    (t n byte at : ℕ) → at + 200 * n ≤ t → t < 2 ^ 64 → due t (byte_cells n byte at).0 ≡ true
unfolding byte_cells due
due-byte_cells t zero byte at h w = refl
due-byte_cells t (suc n) byte at h w =
    let one = bit_and byte (1 <<< n) != 0 in
    let e = cell-end at one (omega arith) in
    due-cell t at one (byte_cells n byte (cell at one).1).0 (omega arith)
      (due-byte_cells t n byte (cell at one).1 (omega (arith, e)) w)

due-reply_cells :
    (t : ℕ) (bytes : List ℕ) (at : ℕ)
    → at + 1600 * length bytes ≤ t
    → t < 2 ^ 64
    → due t (reply_cells bytes at).0 ≡ true
unfolding reply_cells due
due-reply_cells t [] at h w = refl
due-reply_cells t (byte ∷ bytes) at h w =
    let first = byte_cells 8 byte at in
    let e = byte_cells-end 8 byte at (omega arith) in
    due-append t first.0 (reply_cells bytes first.1).0 (due-byte_cells t 8 byte at (omega arith) w)
      (due-reply_cells t bytes first.1 (omega (arith, e)) w)

last_due : (t at : ℕ) → at ≤ t → due t (event at true true ∷ []) ≡ true
unfolding due
last_due t at h = ground arith

opening_due :
    (t t0 t1 t2 t3 : ℕ) (es : List LineEvent)
    → t0 ≤ t
    → t1 ≤ t
    → t2 ≤ t
    → t3 ≤ t
    → due t es ≡ true
    → due t (
        event t0 true false
        ∷ event t1 false false
        ∷ event t2 true false
        ∷ event t3 false false
        ∷ es)
      ≡ true
unfolding due
opening_due t t0 t1 t2 t3 es h0 h1 h2 h3 h = ground arith

due-reply_events :
    (t now : ℕ) (bytes : List ℕ)
    → now + 600 + 1600 * length bytes ≤ t
    → t < 2 ^ 64
    → due t (reply_events now bytes) ≡ true
unfolding reply_events
due-reply_events t now bytes h w =
    let t2 = u64 (u64 (u64 (now + 81) + 70) + 70) in
    let t3 = u64 (t2 + 130) in
    let last = event (u64 ((reply_cells bytes t3).1 + 140)) true true in
    let e = reply_cells-end bytes t3 (omega arith) in
    opening_due t (u64 (now + 81)) (u64 (u64 (now + 81) + 70)) t2 t3
      ((reply_cells bytes t3).0 ++ (last ∷ [])) (omega arith) (omega arith) (omega arith)
      (omega arith)
      (due-append t (reply_cells bytes t3).0 (last ∷ [])
        (due-reply_cells t bytes t3 (omega arith) w)
        (last_due t (u64 ((reply_cells bytes t3).1 + 140)) (omega (arith, e))))

-- A bus on which nothing is sent any more.
abbrev IsOver : Bool → IifxAdbBus → Type 0
IsOver host c =
    (c.device_sending ≡ false) × (c.events ≡ []) × (c.device_released ≡ true) × (c.wire_high ≡ host)

kept : (c : Bool) (x y : IifxAdbBus) → c ≡ true → (if c then x else y) ≡ x
kept true x y h = refl
kept false x y h = absurd (true≢false (sym h))

deliver-due :
    (t : ℕ) (e : LineEvent) (es : List LineEvent) (b : IifxAdbBus)
    → leb e.tick t ≡ true
    → deliver t (e ∷ es) b ≡ deliver t es (set_device_line e.released e.final b)
unfolding deliver
deliver-due t e es b h = kept (leb e.tick t) _ _ h

both_true : (p q : Bool) → (p && q) ≡ true → (p ≡ true) × (q ≡ true)
both_true p q h = ground arith

ended :
    (final released sending host : Bool)
    → final ≡ true
    → released ≡ true
    → ((if final then false else sending) ≡ false) × ((host && released) ≡ host)
ended final released sending host hf hr = ground arith

-- The bus after the events that are due have come.
deliver-IsOver :
    (t : ℕ) (es : List LineEvent) (b : IifxAdbBus)
    → due t es ≡ true
    → train es ≡ true
    → IsOver b.host_released (deliver t es b)
unfolding due train set_device_line
deliver-IsOver t [] b d h = absurd (true≢false (sym h))
deliver-IsOver t (e ∷ []) b d h =
    let (final, free) = both_true e.final e.released h in
    let now = both_true (leb e.tick t) true d in
    let (silent, high) = ended e.final e.released b.device_sending b.host_released final free in
    subst (IsOver b.host_released) (sym (deliver-due t e [] b now.0))
      (unfold deliver in (silent, refl, free, high))
deliver-IsOver t (e ∷ f ∷ es) b d h =
    let now = both_true (leb e.tick t) (due t (f ∷ es)) d in
    let more = both_true (not e.final) (train (f ∷ es)) h in
    subst (IsOver b.host_released) (sym (deliver-due t e (f ∷ es) b now.0))
      (deliver-IsOver t (f ∷ es) (set_device_line e.released e.final b) now.1 more.1)

-- A reply ends: 600 ticks and 1600 for each byte after it was scheduled, at the latest, nothing is sent
-- any more, no event is to come, the device has released the line, and the wire is high when the host
-- releases it. The clock does not wrap before.
pub schedule_reply-IsOver :
    (t now : ℕ) (bytes : List ℕ) (b : IifxAdbBus)
    → now + 600 + 1600 * length bytes ≤ t
    → t < 2 ^ 64
    → b.now ≤ t
    → let c = advance t (schedule_reply now bytes b) in
      (c.device_sending ≡ false)
      × (c.events ≡ [])
      × (c.device_released ≡ true)
      × (c.wire_high ≡ b.host_released)
unfolding advance schedule_reply
schedule_reply-IsOver t now bytes b h w n =
    let s = schedule_reply now bytes b in
    let later : (if ltb t b.now then b.now else t) ≡ t = ground arith in
    subst (λ (k : ℕ). IsOver b.host_released (deliver k (reply_events now bytes) s)) (sym later)
      (deliver-IsOver t (reply_events now bytes) s (due-reply_events t now bytes h w)
        (train-reply_events now bytes))
