-- ===== src/R65c02/Invariant/Accesses.antt =====
-- The bounds of the registers across bus accesses, operands, interrupts and branches.
use open_mac_for_linux.Base.{
  ℕ, ◌+◌, ◌^◌, ◌<◌, bit_or, Bool, true, false, u8, u16, ◌>>>◌, if◌then◌else◌, arith,
}
use open_mac_for_linux.R65c02.{
  m_absolute, m_absolute_x, m_absolute_y, m_immediate, m_indirect_x, m_indirect_y, m_zero,
  m_zero_indirect, m_zero_x, m_zero_y, Mode, Bus, R65c02, M, ret, pair, rb, wb, fetch8, fetch16,
  read16, push, pop, zero_word, effective, operand, interrupt, branch, branch_to, bit_branch,
  invalid_nop,
}
use open_mac_for_linux.R65c02.Invariant.{
  u8-lt, u16-lt, with_p-IsValid, with_s-IsValid, with_pc-IsValid, landed-IsValid,
  with_world-IsValid, IsValid,
}

-- The bus gives bytes.
abbrev pub IsBytes : (S : Type 0) → Bus S → Type 0
IsBytes S bus = (a : ℕ) (w : S) → (bus.read a w).0 < 256

-- An operation keeps the bounds, and its result has a property.
abbrev pub Keeps : {S A : Type 0} → (A → Type 0) → M S A → Type 0
Keeps Q m = (c : R65c02 _) → IsValid c → Q (m c).0 × IsValid (m c).1

abbrev IsByte : ℕ → Type 0
IsByte n = n < 256

abbrev IsWord : ℕ → Type 0
IsWord n = n < 2 ^ 16

abbrev IsAny : {A : Type 0} → A → Type 0
IsAny n = Unit

pub pair-lt : (low high : ℕ) → IsWord (pair low high)
pair-lt low high = u16-lt _

module _ {S : Type 0} ⦃bus : Bus S⦄ (bytes : IsBytes S bus) where
  pub rb-Keeps : (address : ℕ) → Keeps IsByte (rb {S = S} address)
  unfolding rb
  rb-Keeps address c v = (bytes address c.world, with_world-IsValid c v _)

  pub wb-IsValid : (address value : ℕ) (c : R65c02 S) → IsValid c → IsValid (wb address value c).1
  unfolding wb
  wb-IsValid address value c v = with_world-IsValid c v _

  pub fetch8-Keeps : Keeps IsByte (fetch8 {S = S})
  unfolding fetch8
  fetch8-Keeps c v = let (h, v') = rb-Keeps c.pc c v in (h, with_pc-IsValid _ v' _ (u16-lt _))

  pub fetch16-Keeps : Keeps IsWord (fetch16 {S = S})
  unfolding fetch16
  fetch16-Keeps c v = let first = fetch8-Keeps c v in (pair-lt _ _, (fetch8-Keeps _ first.1).1)

  pub read16-Keeps : (address : ℕ) → Keeps IsWord (read16 {S = S} address)
  unfolding read16
  read16-Keeps address c v =
      let first = rb-Keeps address c v in (pair-lt _ _, (rb-Keeps (u16 (address + 1)) _ first.1).1)

  pub push-IsValid : (value : ℕ) (c : R65c02 S) → IsValid c → IsValid (push value c).1
  unfolding push
  push-IsValid value c v =
      with_s-IsValid _ (wb-IsValid (u16 (bit_or 0x0100 c.s)) value c v) _ (u8-lt _)

  pub pop-Keeps : Keeps IsByte (pop {S = S})
  unfolding pop
  pop-Keeps c v = rb-Keeps _ _ (with_s-IsValid c v _ (u8-lt _))

  zero_word-Keeps : (pointer : ℕ) → Keeps IsWord (zero_word {S = S} pointer)
  unfolding zero_word
  zero_word-Keeps pointer c v =
      let first = rb-Keeps pointer c v in (pair-lt _ _, (rb-Keeps (u8 (pointer + 1)) _ first.1).1)

  pub effective-IsValid : (mode : Mode) (c : R65c02 S) → IsValid c → IsValid (effective mode c).1
  unfolding effective
  effective-IsValid m_immediate c v = with_pc-IsValid c v _ (u16-lt _)
  effective-IsValid m_zero c v = (fetch8-Keeps c v).1
  effective-IsValid m_zero_x c v = (fetch8-Keeps c v).1
  effective-IsValid m_zero_y c v = (fetch8-Keeps c v).1
  effective-IsValid m_absolute c v = (fetch16-Keeps c v).1
  effective-IsValid m_absolute_x c v = (fetch16-Keeps c v).1
  effective-IsValid m_absolute_y c v = (fetch16-Keeps c v).1
  effective-IsValid m_indirect_x c v = (zero_word-Keeps _ _ (fetch8-Keeps c v).1).1
  effective-IsValid m_indirect_y c v = (zero_word-Keeps _ _ (fetch8-Keeps c v).1).1
  effective-IsValid m_zero_indirect c v = (zero_word-Keeps _ _ (fetch8-Keeps c v).1).1

  pub operand-Keeps : (mode : Mode) → Keeps (λ r. r.0 < 256) (operand {S = S} mode)
  unfolding operand
  operand-Keeps mode c v = rb-Keeps _ _ (effective-IsValid mode c v)

  vectored : ℕ → ℕ → R65c02 S → R65c02 S
  vectored vector p c =
      let (target, c') = read16 vector (record c { p = u8 p }) in
      record c' { pc = target; waiting = false }

  vectored-IsValid : (vector p : ℕ) (c : R65c02 S) → IsValid c → IsValid (vectored vector p c)
  unfolding vectored
  vectored-IsValid vector p c v =
      let r = read16-Keeps vector _ (with_p-IsValid c v (u8 p) (u8-lt p)) in
      landed-IsValid _ r.1 _ r.0

  pub interrupt-IsValid :
      (vector : ℕ) (software : Bool) (c : R65c02 S)
      → IsValid c
      → IsValid (interrupt vector software c).1
  unfolding interrupt vectored
  interrupt-IsValid vector software c v =
      vectored-IsValid vector _ _
        (push-IsValid _ _ (push-IsValid _ _ (push-IsValid (u8 (c.pc >>> 8)) c v)))

  branch_to-IsValid : (base d : ℕ) (c : R65c02 S) → IsValid c → IsValid (branch_to base d c).1
  unfolding branch_to
  branch_to-IsValid base d c v = with_pc-IsValid c v _ (u16-lt _)

  pub branch-IsValid : (take : Bool) (c : R65c02 S) → IsValid c → IsValid (branch take c).1
  unfolding branch
  branch-IsValid true c v = branch_to-IsValid 3 _ _ (fetch8-Keeps c v).1
  branch-IsValid false c v = (fetch8-Keeps c v).1

  taken-IsValid :
      (take : Bool) (d : ℕ) (c : R65c02 S)
      → IsValid c
      → IsValid ((if take then branch_to 7 d else ret 5) c).1
  taken-IsValid true d c v = branch_to-IsValid 7 d c v
  taken-IsValid false d c v = v

  pub bit_branch-IsValid : (opcode : ℕ) (c : R65c02 S) → IsValid c → IsValid (bit_branch opcode c).1
  unfolding bit_branch
  bit_branch-IsValid opcode c v =
      let first = fetch8-Keeps c v in
      let second = fetch8-Keeps _ first.1 in taken-IsValid _ _ _ (rb-Keeps _ _ second.1).1

  pub invalid_nop-IsValid :
      (opcode : ℕ) (c : R65c02 S) → IsValid c → IsValid (invalid_nop opcode c).1
  unfolding invalid_nop
  invalid_nop-IsValid opcode c v = ground (arith, (fetch8-Keeps c v).1, (fetch16-Keeps c v).1, v)
