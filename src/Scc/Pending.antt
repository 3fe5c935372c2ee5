-- ===== src/Scc/Pending.antt =====
-- What the interrupts that are pending give: the line, the bits, the vector.
use open_mac_for_linux.Base.{ℕ, bit_and, bit_or, Bool, ◌&&◌, ◌||◌, ◌≡◌, ◌!=◌, arith}
use open_mac_for_linux.Scc.{Scc8530, mark, pending_bits, irq_asserted}

-- The bits of six conditions, and whether one of them holds.
bits_of_six : (p q r s t u : Bool) → ℕ
bits_of_six p q r s t u =
    bit_or (bit_or (bit_or (mark p 0x01) (mark q 0x02)) (bit_or (mark r 0x04) (mark s 0x08)))
      (bit_or (mark t 0x10) (mark u 0x20))

six : (p q r s t u : Bool) → ((p || (q || r)) || (s || (t || u))) ≡ (bits_of_six p q r s t u != 0)
unfolding bits_of_six
six p q r s t u = ground arith

-- The interrupt line is asserted exactly when interrupts are enabled and the register that channel A reads
-- the pending interrupts in is not zero.
pub irq_asserted_lem :
    (s : Scc8530) → irq_asserted s ≡ (bit_and s.wr9 0x08 != 0 && pending_bits s != 0)
unfolding irq_asserted pending_bits bits_of_six
irq_asserted_lem s =
    ground (arith, six s.b.ext_ip s.b.tx_ip s.b.rx_ip s.a.ext_ip s.a.tx_ip s.a.rx_ip)
