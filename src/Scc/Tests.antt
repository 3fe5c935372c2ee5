-- ===== src/Scc/Tests.antt =====
-- A byte sent to an empty wire, and the controller's theorems at it.
use open_mac_for_linux.Base.{
  bit_and, true, false, [], ◌∷◌, ◌++◌, replicate, ◌≡◌, refl, ◌!=◌, ◌&&◌, arith,
}
use open_mac_for_linux.Scc.{Chan, Scc8530, reset, irq_asserted, pending_bits}
use open_mac_for_linux.Scc.Transmit.{
  writes, ticks, run, IsPaced, run-reset-ArePaced, tick_all, total, tick_all_reports,
}
use open_mac_for_linux.Scc.Pending.{irq_asserted_lem}

-- A channel with its last byte on the wire.
abbrev last_byte : Chan
last_byte = record {
  wr = 0 ∷ 1 ∷ (replicate 13 0 ++ (0xF8 ∷ []));
  tx_empty = true;
  underrun = false;
  underrun_armed = true;
  buf_full = false;
  shift_timer = 1150;
  feed_timer = 96;
  ext_ip = false;
  tx_ip = false;
  rx_ip = false;
  rr10 = 0;
  bytes_sent = 1;
}

abbrev controller : Scc8530
controller = record { b = last_byte; a = last_byte; ptr = 0; wr2 = 0; wr9 = 8; request_changes = 0 }

tick_all_reports_example :
    ((tick_all (500 ∷ 700 ∷ []) last_byte).underrun ≡ true)
    × ((tick_all (500 ∷ 700 ∷ []) last_byte).ext_ip ≡ true)
unfolding total
tick_all_reports_example =
    tick_all_reports (500 ∷ 700 ∷ []) last_byte refl refl (omega arith) refl refl (omega arith)

run-reset-ArePaced_example :
    let t = run (writes 4 0x55 ∷ writes 4 0xAA ∷ ticks 100 ∷ []) (reset controller) in
    IsPaced t.b × IsPaced t.a
run-reset-ArePaced_example =
    run-reset-ArePaced (writes 4 0x55 ∷ writes 4 0xAA ∷ ticks 100 ∷ []) controller

irq_asserted_lem_example :
    irq_asserted controller ≡ (bit_and controller.wr9 0x08 != 0 && pending_bits controller != 0)
irq_asserted_lem_example = irq_asserted_lem controller
