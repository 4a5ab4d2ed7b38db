-- ===== src/Ethmac/Tests.antt =====
-- The rings of history/embedded-sw/lib/ethmac/ethmac.c at concrete frames.
use bpm_gw.Base.{
  ℕ, ◌+◌, ◌*◌, ◌^◌, ◌<◌, ◌≡◌, refl, true, false, some, List, [], ◌∷◌, pos, negsuc, ◌==◌, arith,
}
use bpm_gw.Ethmac.{
  Ethmac, Descriptor, clear, in_use, submit, setup_buffers, setup_loop, sent_status, oeth_tx,
  reap_loop, tx_packet, oeth_check_rx_bd, rx_packet, tx_bd_ready, read_bytes, num_tx_ready_bd,
  count_ready, wait_for_tx_bd_clear,
}
use bpm_gw.Ethmac.Flags.{test-clear_self}
use bpm_gw.Ethmac.Frames.{IsValid, frame, is_ready, setup_buffers-IsValid}
use bpm_gw.Ethmac.Steps.{send, interrupt, here, next, after_receiving}
use bpm_gw.Ethmac.Sending.{now, still, setup_buffers-Reach, submit-Pending}
use bpm_gw.Ethmac.Waiting.{turn, tx_packet-frame}
use bpm_gw.Ethmac.Receiving.{rx_packet-tx_bd}

abbrev unset : ℕ → Descriptor
unset i = record { len_status = 0; addr = 0 }

abbrev powered : Ethmac
powered = record {
  tx_next = 0;
  rx_cur = 0;
  buf = 0x10000;
  tx_bd = unset;
  rx_bd = unset;
  memory = λ j. 0;
}

abbrev hello : List ℕ
hello = 104 ∷ 105 ∷ 33 ∷ []

abbrev room : 0x10000 + 32768 < 2 ^ 32
room = omega arith

start_free : in_use (setup_buffers powered) ≡ false
unfolding setup_buffers setup_loop
start_free = refl

abbrev sending : Ethmac
sending = submit hello (setup_buffers powered)

sending_ready : is_ready (oeth_tx sending) 0 ≡ true
unfolding submit setup_buffers setup_loop oeth_tx reap_loop sent_status
sending_ready = refl

setup_buffers-Reach_example : IsValid 0x10000 (oeth_tx sending)
setup_buffers-Reach_example = setup_buffers-Reach powered refl refl room (
    next (next here (send (setup_buffers powered) hello (omega arith) start_free))
      (interrupt sending))

submit-Pending_example : frame (oeth_tx sending) 0 ≡ hello
unfolding setup_buffers
submit-Pending_example =
    submit-Pending powered refl refl room {s = setup_buffers powered} hello here start_free
      (omega arith) (still now (interrupt sending) sending_ready)

-- A core that sends at once, with the interrupt handled after the third poll.
abbrev quick : ℕ → Ethmac → Ethmac
quick n s = record s {
  tx_bd = λ j. record (s.tx_bd j) { len_status = clear (s.tx_bd j).len_status tx_bd_ready };
}

-- the next descriptor is still in use
abbrev busy : Ethmac
busy = record powered { tx_bd = λ j. record { len_status = 0xc800; addr = 0x10000 + j * 2048 } }

tx_packet-frame_example :
    (t : Ethmac) × (tx_packet (turn quick (λ n. n == 2)) 4 0 hello busy ≡ some t)
    × (is_ready t 0 ≡ true)
    × (frame t 0 ≡ hello)
tx_packet-frame_example =
    tx_packet-frame quick (λ n. n == 2) 0 2 (λ n s. refl)
      (λ n s h. test-clear_self (s.tx_bd s.tx_next).len_status tx_bd_ready tx_bd_ready refl)
      (omega arith) refl 4 hello busy (omega arith) (omega arith) (omega arith)

two_left : num_tx_ready_bd busy ≡ 8
unfolding num_tx_ready_bd count_ready
two_left = refl

waits_at_once : wait_for_tx_bd_clear (λ n s. s) 1 0 (negsuc 4) busy ≡ some busy
unfolding wait_for_tx_bd_clear count_ready
waits_at_once = refl

-- a frame of three bytes in the descriptor 0, with no error, and one with a bad checksum
abbrev arrived : Ethmac
arrived = after_receiving 0 0x34000 hello (setup_buffers powered)

abbrev damaged : Ethmac
damaged = after_receiving 0 0x34002 hello (setup_buffers powered)

damaged_refused : (oeth_check_rx_bd damaged).0 ≡ negsuc 0
unfolding setup_buffers setup_loop oeth_check_rx_bd
damaged_refused = refl

rx_packet-tx_bd_example :
    (t : Ethmac) × (oeth_check_rx_bd arrived ≡ (pos 3, t))
    × ((rx_packet 3 t).0 ≡ read_bytes (λ j. 0) ((setup_buffers powered).tx_bd 0).addr 3)
unfolding setup_buffers setup_loop
rx_packet-tx_bd_example =
    rx_packet-tx_bd 0x10000 (setup_buffers powered) 0 0x34000 hello
      (setup_buffers-IsValid powered refl refl room) (omega arith) (λ l h. absurd (omega arith))
      (omega arith) refl refl refl
