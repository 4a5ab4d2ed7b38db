-- ===== src/Etherbone/Answer/Tests.antt =====
-- A request from the hardware address 02:00:00:00:00:01 with four bytes behind its header, which comes
-- while the next transmit descriptor is still in use. The core sends at once, and its interrupt is handled
-- after the third poll.
use bpm_gw.Base.{
  ℕ, ◌+◌, ◌*◌, ◌≡◌, refl, true, false, some, List, [], ◌∷◌, ◌++◌, ◌==◌, arith, get_or, bit_and,
}
use bpm_gw.Base.Bits.{bit_and_mask}
use bpm_gw.Etherbone.{Buffer, Responder, Frame, my_mac, checksum, user_recv, send_echo}
use bpm_gw.Etherbone.Checksum.{Bytes}
use bpm_gw.Etherbone.Padding.{slice}
use bpm_gw.Etherbone.Echo.{Known}
use bpm_gw.Etherbone.Request.{IpPacket}
use bpm_gw.Etherbone.Answer.{user_recv-tx_packet}
use bpm_gw.Ethmac.{Ethmac, tx_packet, clear, tx_bd_ready}
use bpm_gw.Ethmac.Flags.{test-clear_self}
use bpm_gw.Ethmac.Frames.{frame, is_ready}
use bpm_gw.Ethmac.Waiting.{turn}

abbrev echo_bytes : List ℕ
echo_bytes =
    0xff ∷ 0xff ∷ 0xff ∷ 0xff ∷ 0xff ∷ 0xff ∷ 2 ∷ 0 ∷ 0 ∷ 0 ∷ 0 ∷ 1 ∷ 0x08 ∷ 0x00 ∷ 0x45 ∷ 0 ∷ 0
    ∷ 28 ∷ 0 ∷ 0 ∷ 0 ∷ 0 ∷ 64 ∷ 0x01 ∷ 0 ∷ 0 ∷ 192 ∷ 168 ∷ 3 ∷ 1 ∷ 192 ∷ 168 ∷ 3 ∷ 2 ∷ 0x08 ∷ 0
    ∷ 0xf7 ∷ 0xff ∷ 0xab ∷ 0xcd ∷ 0xef ∷ 0x01 ∷ []

abbrev echo : Buffer
echo j = bit_and (get_or echo_bytes j 0) 0xff

echo-Bytes : Bytes echo
echo-Bytes j = omega (arith, bit_and_mask 8 (get_or echo_bytes j 0))

echo-IpPacket : IpPacket echo 28 0x01
echo-IpPacket = record { to_us = refl; is_ip_packet = refl; length = refl; protocol_is = refl }

abbrev listening : Responder
listening = record {
  saw_arp = false;
  saw_ping = false;
  his_body_len = 0;
  his_ip = λ j. 0;
  his_mac = λ j. 0;
  his_body = λ j. 0;
}

listening-Known : Known listening
listening-Known = record { mac = λ j. omega arith; ip = λ j. omega arith; body = λ j. omega arith }

abbrev sends : ℕ → Ethmac → Ethmac
sends n s = record s {
  tx_bd = λ j. record (s.tx_bd j) { len_status = clear (s.tx_bd j).len_status tx_bd_ready };
}

abbrev full : Ethmac
full = record {
  tx_next = 3;
  rx_cur = 0;
  buf = 0x10000;
  tx_bd = λ j. record { len_status = 0xc800; addr = 0x10000 + j * 2048 };
  rx_bd = λ j. record { len_status = 0; addr = 0 };
  memory = λ j. 0;
}

user_recv-tx_packet_example :
    (s1 : Responder) × (s2 : Responder) × (f : Frame) × (t : Ethmac) × (user_recv
        (λ b n. b)
        echo
        listening
      ≡ some (s1, []))
    × (s1.saw_ping ≡ true)
    × (send_echo (λ j. 0x55) s1 ≡ some (s2, f))
    × (tx_packet (turn sends (λ n. n == 2)) 4 0 (slice f.bytes 0 f.size) full ≡ some t)
    × (is_ready t 3 ≡ true)
    × (frame t 3 ≡ slice f.bytes 0 f.size)
    × (f.size ≡ 28 + 14)
    × (slice f.bytes 0 12 ≡ slice echo 6 6 ++ my_mac)
    × (checksum f.bytes 14 10 ≡ 0)
user_recv-tx_packet_example =
    user_recv-tx_packet (λ b n. b) echo (λ j. 0x55) 28 listening sends (λ n. n == 2) 0 2 4 full
      echo-IpPacket refl (omega arith) (omega arith) echo-Bytes (λ j. omega arith) listening-Known
      (λ n u. refl)
      (λ n u h. test-clear_self (u.tx_bd u.tx_next).len_status tx_bd_ready tx_bd_ready refl)
      (omega arith) refl (omega arith) (omega arith)
