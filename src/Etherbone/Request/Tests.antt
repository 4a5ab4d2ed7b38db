-- ===== src/Etherbone/Request/Tests.antt =====
-- Long packets.
use bpm_gw.Base.{ℕ, ◌≡◌, refl, true, false, some, none, [], ◌∷◌, arith, get_or}
use bpm_gw.Etherbone.{Buffer, Responder, user_recv, send_echo}
use bpm_gw.Etherbone.Request.{IpPacket, send_echo-user_recv}

-- The headers of a broadcast packet for 192.168.3.2 with an IP length of `high * 256`.
abbrev packet : ℕ → ℕ → Buffer
packet high protocol j =
    get_or
      (0xff ∷ 0xff ∷ 0xff ∷ 0xff ∷ 0xff ∷ 0xff ∷ 2 ∷ 0 ∷ 0 ∷ 0 ∷ 0 ∷ 1 ∷ 0x08 ∷ 0x00 ∷ 0x45 ∷ 0
        ∷ high ∷ 0 ∷ 0 ∷ 0 ∷ 0 ∷ 0 ∷ 64 ∷ protocol ∷ 0 ∷ 0 ∷ 192 ∷ 168 ∷ 3 ∷ 1 ∷ 192 ∷ 168 ∷ 3 ∷ 2
        ∷ 0x08 ∷ [])
      j 0

abbrev quiet : Responder
quiet = record {
  saw_arp = false;
  saw_ping = false;
  his_body_len = 0;
  his_ip = λ j. 0;
  his_mac = λ j. 0;
  his_body = λ j. 0;
}

echo_packet : IpPacket (packet 2 0x01) 512 0x01
echo_packet = record { to_us = refl; is_ip_packet = refl; length = refl; protocol_is = refl }

send_echo-user_recv_example :
    (s' : Responder) × (user_recv (λ b n. b) (packet 2 0x01) quiet ≡ some (s', []))
    × (s'.saw_ping ≡ true)
    × (send_echo (λ j. 0) s' ≡ none)
send_echo-user_recv_example =
    send_echo-user_recv (λ b n. b) (packet 2 0x01) (λ j. 0) 512 quiet echo_packet refl (omega arith)
      (omega arith)
