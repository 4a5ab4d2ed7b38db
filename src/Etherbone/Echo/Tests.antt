-- ===== src/Etherbone/Echo/Tests.antt =====
-- The reply to an echo request of 33 bytes.
use bpm_gw.Base.{◌+◌, ◌/◌, ◌≡◌, true, false, some, ◌++◌, arith}
use bpm_gw.Etherbone.{Responder, Frame, my_mac, checksum, send_echo}
use bpm_gw.Etherbone.Padding.{slice}
use bpm_gw.Etherbone.Echo.{Known, send_echo-checksums}

abbrev pinged : Responder
pinged = record {
  saw_arp = false;
  saw_ping = true;
  his_body_len = 33;
  his_ip = λ j. 7;
  his_mac = λ j. 9;
  his_body = λ j. 0xAB;
}

pinged-Known : Known pinged
pinged-Known = record { mac = λ j. omega arith; ip = λ j. omega arith; body = λ j. omega arith }

send_echo-checksums_example :
    (s' : Responder) × (f : Frame) × (send_echo (λ j. 0x55) pinged ≡ some (s', f))
    × (s'.saw_ping ≡ false)
    × (f.size ≡ 33 + 38)
    × (slice f.bytes 0 12 ≡ slice (λ j. 9) 0 6 ++ my_mac)
    × (checksum f.bytes 14 10 ≡ 0)
    × (checksum f.bytes 34 ((33 + 4 + 1) / 2) ≡ 0)
send_echo-checksums_example =
    send_echo-checksums (λ j. 0x55) pinged (λ j. omega arith) pinged-Known (omega arith)
