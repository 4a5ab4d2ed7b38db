-- ===== src/Etherbone/Answer.antt =====
-- From an echo request that is received to the reply in the hands of the Ethernet MAC: `user_recv` and
-- `sendECHO` of history/embedded-sw/lib/ethmac/etherbone.c, and `tx_packet` of lib/ethmac/ethmac.c.
mod Tests
use bpm_gw.Base.{
  ℕ, zero, suc, ◌+◌, ◌-◌, ◌*◌, ◌/◌, ◌%◌, ◌^◌, ◌≤◌, ◌<◌, ◌≡◌, refl, ap, ◌∙◌, sym, true, false, Bool,
  some, List, [], ◌∷◌, ◌++◌, length, leb, arith, if◌then◌else◌,
}
use bpm_gw.Etherbone.{
  Buffer, Responder, Frame, my_mac, copy, checksum, user_recv, recv_echo, recv_udp, send_echo,
}
use bpm_gw.Etherbone.Checksum.{Bytes}
use bpm_gw.Etherbone.Padding.{slice}
use bpm_gw.Etherbone.Echo.{Known, Bytes-copy, send_echo-checksums}
use bpm_gw.Etherbone.Request.{IpPacket, user_recv-IpPacket}
use bpm_gw.Ethmac.{Ethmac, tx_packet}
use bpm_gw.Ethmac.Frames.{frame, is_ready}
use bpm_gw.Ethmac.Waiting.{turn, tx_packet-frame}

length-slice : (b : Buffer) (a n : ℕ) → length (slice b a n) ≡ n
length-slice b a zero = refl
length-slice b a (suc n) = ap suc (length-slice b (suc a) n)

-- What an echo request leaves in the static variables.
abbrev pub pinged_by : Buffer → ℕ → Responder → Responder
pinged_by d iplen s = record s {
  his_body_len = iplen - 24;
  saw_ping = true;
  his_mac = copy s.his_mac 0 d 6 6;
  his_ip = copy s.his_ip 0 d 26 4;
  his_body = copy s.his_body 0 d 38 (iplen - 24);
}

user_recv-echo :
    (core : Buffer → ℕ → Buffer) (d : Buffer) (iplen : ℕ) (s : Responder)
    → IpPacket d iplen 0x01
    → d 34 ≡ 0x08
    → 24 ≤ iplen
    → iplen ≤ 486
    → user_recv core d s ≡ some (pinged_by d iplen s, [])
unfolding recv_echo recv_udp
user_recv-echo core d iplen s p echo low high =
    let len : (iplen + 2 ^ 32 - 24) % 2 ^ 32 ≡ iplen - 24 = omega (arith, low, high) in
    let accepted : leb (iplen - 24) 1516 ≡ true = ground (arith, high) in
    user_recv-IpPacket core d iplen 0x01 s p ∙ rw (p.protocol_is, echo, len, accepted) refl

pinged_by-Known :
    (d : Buffer) (iplen : ℕ) (s : Responder) → Bytes d → Known s → Known (pinged_by d iplen s)
pinged_by-Known d iplen s b k = record {
  mac = Bytes-copy s.his_mac 0 d 6 6 k.mac b;
  ip = Bytes-copy s.his_ip 0 d 26 4 k.ip b;
  body = Bytes-copy s.his_body 0 d 38 (iplen - 24) k.body b;
}

-- Where an echo request for us with an IP length from 24 to 486 is received, all buffers hold bytes, the
-- position in the ring is below 8 and the core does not move it, the core has sent every frame by the
-- poll `m`, its interrupt is handled after the poll `k`, which is `m` or a later one, and the fuel is
-- more than `k + 1`: `user_recv` notes the request, `sendECHO` then makes a frame, and `tx_packet` on it
-- ends with the frame in a descriptor that the core owns. The frame is as long as the request, it goes
-- to the hardware address that the request came from, and the checksum over its IP header is zero.
pub user_recv-tx_packet :
    (core : Buffer → ℕ → Buffer) (d buf : Buffer) (iplen : ℕ) (s : Responder)
    (mac : ℕ → Ethmac → Ethmac) (raised : ℕ → Bool) (m k fuel : ℕ) (e : Ethmac)
    → IpPacket d iplen 0x01
    → d 34 ≡ 0x08
    → 24 ≤ iplen
    → iplen ≤ 486
    → Bytes d
    → Bytes buf
    → Known s
    → ((n : ℕ) (u : Ethmac) → (mac n u).tx_next ≡ u.tx_next)
    → ((n : ℕ) (u : Ethmac) → m ≤ n → is_ready (mac n u) u.tx_next ≡ false)
    → m ≤ k
    → raised k ≡ true
    → e.tx_next < 8
    → k + 1 < fuel
    → (s1 : Responder) × (s2 : Responder) × (f : Frame) × (t : Ethmac) × (user_recv core d s
        ≡ some (s1, []))
      × (s1.saw_ping ≡ true)
      × (send_echo buf s1 ≡ some (s2, f))
      × (tx_packet (turn mac raised) fuel 0 (slice f.bytes 0 f.size) e ≡ some t)
      × (is_ready t e.tx_next ≡ true)
      × (frame t e.tx_next ≡ slice f.bytes 0 f.size)
      × (f.size ≡ iplen + 14)
      × (slice f.bytes 0 12 ≡ slice d 6 6 ++ my_mac)
      × (checksum f.bytes 14 10 ≡ 0)
user_recv-tx_packet core d buf iplen s mac raised m k fuel e p echo low high b free known keeps done
      after told next enough =
    let s1 = pinged_by d iplen s in
    let (s2, f, sent, quiet, size, addresses, header, body) =
      send_echo-checksums buf s1 free (pinged_by-Known d iplen s b known) (omega arith) in
    let small : length (slice f.bytes 0 f.size) ≤ 2048 =
      omega (arith, length-slice f.bytes 0 f.size, size) in
    let (t, queued, ready, same) =
      tx_packet-frame mac raised m k keeps done after told fuel (slice f.bytes 0 f.size) e next
        small enough in
    (
      s1,
      s2,
      f,
      t,
      user_recv-echo core d iplen s p echo low high,
      refl,
      sent,
      queued,
      ready,
      same,
      omega (arith, size),
      addresses,
      header,
    )
