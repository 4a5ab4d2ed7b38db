-- ===== src/Etherbone/Request.antt =====
-- Received IP packets in history/embedded-sw/lib/ethmac/etherbone.c that are longer than the buffers.
mod Tests
use bpm_gw.Base.{
  ℕ, suc, ◌+◌, ◌-◌, ◌*◌, ◌%◌, ◌^◌, ◌≤◌, ◌<◌, ◌≡◌, refl, true, false, not, ◌&&◌, ◌||◌, Bool, Option,
  some, none, List, [], ◌∷◌, bit_or, arith, ◌==◌, ltb, leb, if◌then◌else◌, ap, ◌∙◌, sym,
}
use bpm_gw.Etherbone.{
  Buffer, Responder, Frame, all_mac, my_mac, same_at, is_arp_request, is_ip, recv_arp, recv_udp,
  recv_echo, user_recv, send_echo, copy, copy_into,
}
use bpm_gw.Etherbone.Arp.{not_for_us}

-- `d` is an IP packet for us with this length and protocol.
pub record IpPacket (d : Buffer) (iplen protocol : ℕ) : Type 0 where
  pub to_us : (same_at d 0 all_mac || same_at d 0 my_mac) ≡ true
  pub is_ip_packet : is_ip d ≡ true
  pub length : bit_or (d 16 * 2 ^ 8) (d 17) ≡ iplen
  pub protocol_is : d 23 ≡ protocol

ip_not_arp : (d : Buffer) → is_ip d ≡ true → is_arp_request d ≡ false
ip_not_arp d h = ground (arith, h)

-- An IP packet for us goes to the two services.
pub user_recv-IpPacket :
    (core : Buffer → ℕ → Buffer) (d : Buffer) (iplen protocol : ℕ) (s : Responder)
    → IpPacket d iplen protocol
    → user_recv core d s ≡ recv_udp core d iplen (recv_echo d iplen s)
unfolding user_recv recv_arp
user_recv-IpPacket core d iplen protocol s p =
    rw
      (
        not_for_us (same_at d 0 all_mac) (same_at d 0 my_mac) p.to_us,
        p.is_ip_packet,
        ip_not_arp d p.is_ip_packet,
        p.length,
      )
      refl

-- An ICMP echo request for us with an IP length from 487 to 1540 is accepted, and the reply to it then
-- writes past the end of the array on the stack of `sendECHO`.
pub send_echo-user_recv :
    (core : Buffer → ℕ → Buffer) (d buf : Buffer) (iplen : ℕ) (s : Responder)
    → IpPacket d iplen 0x01
    → d 34 ≡ 0x08
    → 487 ≤ iplen
    → iplen ≤ 1540
    → (s' : Responder) × (user_recv core d s ≡ some (s', []))
      × (s'.saw_ping ≡ true)
      × (send_echo buf s' ≡ none)
unfolding recv_echo recv_udp send_echo copy_into
send_echo-user_recv core d buf iplen s p echo long short =
    let len : (iplen + 2 ^ 32 - 24) % 2 ^ 32 ≡ iplen - 24 = omega (arith, long, short) in
    let accepted : leb (iplen - 24) 1516 ≡ true = ground (arith, long, short) in
    let over : ltb 500 (38 + (iplen - 24)) ≡ true = ground (arith, long) in
    (
      recv_echo d iplen s,
      user_recv-IpPacket core d iplen 0x01 s p ∙ rw p.protocol_is refl,
      rw (p.protocol_is, echo, len, accepted) refl,
      rw (p.protocol_is, echo, len, accepted, over) refl,
    )

-- A UDP packet for us with an IP length of more than 1500 is copied past the end of `hisBody`.
pub user_recv-overrun :
    (core : Buffer → ℕ → Buffer) (d : Buffer) (iplen : ℕ) (s : Responder)
    → IpPacket d iplen 0x11
    → 1500 < iplen
    → user_recv core d s ≡ none
unfolding recv_udp copy_into
user_recv-overrun core d iplen s p long =
    let over : ltb 1516 (16 + iplen) ≡ true = ground (arith, long) in
    user_recv-IpPacket core d iplen 0x11 s p ∙ rw (p.protocol_is, over) refl
