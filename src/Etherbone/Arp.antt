-- ===== src/Etherbone/Arp.antt =====
-- The answer to ARP requests in history/embedded-sw/lib/ethmac/etherbone.c.
use bpm_gw.Base.{ℕ, ◌≡◌, refl, true, false, not, ◌&&◌, ◌||◌, Bool, some, [], ◌∷◌, ◌++◌, arith}
use bpm_gw.Etherbone.{
  Buffer, Responder, all_mac, my_mac, my_ip, same_at, is_arp_request, is_ip, recv_arp, user_recv,
  send_arp,
}
use bpm_gw.Etherbone.Padding.{slice}

pub not_for_us : (a b : Bool) → (a || b) ≡ true → (not a && not b) ≡ false
not_for_us true b h = refl
not_for_us false true h = refl
not_for_us false false h = cc

-- An ARP request is no IP packet.
arp_not_ip : (d : Buffer) → is_arp_request d ≡ true → is_ip d ≡ false
arp_not_ip d h = ground (arith, h)

-- After an ARP request for our address, to all or to us, the reply goes to the hardware address of the
-- request's sender, is an ARP reply with our addresses as the sender's, and has the addresses of the
-- request's sender as the target's.
pub send_arp-user_recv :
    (core : Buffer → ℕ → Buffer) (d buf : Buffer) (s : Responder)
    → (same_at d 0 all_mac || same_at d 0 my_mac) ≡ true
    → is_arp_request d ≡ true
    → (s' : Responder) × (user_recv core d s ≡ some (s', []))
      × (s'.saw_arp ≡ true)
      × ((send_arp buf s').0.saw_arp ≡ false)
      × (slice (send_arp buf s').1.bytes 0 42
          ≡ slice d 22 6
            ++ (my_mac
                ++ (0x08 ∷ 0x06 ∷ 0 ∷ 1 ∷ 8 ∷ 0 ∷ 6 ∷ 4 ∷ 0 ∷ 2 ∷ [])
                ++ (my_mac ++ (my_ip ++ slice d 22 10))))
unfolding user_recv recv_arp send_arp
send_arp-user_recv core d buf s us arp = (
  recv_arp d s,
  rw (not_for_us (same_at d 0 all_mac) (same_at d 0 my_mac) us, arp_not_ip d arp) refl,
  rw arp refl,
  refl,
  rw arp refl,
)
