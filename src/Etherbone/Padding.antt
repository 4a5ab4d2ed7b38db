-- ===== src/Etherbone/Padding.antt =====
-- The reply to an Etherbone request in history/embedded-sw/lib/ethmac/etherbone.c.
use bpm_gw.Base.{ℕ, zero, suc, ◌+◌, ◌≤◌, ◌≡◌, refl, false, some, List, [], ◌∷◌, arith, ltb}
use bpm_gw.Etherbone.{Buffer, Responder, Frame, copy, copy_into, shift_loop, recv_udp}

-- The bytes of a buffer from an offset on.
abbrev pub slice : Buffer → ℕ → ℕ → List ℕ
slice m a zero = []
slice m a (suc n) = m a ∷ slice m (suc a) n

-- The body with a request in it, as it is handed to the core.
abbrev pub request_body : Buffer → ℕ → Responder → Buffer
request_body d iplen s = copy (copy s.his_body 0 d 0 14) 16 (λ j. d (14 + j)) 0 iplen

-- The reply to an Etherbone request that fits begins with the first eleven bytes of the body that the
-- core leaves, and goes on with the bytes from 13 on: the twelfth byte of the Ethernet header is
-- left out, and the two bytes of padding behind the header are sent in the place of its last two.
pub recv_udp-header :
    (core : Buffer → ℕ → Buffer) (d : Buffer) (iplen : ℕ) (s : Responder)
    → d 23 ≡ 0x11
    → iplen ≤ 1500
    → (s' : Responder) × (f : Frame) × (recv_udp core d iplen s ≡ some (s', f ∷ []))
      × (slice f.bytes 0 11 ≡ slice (core (request_body d iplen s) (iplen + 16)) 0 11)
      × (slice f.bytes 11 5 ≡ slice (core (request_body d iplen s) (iplen + 16)) 13 5)
unfolding recv_udp copy_into shift_loop
recv_udp-header core d iplen s udp small =
    let fits : ltb 1516 (16 + iplen) ≡ false = ground (arith, small) in
    let b' = shift_loop 11 (core (request_body d iplen s) (iplen + 16)) in
    (
      record s { his_body = b' },
      record { bytes = λ j. b' (2 + j); size = iplen + 14 },
      rw (udp, fits) refl,
      refl,
      refl,
    )
