-- ===== src/Etherbone/Echo.antt =====
-- The answer to ICMP echo requests in history/embedded-sw/lib/ethmac/etherbone.c.
mod Tests
use bpm_gw.Base.{
  ℕ, zero, suc, ◌+◌, ◌-◌, ◌*◌, ◌/◌, ◌%◌, ◌^◌, ◌≤◌, ◌<◌, ◌≡◌, ◌≢◌, refl, sym, ap, ap₂, ◌∙◌, Bool,
  true, false, not, ◌&&◌, Option, none, some, List, [], ◌∷◌, ◌++◌, All, bit_and, arith, ◌==◌, ltb,
  leb, ==_ne, inl, inr, Bool-cases, if◌then◌else◌, ◌>>=◌,
}
use bpm_gw.Base.Bits.{bit_and_mask}
use bpm_gw.Etherbone.{
  Buffer, Responder, Frame, store, copy, copy_into, put, word, checksum, sum_loop, fold, store_word,
  my_mac, my_ip, echo_header, pad, seal, send_echo,
}
use bpm_gw.Etherbone.Checksum.{Bytes, store_word-other, checksum-verifies}
use bpm_gw.Etherbone.Padding.{slice}

Bytes-store : (m : Buffer) (a v : ℕ) → Bytes m → v < 2 ^ 8 → Bytes (store m a v)
Bytes-store m a v b h j = elim (Bool-cases (j == a)) [
  | inl here ↦ rw here h
  | inr other ↦ rw other (b j)
]

Bytes-put :
    (m : Buffer) (a : ℕ) (vs : List ℕ) → Bytes m → All (λ v. v < 2 ^ 8) vs → Bytes (put m a vs)
Bytes-put m a [] b h = b
Bytes-put m a (v ∷ vs) b h = Bytes-put (store m a v) (suc a) vs (Bytes-store m a v b h.0) h.1

pub Bytes-copy :
    (m : Buffer) (a : ℕ) (src : Buffer) (k n : ℕ) → Bytes m → Bytes src → Bytes (copy m a src k n)
Bytes-copy m a src k n b c j = elim (Bool-cases (leb a j && ltb j (a + n))) [
  | inl inside ↦ rw inside (c (k + (j - a)))
  | inr outside ↦ rw outside (b j)
]

Bytes-store_word : (m : Buffer) (a v : ℕ) → Bytes m → Bytes (store_word m a v)
Bytes-store_word m a v b =
    let low : bit_and v 0xFF < 2 ^ 8 = omega (arith, bit_and_mask 8 v) in
    Bytes-store (store m a (v / 2 ^ 8 % 2 ^ 8)) (suc a) (bit_and v 0xFF)
      (Bytes-store m a (v / 2 ^ 8 % 2 ^ 8) b (omega arith)) low

pub record Known (s : Responder) : Type 0 where
  pub mac : Bytes s.his_mac
  pub ip : Bytes s.his_ip
  pub body : Bytes s.his_body

-- The bytes from the Ethernet type to the checksum of the IP header.
abbrev start_of_header : ℕ → List ℕ
start_of_header len =
    0x08
    ∷ 0x00
    ∷ 0x45
    ∷ 0
    ∷ len / 2 ^ 8 % 2 ^ 8
    ∷ bit_and len 0xFF
    ∷ 0
    ∷ 0
    ∷ 0
    ∷ 0
    ∷ 63
    ∷ 1
    ∷ 0
    ∷ 0
    ∷ []

Bytes-echo_header : (buf : Buffer) (s : Responder) → Bytes buf → Known s → Bytes (echo_header buf s)
unfolding echo_header
Bytes-echo_header buf s b k =
    let len = (s.his_body_len + 24) % 2 ^ 32 in
    let low : bit_and len 0xFF < 2 ^ 8 = omega (arith, bit_and_mask 8 len) in
    let b1 =
      Bytes-put (copy buf 0 s.his_mac 0 6) 6 my_mac (Bytes-copy buf 0 s.his_mac 0 6 b k.mac)
        (grind arith) in
    let b2 =
      Bytes-put (put (copy buf 0 s.his_mac 0 6) 6 my_mac) 12 (start_of_header len) b1
        (grind (arith, low)) in
    let with_start = put (put (copy buf 0 s.his_mac 0 6) 6 my_mac) 12 (start_of_header len) in
    let b3 =
      Bytes-copy (put with_start 26 my_ip) 30 s.his_ip 0 4
        (Bytes-put with_start 26 my_ip b2 (grind arith)) k.ip in
    Bytes-put (copy (put with_start 26 my_ip) 30 s.his_ip 0 4) 34 (0 ∷ 0 ∷ 0 ∷ 0 ∷ []) b3
      (grind arith)

-- The body and its padding leave the headers alone.
record Padded (m : Buffer) (len : ℕ) : Type 0 where
  out : Buffer
  returns : pad len m ≡ some out
  bytes : Bytes out
  same : (j : ℕ) → j < 38 → out j ≡ m j

pad-Padded : (m : Buffer) (len : ℕ) → Bytes m → len ≤ 462 → Padded m len
unfolding pad
pad-Padded m len b h = elim (Bool-cases (bit_and len 1 == 0)) [
  | inl even ↦ record { out = m; returns = rw even refl; bytes = b; same = λ j k. refl }
  | inr odd ↦
      let mask = bit_and_mask 1 len in
      let room : ltb (38 + len) 500 ≡ true = ground (arith, h, odd, mask) in
      record {
        out = store m (38 + len) 0;
        returns = rw (odd, room) refl;
        bytes = Bytes-store m (38 + len) 0 b (omega arith);
        same = λ j k. rw (==_ne j (38 + len) (λ e. omega (arith, e, k))) refl;
      }
]

sum_loop-frame :
    (m m' : Buffer) (a n sum : ℕ)
    → ((j : ℕ) → a ≤ j → m' j ≡ m j)
    → sum_loop m' a n sum ≡ sum_loop m a n sum
unfolding sum_loop
sum_loop-frame m m' a zero sum same = refl
sum_loop-frame m m' a (suc n) sum same =
    let next : word m' a ≡ word m a =
      omega (arith, same a (omega arith), same (suc a) (omega arith)) in
    ap (λ (w : ℕ). sum_loop m' (suc (suc a)) n ((sum + w) % 2 ^ 32)) next
    ∙ sum_loop-frame m m' (suc (suc a)) n ((sum + word m a) % 2 ^ 32)
        λ j h. same j (omega (arith, h))

slice-agree :
    (m m' : Buffer) (a n : ℕ) → ((j : ℕ) → j < a + n → m j ≡ m' j) → slice m a n ≡ slice m' a n
slice-agree m m' a zero same = refl
slice-agree m m' a (suc n) same =
    ap₂ (λ (x : ℕ) (l : List ℕ). x ∷ l) (same a (omega arith))
      (slice-agree m m' (suc a) n λ j h. same j (omega (arith, h)))

-- The two checksums of a frame whose checksum fields are zero before.
seal-checksums :
    (len : ℕ) (m : Buffer)
    → len ≤ 462
    → Bytes m
    → word m 36 ≡ 0
    → word m 24 ≡ 0
    → (checksum (seal len m) 14 10 ≡ 0) × (checksum (seal len m) 34 ((len + 4 + 1) / 2) ≡ 0)
unfolding seal checksum
seal-checksums len m h b z36 z24 =
    let n = (len + 4 + 1) / 2 in
    let m' = store_word m 36 (checksum m 34 n) in
    let m'' = store_word m' 24 (checksum m' 14 10) in
    (
      checksum-verifies m' 14 10 5 24 (Bytes-store_word m 36 (checksum m 34 n) b) (omega arith)
          (omega arith) refl z24,
      ap fold (
            sum_loop-frame m' m'' 34 n 0 λ j k.
              store_word-other m' 24 (checksum m' 14 10) j (λ e. omega (arith, e, k))
                (λ e. omega (arith, e, k)))
          ∙ checksum-verifies m 34 n 1 36 b (omega (arith, h)) (omega arith) refl z36,
    )

-- Where the body of the request has at most 462 bytes, `sendECHO` sends a frame of that length and 38
-- bytes, from us to the requester's hardware address, in which the checksum over the IP header and the
-- checksum over the ICMP message, padded to whole words, are both zero.
pub send_echo-checksums :
    (buf : Buffer) (s : Responder)
    → Bytes buf
    → Known s
    → s.his_body_len ≤ 462
    → (s' : Responder) × (f : Frame) × (send_echo buf s ≡ some (s', f))
      × (s'.saw_ping ≡ false)
      × (f.size ≡ s.his_body_len + 38)
      × (slice f.bytes 0 12 ≡ slice s.his_mac 0 6 ++ my_mac)
      × (checksum f.bytes 14 10 ≡ 0)
      × (checksum f.bytes 34 ((s.his_body_len + 4 + 1) / 2) ≡ 0)
unfolding send_echo copy_into echo_header seal
send_echo-checksums buf s b k h =
    let fits : ltb 500 (38 + s.his_body_len) ≡ false = ground (arith, h) in
    let m = copy (echo_header buf s) 38 s.his_body 0 s.his_body_len in
    let header = Bytes-echo_header buf s b k in
    let p =
      pad-Padded m s.his_body_len
        (Bytes-copy (echo_header buf s) 38 s.his_body 0 s.his_body_len header k.body) h in
    let sums =
      seal-checksums s.his_body_len p.out h p.bytes
        (omega (arith, p.same 36 (omega arith), p.same 37 (omega arith)))
        (omega (arith, p.same 24 (omega arith), p.same 25 (omega arith))) in
    (
      record s { saw_ping = false },
      record { bytes = seal s.his_body_len p.out; size = s.his_body_len + 38 },
      rw (fits, p.returns) refl,
      refl,
      refl,
      slice-agree p.out m 0 12 (λ j e. p.same j (omega (arith, e))),
      sums.0,
      sums.1,
    )
