-- ===== src/Etherbone.antt =====
-- history/embedded-sw/lib/ethmac/etherbone.c: the answers to ARP and ICMP echo requests.
-- The LM32 is big-endian. A buffer is a function from offsets to bytes, and a copy that would leave
-- its array is `none`. `tx_packet` is the Ethernet MAC driver: a call hands over a frame.
pub mod Checksum
pub mod Echo
pub mod Arp
pub mod Padding
pub mod Request
pub mod Answer
use bpm_gw.Base.{
  ℕ, zero, suc, ◌+◌, ◌-◌, ◌*◌, ◌/◌, ◌%◌, ◌^◌, Bool, true, false, not, ◌&&◌, ◌||◌, Option, none,
  some, List, [], ◌∷◌, bit_and, bit_or, ◌==◌, ltb, leb, if◌then◌else◌, ◌>>=◌,
}

abbrev pub Buffer : Type 0
Buffer = ℕ → ℕ

abbrev pub store : Buffer → ℕ → ℕ → Buffer
store m a v j = if j == a then v else m j

-- `memcpy(dst + a, src + b, n)`, where the bytes fit
abbrev pub copy : Buffer → ℕ → Buffer → ℕ → ℕ → Buffer
copy m a src b n j = if leb a j && ltb j (a + n) then src (b + (j - a)) else m j

-- `memcpy` into an array of `size` bytes
unfoldable pub copy_into : ℕ → Buffer → ℕ → Buffer → ℕ → Option Buffer
copy_into size m a src n = if ltb size (a + n) then none else some (copy m a src 0 n)

-- an `unsigned short` in memory
abbrev pub word : Buffer → ℕ → ℕ
word m a = m a * 2 ^ 8 + m (suc a)

unfoldable pub sum_loop : Buffer → ℕ → ℕ → ℕ → ℕ
sum_loop m a zero sum = sum
sum_loop m a (suc n) sum = sum_loop m (suc (suc a)) n ((sum + word m a) % 2 ^ 32)

abbrev pub fold : ℕ → ℕ
fold sum =
    let once = (sum / 2 ^ 16 + bit_and sum 0xFFFF) % 2 ^ 32 in
    let twice = (once + once / 2 ^ 16) % 2 ^ 32 in bit_and (2 ^ 32 - 1 - twice) 0xFFFF

unfoldable pub checksum : Buffer → ℕ → ℕ → ℕ
unfolding sum_loop
checksum m a shorts = fold (sum_loop m a shorts 0)

-- `buf[a+0] = sum >> 8; buf[a+1] = sum & 0xff`, where an array of bytes keeps 8 bits of each
abbrev pub store_word : Buffer → ℕ → ℕ → Buffer
store_word m a v = store (store m a (v / 2 ^ 8 % 2 ^ 8)) (suc a) (bit_and v 0xFF)

-- consecutive assignments `buf[a] = v`
abbrev pub put : Buffer → ℕ → List ℕ → Buffer
put m a [] = m
put m a (v ∷ vs) = put (store m a v) (suc a) vs

-- `!memcmp(data + a, vs, n)`
abbrev pub same_at : Buffer → ℕ → List ℕ → Bool
same_at m a [] = true
same_at m a (v ∷ vs) = (m a == v) && same_at m (suc a) vs

abbrev pub my_ip : List ℕ
my_ip = 192 ∷ 168 ∷ 3 ∷ 2 ∷ []

abbrev pub my_mac : List ℕ
my_mac = 0x00 ∷ 0x0a ∷ 0x35 ∷ 0x02 ∷ 0x53 ∷ 0x2d ∷ []

abbrev pub all_mac : List ℕ
all_mac = 0xff ∷ 0xff ∷ 0xff ∷ 0xff ∷ 0xff ∷ 0xff ∷ []

-- The static variables. `his_body_len` is an `int`, kept as its 32 bits.
pub record Responder : Type 0 where
  pub saw_arp : Bool
  pub saw_ping : Bool
  pub his_body_len : ℕ
  pub his_ip : Buffer
  pub his_mac : Buffer
  pub his_body : Buffer

pub record Frame : Type 0 where
  pub bytes : Buffer
  pub size : ℕ

-- `buf` is what the array on the stack holds before.
unfoldable pub send_arp : Buffer → Responder → Responder × Frame
send_arp buf s =
    let b1 = put (copy buf 0 s.his_mac 0 6) 6 my_mac in
    let b2 = put b1 12 (0x08 ∷ 0x06 ∷ 0 ∷ 1 ∷ 8 ∷ 0 ∷ 6 ∷ 4 ∷ 0 ∷ 2 ∷ []) in
    let b3 = put (put b2 22 my_mac) 28 my_ip in
    let b4 = copy (copy b3 32 s.his_mac 0 6) 38 s.his_ip 0 4 in
    (record s { saw_arp = false }, record { bytes = b4; size = 42 })

-- The headers of `sendECHO`, before the body and the checksums.
unfoldable pub echo_header : Buffer → Responder → Buffer
echo_header buf s =
    let len = (s.his_body_len + 24) % 2 ^ 32 in
    let b1 = put (copy buf 0 s.his_mac 0 6) 6 my_mac in
    let b2 = put b1 12 (
      0x08
      ∷ 0x00
      ∷ 0x45
      ∷ 0
      ∷ len / 2 ^ 8 % 2 ^ 8
      ∷ bit_and len 0xFF
      ∷ 0
      ∷ 0
      ∷ 0
      ∷ 0
      ∷ 63
      ∷ 1
      ∷ 0
      ∷ 0
      ∷ []) in
    let b3 = copy (put b2 26 my_ip) 30 s.his_ip 0 4 in put b3 34 (0 ∷ 0 ∷ 0 ∷ 0 ∷ [])

-- `if ((hisBodyLen & 1) != 0) buf[ICMP_QUENCH+hisBodyLen] = 0;` on an array of 500 bytes
unfoldable pub pad : ℕ → Buffer → Option Buffer
pad len b =
    if bit_and len 1 == 0
    then some b
    else if ltb (38 + len) 500
    then some (store b (38 + len) 0)
    else none

-- The two checksums, ICMP first.
unfoldable pub seal : ℕ → Buffer → Buffer
unfolding checksum
seal len b =
    let b' = store_word b 36 (checksum b 34 ((len + 4 + 1) / 2)) in
    store_word b' 24 (checksum b' 14 10)

unfoldable pub send_echo : Buffer → Responder → Option (Responder × Frame)
unfolding copy_into pad seal echo_header
send_echo buf s = copy_into 500 (echo_header buf s) 38 s.his_body s.his_body_len >>= λ b1.
    pad s.his_body_len b1 >>= λ b2. some (
      record s { saw_ping = false },
      record { bytes = seal s.his_body_len b2; size = s.his_body_len + 38 },
    )

abbrev pub is_arp_request : Buffer → Bool
is_arp_request d =
    (d 12 == 0x08) && ((d 13 == 0x06) && ((d 20 == 0) && ((d 21 == 1) && same_at d 38 my_ip)))

abbrev pub is_ip : Buffer → Bool
is_ip d = (d 12 == 0x08) && ((d 13 == 0x00) && ((d 14 == 0x45) && same_at d 30 my_ip))

unfoldable pub recv_arp : Buffer → Responder → Responder
recv_arp d s =
    if is_arp_request d
    then record s {
      saw_arp = true;
      his_mac = copy s.his_mac 0 d 22 6;
      his_ip = copy s.his_ip 0 d 28 4;
    }
    else s

-- The comparison with `sizeof` is between unsigned numbers.
unfoldable pub recv_echo : Buffer → ℕ → Responder → Responder
recv_echo d iplen s =
    let len = (iplen + 2 ^ 32 - 24) % 2 ^ 32 in
    let s' = record s { his_body_len = len } in
    if (d 23 == 0x01) && (d 34 == 0x08)
    then (if leb len 1516
        then record s' {
          saw_ping = true;
          his_mac = copy s.his_mac 0 d 6 6;
          his_ip = copy s.his_ip 0 d 26 4;
          his_body = copy s.his_body 0 d 38 len;
        }
        else s')
    else s

-- `for (i = 12; i >= 2; --i) hisBody[i] = hisBody[i-2];` with `k = i - 2` after the first argument
unfoldable pub shift_loop : ℕ → Buffer → Buffer
shift_loop zero b = b
shift_loop (suc k) b = shift_loop k (store b (suc (suc k)) (b k))

-- An Etherbone request: `core` is the hardware, which works on the body in place.
unfoldable pub recv_udp :
    (Buffer → ℕ → Buffer) → Buffer → ℕ → Responder → Option (Responder × List Frame)
unfolding copy_into shift_loop
recv_udp core d iplen s =
    if d 23 == 0x11
    then (copy_into 1516 (copy s.his_body 0 d 0 14) 16 (λ j. d (14 + j)) iplen >>= λ b.
        (let b' = shift_loop 11 (core b (iplen + 16)) in
          some (
            record s { his_body = b' },
            record { bytes = λ j. b' (2 + j); size = iplen + 14 } ∷ [],
          )))
    else some (s, [])

unfoldable pub user_recv :
    (Buffer → ℕ → Buffer) → Buffer → Responder → Option (Responder × List Frame)
unfolding recv_arp recv_echo recv_udp
user_recv core d s =
    let iplen = bit_or (d 16 * 2 ^ 8) (d 17) in
    let arp = recv_arp d s in
    let ip = recv_udp core d iplen (recv_echo d iplen arp) in
    if not (same_at d 0 all_mac) && not (same_at d 0 my_mac)
    then some (s, [])
    else if is_ip d
    then ip
    else some (arp, [])
