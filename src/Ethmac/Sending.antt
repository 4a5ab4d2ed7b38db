-- ===== src/Ethmac/Sending.antt =====
-- history/embedded-sw/lib/ethmac/ethmac.c: the frames that `tx_packet` hands over.
use bpm_gw.Base.{
  ==_self, ℕ, ◌+◌, ◌/◌, ◌^◌, ◌<◌, ◌≤◌, ◌≡◌, refl, ap, ap₂, ◌∙◌, true, false, ◌==◌, List, length,
  arith,
}
use bpm_gw.Ethmac.{
  Ethmac, Descriptor, test, read_bytes, submit, in_use, oeth_tx, rx_packet, oeth_check_rx_bd,
  setup_buffers, tx_bd_ready,
}
use bpm_gw.Ethmac.Flags.{sent_status-ready, sent_status-length}
use bpm_gw.Ethmac.Frames.{
  IsValid, frame, is_ready, oeth_tx_lem, read-write_self, read-write_apart, setup_buffers-IsValid,
}
use bpm_gw.Ethmac.Steps.{
  Step, send, interrupt, check, read, drop, sent, received, Reach, Keeps, after_sending,
  after_receiving, drop-Keeps, check_loop-Keeps, Reach-IsValid, Step-IsValid,
}

-- A frame that is handed over stays as it is while the core owns it.
submit-frame :
    {base : ℕ} (s : Ethmac) (d : List ℕ) (i : ℕ)
    → IsValid base s
    → length d ≤ 2048
    → in_use s ≡ false
    → i < 8
    → is_ready s i ≡ true
    → frame (submit d s) i ≡ frame s i
unfolding submit
submit-frame s d i v small free h r =
    let other : (i == s.tx_next) ≡ false = ground (arith, v.enabled i h) in
    let low = v.fits i h r in
    let at = v.tx_addr i h in
    let to = v.tx_addr s.tx_next v.next_below in
    rw other (
      read-write_apart s.memory (s.tx_bd s.tx_next).addr (s.tx_bd i).addr
        ((s.tx_bd i).len_status / 2 ^ 16) d (ground arith))

after_receiving-frame :
    {base : ℕ} (s : Ethmac) (j w : ℕ) (d : List ℕ) (i : ℕ)
    → IsValid base s
    → length d ≤ 2048
    → j < 8
    → i < 8
    → is_ready s i ≡ true
    → frame (after_receiving j w d s) i ≡ frame s i
after_receiving-frame s j w d i v small k h r =
    let low = v.fits i h r in
    let at = v.tx_addr i h in
    let to = v.rx_addr j k in
    read-write_apart s.memory (s.rx_bd j).addr (s.tx_bd i).addr ((s.tx_bd i).len_status / 2 ^ 16) d
      (ground arith)

Keeps-frame : {s t : Ethmac} → Keeps s t → (i : ℕ) → frame t i ≡ frame s i
Keeps-frame k i =
    ap₂ (λ (m : ℕ → ℕ) (bd : ℕ → Descriptor). read_bytes m (bd i).addr ((bd i).len_status / 2 ^ 16))
      k.same_memory k.same_tx

oeth_tx-frame : (s : Ethmac) (i : ℕ) → i < 8 → is_ready s i ≡ true → frame (oeth_tx s) i ≡ frame s i
unfolding oeth_tx
oeth_tx-frame s i h r =
    let same : (oeth_tx s).tx_bd i ≡ s.tx_bd i = oeth_tx_lem s i h ∙ rw r refl in
    ap (λ (b : Descriptor). read_bytes s.memory b.addr (b.len_status / 2 ^ 16)) same

after_sending-frame :
    (s : Ethmac) (j w i : ℕ)
    → test w tx_bd_ready ≡ false
    → is_ready (after_sending j w s) i ≡ true
    → frame (after_sending j w s) i ≡ frame s i
after_sending-frame s j w i off r = let other : (i == j) ≡ false = ground arith in rw other refl

pub Step-frame :
    {base : ℕ} {s t : Ethmac} (i : ℕ)
    → Step s t
    → IsValid base s
    → i < 8
    → is_ready s i ≡ true
    → is_ready t i ≡ true
    → frame t i ≡ frame s i
unfolding rx_packet oeth_check_rx_bd
Step-frame i (send s d small free) v h r r' = submit-frame s d i v small free h r
Step-frame i (interrupt s) v h r r' = oeth_tx-frame s i h r
Step-frame i (check s) v h r r' = Keeps-frame (check_loop-Keeps 8 0 s (omega arith)) i
Step-frame i (read s n) v h r r' = Keeps-frame (drop-Keeps s) i
Step-frame i (drop s) v h r r' = Keeps-frame (drop-Keeps s) i
Step-frame i (sent s j w k k' off same) v h r r' = after_sending-frame s j w i off r'
Step-frame i (received s j w d k e small full) v h r r' =
    after_receiving-frame s j w d i v small k h r

-- The steps from `s` on in which the core keeps the descriptor `i`.
pub data Pending (i : ℕ) (s : Ethmac) : Ethmac → Type 0 where
  now : Pending i s s
  still : {t u : Ethmac} → Pending i s t → Step t u → is_ready u i ≡ true → Pending i s u

Pending-ready : {i : ℕ} {s t : Ethmac} → is_ready s i ≡ true → Pending i s t → is_ready t i ≡ true
Pending-ready r now = r
Pending-ready r (still p st r') = r'

Pending-IsValid : {base i : ℕ} {s t : Ethmac} → IsValid base s → Pending i s t → IsValid base t
Pending-IsValid v now = v
Pending-IsValid v (still p st r) = Step-IsValid st (Pending-IsValid v p)

Pending-same :
    {base i : ℕ} {s t : Ethmac}
    → IsValid base s
    → i < 8
    → is_ready s i ≡ true
    → Pending i s t
    → frame t i ≡ frame s i
Pending-same v h r now = refl
Pending-same {i = i} v h r (still p st r') =
    Step-frame i st (Pending-IsValid v p) h (Pending-ready r p) r' ∙ Pending-same v h r p

pub submit-ready : (s : Ethmac) (d : List ℕ) → is_ready (submit d s) s.tx_next ≡ true
unfolding submit
submit-ready s d =
    rw (==_self s.tx_next) (sent_status-ready (length d) (s.tx_bd s.tx_next).len_status)

pub submit-frame_self :
    (s : Ethmac) (d : List ℕ) → length d ≤ 2048 → frame (submit d s) s.tx_next ≡ d
unfolding submit
submit-frame_self s d small =
    rw
      (
        ==_self s.tx_next,
        sent_status-length (length d) (s.tx_bd s.tx_next).len_status (omega arith),
      )
      (read-write_self s.memory (s.tx_bd s.tx_next).addr d)

module _ (s0 : Ethmac) (fresh : s0.tx_next ≡ 0) (cur : s0.rx_cur ≡ 0)
    (room : s0.buf + 32768 < 2 ^ 32) where
  -- Whatever the firmware and the core do after the setup of the buffers, the descriptors keep their
  -- buffers, which lie one behind the other, the two positions stay within the rings, and every
  -- transmit descriptor that the core owns has its interrupt enabled and a length that fits.
  pub setup_buffers-Reach : {s : Ethmac} → Reach (setup_buffers s0) s → IsValid s0.buf s
  setup_buffers-Reach r = Reach-IsValid (setup_buffers-IsValid s0 fresh cur room) r

  -- After the setup of the buffers, where the next transmit descriptor is free and the frame has at
  -- most 2048 bytes, a frame that is handed over is in the descriptor's buffer, with its length in the
  -- descriptor, for as long as the core has not sent it, whatever the firmware and the core do.
  pub submit-Pending :
      {s t : Ethmac} (d : List ℕ)
      → Reach (setup_buffers s0) s
      → in_use s ≡ false
      → length d ≤ 2048
      → Pending s.tx_next (submit d s) t
      → frame t s.tx_next ≡ d
  submit-Pending {s} {t} d r free small p =
      let v = setup_buffers-Reach r in
      Pending-same (Step-IsValid (send s d small free) v) v.next_below (submit-ready s d) p
      ∙ submit-frame_self s d small
