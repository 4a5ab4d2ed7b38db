-- ===== src/Ethmac/Steps.antt =====
-- history/embedded-sw/lib/ethmac/ethmac.c: the firmware and the core, which take turns on the rings.
-- What the core does is what its documentation says: it sends the frame of a descriptor that is ready
-- and then takes the ready bit back, leaving the interrupt enable bit; and it fills the buffer of an
-- empty receive descriptor with a frame that fits and takes the empty bit back.
use bpm_gw.Base.{
  ◌/◌, ◌^◌, Bool-cases, sym, inl, inr, ℕ, zero, suc, ◌+◌, ◌<◌, ◌≤◌, ◌≡◌, refl, ap, ◌∙◌, true, false,
  List, length, arith,
}
use bpm_gw.Base.Bits.{bit_and_mask}
use bpm_gw.Ethmac.{
  Ethmac, reap, Descriptor, test, set_status, write_bytes, submit, in_use, oeth_tx, oeth_drop_rx_bd,
  rx_packet, check_loop, oeth_check_rx_bd, tx_bd_ready, tx_bd_irq, rx_bd_empty,
}
use bpm_gw.Ethmac.Flags.{ready-clear_irq, sent_status-irq, sent_status-length}
use bpm_gw.Ethmac.Frames.{IsValid, is_ready, oeth_tx_lem}

-- The core has sent the frame of the descriptor `i`.
abbrev pub after_sending : ℕ → ℕ → Ethmac → Ethmac
after_sending i v s = record s { tx_bd = set_status s.tx_bd i v }

-- The core has received a frame in the descriptor `i`.
abbrev pub after_receiving : ℕ → ℕ → List ℕ → Ethmac → Ethmac
after_receiving i v d s = record s {
  rx_bd = set_status s.rx_bd i v;
  memory = write_bytes s.memory (s.rx_bd i).addr d;
}

pub data Step : Ethmac → Ethmac → Type 0 where
  send : (s : Ethmac) (d : List ℕ) → length d ≤ 2048 → in_use s ≡ false → Step s (submit d s)
  interrupt : (s : Ethmac) → Step s (oeth_tx s)
  check : (s : Ethmac) → Step s (oeth_check_rx_bd s).1
  read : (s : Ethmac) (n : ℕ) → Step s (rx_packet n s).1
  drop : (s : Ethmac) → Step s (oeth_drop_rx_bd s)
  sent :
      (s : Ethmac) (i v : ℕ)
      → i < 8
      → is_ready s i ≡ true
      → test v tx_bd_ready ≡ false
      → test v tx_bd_irq ≡ test (s.tx_bd i).len_status tx_bd_irq
      → Step s (after_sending i v s)
  received :
      (s : Ethmac) (i v : ℕ) (d : List ℕ)
      → i < 8
      → test (s.rx_bd i).len_status rx_bd_empty ≡ true
      → length d ≤ 2048
      → test v rx_bd_empty ≡ false
      → Step s (after_receiving i v d s)

pub data Reach (s : Ethmac) : Ethmac → Type 0 where
  here : Reach s s
  next : {t u : Ethmac} → Reach s t → Step t u → Reach s u

-- What a step that only reads and gives back receive descriptors keeps.
pub record Keeps (s t : Ethmac) : Type 0 where
  pub same_next : t.tx_next ≡ s.tx_next
  pub same_buf : t.buf ≡ s.buf
  pub same_tx : t.tx_bd ≡ s.tx_bd
  pub same_memory : t.memory ≡ s.memory
  pub same_addr : (i : ℕ) → (t.rx_bd i).addr ≡ (s.rx_bd i).addr
  pub below : s.rx_cur < 8 → t.rx_cur < 8

pub drop-Keeps : (s : Ethmac) → Keeps s (oeth_drop_rx_bd s)
unfolding oeth_drop_rx_bd
drop-Keeps s = record {
  same_next = refl;
  same_buf = refl;
  same_tx = refl;
  same_memory = refl;
  same_addr = λ i. ground arith;
  below = λ h. h;
}

pub check_loop-Keeps : (n i : ℕ) (s : Ethmac) → i + n ≤ 8 → Keeps s (check_loop n i s).1
unfolding check_loop
check_loop-Keeps zero i s h = record {
  same_next = refl;
  same_buf = refl;
  same_tx = refl;
  same_memory = refl;
  same_addr = λ i. refl;
  below = λ h. h;
}
check_loop-Keeps (suc n) i s h =
    let rest = check_loop-Keeps n (suc i) s (omega arith) in
    record {
      same_next = ground (arith, rest.same_next);
      same_buf = ground (arith, rest.same_buf);
      same_tx = ground (arith, rest.same_tx);
      same_memory = ground (arith, rest.same_memory);
      same_addr = λ j. ground (arith, rest.same_addr j);
      below = λ k. ground (arith, rest.below k);
    }

same_word : {s t : Ethmac} → Keeps s t → (i : ℕ) → (t.tx_bd i).len_status ≡ (s.tx_bd i).len_status
same_word k i = ap (λ (bd : ℕ → Descriptor). (bd i).len_status) k.same_tx

Keeps-IsValid : {base : ℕ} {s t : Ethmac} → Keeps s t → IsValid base s → IsValid base t
Keeps-IsValid {base} {s} {t} k v = record {
  next_below = omega (arith, k.same_next, v.next_below);
  cur_below = k.below v.cur_below;
  starts = k.same_buf ∙ v.starts;
  tx_addr = λ i h. ap (λ (bd : ℕ → Descriptor). (bd i).addr) k.same_tx ∙ v.tx_addr i h;
  rx_addr = λ i h. k.same_addr i ∙ v.rx_addr i h;
  enabled = λ i h r. ground (arith, same_word k i, v.enabled i h);
  fits = λ i h r. ground (arith, same_word k i, v.fits i h);
}

submit-IsValid :
    {base : ℕ} (s : Ethmac) (d : List ℕ)
    → length d ≤ 2048
    → IsValid base s
    → IsValid base (submit d s)
unfolding submit
submit-IsValid s d small v = record {
  next_below = omega (arith, bit_and_mask 3 (s.tx_next + 1));
  cur_below = v.cur_below;
  starts = v.starts;
  tx_addr = λ i h. ground (arith, v.tx_addr i h);
  rx_addr = v.rx_addr;
  enabled =
      λ i h r. ground (arith, v.enabled i h, sent_status-irq (length d) (s.tx_bd i).len_status);
  fits = λ i h r. ground (arith, v.fits i h, sent_status-length (length d) (s.tx_bd i).len_status);
}

reap-addr : (b : Descriptor) → (reap b).addr ≡ b.addr
reap-addr b = ground arith

reap_ready : (b : Descriptor) → test (reap b).len_status tx_bd_ready ≡ true → reap b ≡ b
reap_ready b r = elim (Bool-cases (test b.len_status tx_bd_ready)) [
  | inl on ↦ rw on refl
  | inr off ↦ ground (arith, ready-clear_irq b.len_status)
]

-- The handler leaves the descriptors that the core owns.
oeth_tx_same :
    (s : Ethmac) (i : ℕ) → i < 8 → is_ready (oeth_tx s) i ≡ true → (oeth_tx s).tx_bd i ≡ s.tx_bd i
oeth_tx_same s i h r =
    let e = oeth_tx_lem s i h in
    e ∙ reap_ready (s.tx_bd i) (ap (λ (b : Descriptor). test b.len_status tx_bd_ready) (sym e) ∙ r)

oeth_tx-enabled :
    (s : Ethmac) (i : ℕ)
    → i < 8
    → (is_ready s i ≡ true → test (s.tx_bd i).len_status tx_bd_irq ≡ true)
    → is_ready (oeth_tx s) i ≡ true
    → test ((oeth_tx s).tx_bd i).len_status tx_bd_irq ≡ true
oeth_tx-enabled s i h on r =
    let e = oeth_tx_same s i h r in
    ap (λ (b : Descriptor). test b.len_status tx_bd_irq) e
    ∙ on (ap (λ (b : Descriptor). test b.len_status tx_bd_ready) (sym e) ∙ r)

oeth_tx-fits :
    (s : Ethmac) (i : ℕ)
    → i < 8
    → (is_ready s i ≡ true → (s.tx_bd i).len_status / 2 ^ 16 ≤ 2048)
    → is_ready (oeth_tx s) i ≡ true
    → ((oeth_tx s).tx_bd i).len_status / 2 ^ 16 ≤ 2048
oeth_tx-fits s i h small r =
    let e = oeth_tx_same s i h r in
    let low = small (ap (λ (b : Descriptor). test b.len_status tx_bd_ready) (sym e) ∙ r) in
    let same = ap (λ (b : Descriptor). b.len_status) e in omega (arith, low, same)

oeth_tx_rest :
    (s : Ethmac)
    → ((oeth_tx s).tx_next ≡ s.tx_next)
      × ((oeth_tx s).rx_cur ≡ s.rx_cur)
      × ((oeth_tx s).buf ≡ s.buf)
      × ((oeth_tx s).rx_bd ≡ s.rx_bd)
unfolding oeth_tx
oeth_tx_rest s = (refl, refl, refl, refl)

oeth_tx-IsValid : {base : ℕ} (s : Ethmac) → IsValid base s → IsValid base (oeth_tx s)
oeth_tx-IsValid s v =
    let same = oeth_tx_rest s in
    record {
      next_below = omega (arith, same.0, v.next_below);
      cur_below = omega (arith, same.1, v.cur_below);
      starts = same.2 ∙ v.starts;
      tx_addr = λ i h.
          ap (λ (b : Descriptor). b.addr) (oeth_tx_lem s i h)
          ∙ reap-addr (s.tx_bd i)
          ∙ v.tx_addr i h;
      rx_addr = λ i h. ap (λ (bd : ℕ → Descriptor). (bd i).addr) same.3 ∙ v.rx_addr i h;
      enabled = λ i h r. oeth_tx-enabled s i h (v.enabled i h) r;
      fits = λ i h r. oeth_tx-fits s i h (v.fits i h) r;
    }

after_sending-IsValid :
    {base : ℕ} (s : Ethmac) (j w : ℕ)
    → test w tx_bd_ready ≡ false
    → IsValid base s
    → IsValid base (after_sending j w s)
after_sending-IsValid s j w off v = record {
  next_below = v.next_below;
  cur_below = v.cur_below;
  starts = v.starts;
  tx_addr = λ i h. ground (arith, v.tx_addr i h);
  rx_addr = v.rx_addr;
  enabled = λ i h r. ground (arith, v.enabled i h);
  fits = λ i h r. ground (arith, v.fits i h);
}

after_receiving-IsValid :
    {base : ℕ} (s : Ethmac) (j w : ℕ) (d : List ℕ)
    → IsValid base s
    → IsValid base (after_receiving j w d s)
after_receiving-IsValid s j w d v = record {
  next_below = v.next_below;
  cur_below = v.cur_below;
  starts = v.starts;
  tx_addr = v.tx_addr;
  rx_addr = λ i h. ground (arith, v.rx_addr i h);
  enabled = v.enabled;
  fits = v.fits;
}

pub Step-IsValid : {base : ℕ} {s t : Ethmac} → Step s t → IsValid base s → IsValid base t
unfolding rx_packet oeth_check_rx_bd
Step-IsValid (send s d small free) v = submit-IsValid s d small v
Step-IsValid (interrupt s) v = oeth_tx-IsValid s v
Step-IsValid (check s) v = Keeps-IsValid (check_loop-Keeps 8 0 s (omega arith)) v
Step-IsValid (read s n) v = Keeps-IsValid (drop-Keeps s) v
Step-IsValid (drop s) v = Keeps-IsValid (drop-Keeps s) v
Step-IsValid (sent s i w h r off same) v = after_sending-IsValid s i w off v
Step-IsValid (received s i w d h e small full) v = after_receiving-IsValid s i w d v

pub Reach-IsValid : {base : ℕ} {s t : Ethmac} → IsValid base s → Reach s t → IsValid base t
Reach-IsValid v here = v
Reach-IsValid v (next r st) = Step-IsValid st (Reach-IsValid v r)
