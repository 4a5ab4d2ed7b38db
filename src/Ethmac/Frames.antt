-- ===== src/Ethmac/Frames.antt =====
-- history/embedded-sw/lib/ethmac/ethmac.c: the frames in the buffers, and what holds of the rings
-- between two operations.
use bpm_gw.Base.{
  ℕ, zero, suc, ◌+◌, ◌-◌, ◌*◌, ◌/◌, ◌%◌, ◌^◌, ◌<◌, ◌≤◌, ◌≡◌, refl, ap, ap₂, ◌∙◌, Bool, true, false,
  ◌&&◌, ltb, leb, ◌==◌, if◌then◌else◌, List, [], ◌∷◌, length, get_or, ◌⊎◌, inl, inr, arith,
}
use bpm_gw.Ethmac.{
  Ethmac, Descriptor, test, write_bytes, read_bytes, reap, reap_loop, setup_loop, setup_buffers,
  oeth_tx, tx_bd_ready, tx_bd_irq, buff_size,
}

-- the frame of a transmit descriptor, as the core reads it
abbrev pub frame : Ethmac → ℕ → List ℕ
frame s i = read_bytes s.memory (s.tx_bd i).addr ((s.tx_bd i).len_status / 2 ^ 16)

-- whether the core owns a transmit descriptor
abbrev pub is_ready : Ethmac → ℕ → Bool
is_ready s i = test (s.tx_bd i).len_status tx_bd_ready

pub read_bytes-eq :
    (m : ℕ → ℕ) (a : ℕ) (d : List ℕ)
    → ((j : ℕ) → j < length d → m (a + j) ≡ get_or d j 0)
    → read_bytes m a (length d) ≡ d
read_bytes-eq m a [] h = refl
read_bytes-eq m a (x ∷ xs) h =
    ap₂ (λ (y : ℕ) (l : List ℕ). y ∷ l) (ap m (omega arith) ∙ h 0 (omega arith))
      (read_bytes-eq m (suc a) xs (λ j k. ap m (omega arith) ∙ h (suc j) (omega arith)))

pub read-write_self :
    (m : ℕ → ℕ) (a : ℕ) (d : List ℕ) → read_bytes (write_bytes m a d) a (length d) ≡ d
read-write_self m a d = read_bytes-eq (write_bytes m a d) a d (λ j h. inside j h (omega arith))
  where
    inside : (j : ℕ) → j < length d → a + j - a ≡ j → write_bytes m a d (a + j) ≡ get_or d j 0
    inside j h e = rw e (ground arith)

-- A write elsewhere leaves what is read.
pub read-write_apart :
    (m : ℕ → ℕ) (a b n : ℕ) (d : List ℕ)
    → (b + n ≤ a) ⊎ (a + length d ≤ b)
    → read_bytes (write_bytes m a d) b n ≡ read_bytes m b n
read-write_apart m a b zero d h = refl
read-write_apart m a b (suc n) d h =
    ap₂ (λ (y : ℕ) (l : List ℕ). y ∷ l) (ground arith)
      (read-write_apart m a (suc b) n d (ground arith))

-- What holds between two operations, for buffers from `base` on: a frame that the core owns has its
-- interrupt enabled, and the buffers lie one behind the other.
pub record IsValid (base : ℕ) (s : Ethmac) : Type 0 where
  pub next_below : s.tx_next < 8
  pub cur_below : s.rx_cur < 8
  pub starts : s.buf ≡ base
  pub tx_addr : (i : ℕ) → i < 8 → (s.tx_bd i).addr ≡ base + i * 2048
  pub rx_addr : (i : ℕ) → i < 8 → (s.rx_bd i).addr ≡ base + (8 + i) * 2048
  pub enabled : (i : ℕ) → i < 8 → is_ready s i ≡ true → test (s.tx_bd i).len_status tx_bd_irq ≡ true
  pub fits : (i : ℕ) → i < 8 → is_ready s i ≡ true → (s.tx_bd i).len_status / 2 ^ 16 ≤ 2048

-- Each descriptor is visited once by the loop of `oeth_tx`.
pub reap_loop_lem :
    (n i : ℕ) (bd : ℕ → Descriptor) (j : ℕ)
    → reap_loop n i bd j ≡ (if leb i j && ltb j (i + n) then reap (bd j) else bd j)
unfolding reap_loop
reap_loop_lem zero i bd j = ground arith
reap_loop_lem (suc n) i bd j =
    ground (arith, reap_loop_lem n (suc i) (λ j. if j == i then reap (bd j) else bd j) j)

pub oeth_tx_lem : (s : Ethmac) (j : ℕ) → j < 8 → (oeth_tx s).tx_bd j ≡ reap (s.tx_bd j)
unfolding oeth_tx
oeth_tx_lem s j h = ground (arith, reap_loop_lem 8 0 s.tx_bd j)

-- The descriptors that the loops of the setup fill.
pub setup_loop_lem :
    (n status i mem_addr : ℕ) (bd : ℕ → Descriptor) (j : ℕ)
    → mem_addr + n * 2048 < 2 ^ 32
    → setup_loop n status i mem_addr bd j ≡ (
        if leb i j && ltb j (i + n)
        then record { len_status = status; addr = mem_addr + (j - i) * 2048 }
        else bd j)
unfolding setup_loop
setup_loop_lem zero status i mem_addr bd j h = ground arith
setup_loop_lem (suc n) status i mem_addr bd j h = ground (
  arith,
  setup_loop_lem n status (suc i) ((mem_addr + buff_size) % 2 ^ 32)
      (λ j. if j == i then record { len_status = status; addr = mem_addr } else bd j) j,
)

setup_status :
    (s : Ethmac) (i : ℕ)
    → s.buf + 32768 < 2 ^ 32
    → i < 8
    → (((setup_buffers s).tx_bd i).len_status ≡ 0x1800)
      ⊎ (((setup_buffers s).tx_bd i).len_status ≡ 0x3800)
unfolding setup_buffers
setup_status s i room h = ground (arith, setup_loop_lem 8 0x1800 0 s.buf s.tx_bd i)

setup_not_ready :
    (s : Ethmac) (i : ℕ) → s.buf + 32768 < 2 ^ 32 → i < 8 → is_ready (setup_buffers s) i ≡ false
setup_not_ready s i room h = elim (setup_status s i room h) [
  | inl e ↦ ap (λ (v : ℕ). test v tx_bd_ready) e
  | inr e ↦ ap (λ (v : ℕ). test v tx_bd_ready) e
]

-- The setup of the buffers makes the rings valid: no frame is handed over yet.
pub setup_buffers-IsValid :
    (s : Ethmac)
    → s.tx_next ≡ 0
    → s.rx_cur ≡ 0
    → s.buf + 32768 < 2 ^ 32
    → IsValid s.buf (setup_buffers s)
unfolding setup_buffers
setup_buffers-IsValid s next cur room = record {
  next_below = omega arith;
  cur_below = omega arith;
  starts = refl;
  tx_addr = λ i h. ground (arith, setup_loop_lem 8 0x1800 0 s.buf s.tx_bd i);
  rx_addr = λ i h. ground (arith, setup_loop_lem 8 0xc000 0 ((s.buf + 16384) % 2 ^ 32) s.rx_bd i);
  enabled = λ i h r. cc (setup_not_ready s i room h);
  fits = λ i h r. absurd (cc (setup_not_ready s i room h));
}
