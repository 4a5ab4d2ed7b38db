-- ===== src/Pcie/Bars/Held.antt =====
-- history/sw/drivers/pcie/src/int.c: the regions and the interrupt that a probe takes are given back.
use bpm_gw.Base.{
  ℤ, pos, negsuc, ℕ, zero, suc, ◌+◌, ◌≡◌, ◌≤◌, ◌<◌, ◌≢◌, refl, subst, sym, ap, ◌∙◌, Bool, true,
  false, ◌==◌, ltb, if◌then◌else◌, arith, Bool-cases, inl, inr,
}
use bpm_gw.Pcie.Ioctl.{is_zero}
use bpm_gw.Pcie.Bars.{
  Resource, Board, IrqGrant, set_at, map_bar, map_bars, setup_irq, probe_irq, unmap_loop, free_irq,
  remove_irq,
}

-- Each region that is held has been mapped.
abbrev pub AllMapped : Board → Type 0
AllMapped b = (i : ℕ) → b.requested i ≡ true → (i < 6) × (b.bars_kmapped i ≢ 0)

map_bar-AllMapped :
    (g : IrqGrant) (rs : ℕ → Resource) (i : ℕ) (b : Board)
    → i < 6
    → AllMapped b
    → (map_bar g rs i b).0 ≡ pos 0
    → AllMapped (map_bar g rs i b).1
unfolding map_bar
map_bar-AllMapped g rs i b lt all good k held = (ground (arith, all k), ground (arith, all k))

pub is_zero_lem : (e : ℤ) → is_zero e ≡ true → e ≡ pos 0
is_zero_lem (pos n) h = ground (arith, h)
is_zero_lem (negsuc n) h = absurd (ground arith)

pub is_zero_off : (e : ℤ) → is_zero e ≡ false → e ≢ pos 0
is_zero_off (pos n) h z = ground (arith, h, z)
is_zero_off (negsuc n) h z = ground (arith, z)

map_bars-AllMapped :
    (g : IrqGrant) (rs : ℕ → Resource) (n i : ℕ) (b : Board)
    → i + n ≤ 6
    → AllMapped b
    → (map_bars g rs n i b).0 ≡ pos 0
    → AllMapped (map_bars g rs n i b).1
unfolding map_bars
map_bars-AllMapped g rs zero i b le all good = all
map_bars-AllMapped g rs (suc n) i b le all good = elim (Bool-cases (is_zero (map_bar g rs i b).0)) [
  | inl on ↦
      let here =
        map_bar-AllMapped g rs i b (omega arith) all (is_zero_lem (map_bar g rs i b).0 on) in
      let same : map_bars g rs (suc n) i b ≡ map_bars g rs n (suc i) (map_bar g rs i b).1 =
        rw on refl in
      subst (λ (r : ℤ × Board). AllMapped r.1) (sym same)
        (map_bars-AllMapped g rs n (suc i) (map_bar g rs i b).1 (omega arith) here
          (ap (λ (r : ℤ × Board). r.0) (sym same) ∙ good))
  | inr off ↦ absurd (ground (arith, off, good))
]

-- A region that is held after the loop was held before, and is out of its range or was not mapped.
unmap_loop-requested :
    (n i k : ℕ) (b : Board)
    → (unmap_loop n i b).requested k ≡ true
    → (b.requested k ≡ true) × ((b.bars_kmapped k ≢ 0) → i ≤ k → k < i + n → ⊥)
unfolding unmap_loop
unmap_loop-requested zero i k b held = (held, λ m lo hi. omega arith)
unmap_loop-requested (suc n) i k b held = elim (Bool-cases (b.bars_kmapped i == 0)) [
  | inl null ↦
      let same : unmap_loop (suc n) i b ≡ unmap_loop n (suc i) b = rw null refl in
      let (before, out) =
        unmap_loop-requested n (suc i) k b (ap (λ (c : Board). c.requested k) (sym same) ∙ held) in
      (before, λ m lo hi. ground (arith, null, m, lo, hi, out m))
  | inr mapped ↦
      let c = record b { requested = set_at i false b.requested } in
      let same : unmap_loop (suc n) i b ≡ unmap_loop n (suc i) c = rw mapped refl in
      let (before, out) =
        unmap_loop-requested n (suc i) k c (ap (λ (d : Board). d.requested k) (sym same) ∙ held) in
      (ground (arith, before), λ m lo hi. ground (arith, before, m, lo, hi, out m))
]

unmap_loop-irq_requested :
    (n i : ℕ) (b : Board) → (unmap_loop n i b).irq_requested ≡ b.irq_requested
unfolding unmap_loop
unmap_loop-irq_requested zero i b = refl
unmap_loop-irq_requested (suc n) i b = ground (
  arith,
  unmap_loop-irq_requested n (suc i) b,
  unmap_loop-irq_requested n (suc i) (record b { requested = set_at i false b.requested }),
)

setup_irq-bars :
    (g : IrqGrant) (b : Board)
    → ((setup_irq g b).requested ≡ b.requested) × ((setup_irq g b).bars_kmapped ≡ b.bars_kmapped)
unfolding setup_irq
setup_irq-bars g b = ground arith

setup_irq-irq_requested :
    (g : IrqGrant) (b : Board)
    → b.irq_requested ≡ false
    → (setup_irq g b).irq_enabled ≡ false
    → (setup_irq g b).irq_requested ≡ false
unfolding setup_irq
setup_irq-irq_requested g b idle off = ground (arith, idle, off)

abbrev cleared : Board → Board
cleared b = record b { bars_kmapped = λ i. if ltb i 6 then 0 else b.bars_kmapped i }

-- A probe that returns 0 has mapped the BARs and set up the interrupt.
probe_irq-setup_irq :
    (g : IrqGrant) (rs : ℕ → Resource) (b : Board)
    → (probe_irq g rs b).0 ≡ pos 0
    → ((map_bars g rs 6 0 (cleared b)).0 ≡ pos 0)
      × ((probe_irq g rs b).1 ≡ setup_irq g (map_bars g rs 6 0 (cleared b)).1)
unfolding probe_irq
probe_irq-setup_irq g rs b good = elim (Bool-cases (is_zero (map_bars g rs 6 0 (cleared b)).0)) [
  | inl on ↦ (is_zero_lem (map_bars g rs 6 0 (cleared b)).0 on, rw on refl)
  | inr off ↦
      let same : probe_irq g rs b ≡ map_bars g rs 6 0 (cleared b) = rw off refl in
      absurd (
        is_zero_off (map_bars g rs 6 0 (cleared b)).0 off
          (ap (λ (r : ℤ × Board). r.0) (sym same) ∙ good))
]

-- The device holds no region and no interrupt.
abbrev pub Unheld : Board → Type 0
Unheld b = ((i : ℕ) → b.requested i ≡ false) × (b.irq_requested ≡ false)

not_true : (v : Bool) → (v ≡ true → ⊥) → v ≡ false
not_true true h = absurd (h refl)
not_true false h = refl

-- Unmapping gives back all regions of a board that has mapped each of them.
unmap_loop-AllMapped : (b : Board) → AllMapped b → (i : ℕ) → (unmap_loop 6 0 b).requested i ≡ false
unmap_loop-AllMapped b all i = not_true ((unmap_loop 6 0 b).requested i) (λ held.
    let (before, out) = unmap_loop-requested 6 0 i b held in
    out (all i before).1 (omega arith) (all i before).0)

free_irq-fields :
    (b : Board)
    → (b.irq_enabled ≡ false → b.irq_requested ≡ false)
    → ((free_irq b).requested ≡ b.requested)
      × ((free_irq b).bars_kmapped ≡ b.bars_kmapped)
      × ((free_irq b).irq_requested ≡ false)
free_irq-fields b idle = ground (arith, idle)

remove_irq-AllMapped :
    (b : Board)
    → AllMapped b
    → (b.irq_enabled ≡ false → b.irq_requested ≡ false)
    → Unheld (remove_irq b)
unfolding remove_irq
remove_irq-AllMapped b all idle =
    let (req, maps, irq) = free_irq-fields b idle in
    (
      unmap_loop-AllMapped (free_irq b) (λ i held.
          let (lt, mapped) = all i (ap (λ (f : ℕ → Bool). f i) (sym req) ∙ held) in
          (lt, λ null. mapped (ap (λ (f : ℕ → ℕ). f i) (sym maps) ∙ null))),
      unmap_loop-irq_requested 6 0 (free_irq b) ∙ irq,
    )

map_bars-irq_requested :
    (g : IrqGrant) (rs : ℕ → Resource) (n i : ℕ) (b : Board)
    → (map_bars g rs n i b).1.irq_requested ≡ b.irq_requested
unfolding map_bars map_bar
map_bars-irq_requested g rs zero i b = refl
map_bars-irq_requested g rs (suc n) i b =
    ground (arith, map_bars-irq_requested g rs n (suc i) (map_bar g rs i b).1)

-- Where the device holds nothing and `probe_irq` returns 0, `remove_irq` leaves it holding nothing: each
-- region that was requested is released, and the interrupt is freed if it was requested.
pub remove_irq-probe_irq :
    (g : IrqGrant) (rs : ℕ → Resource) (b : Board)
    → Unheld b
    → (probe_irq g rs b).0 ≡ pos 0
    → Unheld (remove_irq (probe_irq g rs b).1)
remove_irq-probe_irq g rs b none good =
    let (ok, same) = probe_irq-setup_irq g rs b good in
    let m = (map_bars g rs 6 0 (cleared b)).1 in
    let all =
      map_bars-AllMapped g rs 6 0 (cleared b) (omega arith)
        (λ i held. absurd (ground (arith, none.0 i))) ok in
    let (req, maps) = setup_irq-bars g m in
    subst (λ (c : Board). Unheld (remove_irq c)) (sym same)
      (remove_irq-AllMapped (setup_irq g m)
        (λ i held.
          let (lt, mapped) = all i (ap (λ (f : ℕ → Bool). f i) (sym req) ∙ held) in
          (lt, λ null. mapped (ap (λ (f : ℕ → ℕ). f i) (sym maps) ∙ null)))
        (setup_irq-irq_requested g m (map_bars-irq_requested g rs 6 0 (cleared b) ∙ none.1)))
