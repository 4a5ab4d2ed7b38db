-- ===== src/Pcie/Device/Lifetime.antt =====
-- history/sw/drivers/pcie/src/base.c: probes and removes, one after the other.
mod Tests
use bpm_gw.Base.{
  ℤ, pos, negsuc, ℕ, zero, suc, ◌+◌, ◌-◌, ◌≡◌, ◌≤◌, ◌<◌, ◌≢◌, refl, sym, ap, subst, ◌∙◌, Bool, true,
  false, Option, none, some, List, [], ◌∷◌, ◌==◌, leb, if◌then◌else◌, arith, Bool-cases, inl, inr,
  not, ◌&&◌, ◌⊎◌,
}
use bpm_gw.Pcie.Ioctl.{is_zero}
use bpm_gw.Pcie.Bars.{Resource, Board, IrqGrant, probe_irq, remove_irq}
use bpm_gw.Pcie.Bars.Held.{Unheld, remove_irq-probe_irq}
use bpm_gw.Pcie.Kmem.{Kmem, kmem_free_all}
use bpm_gw.Pcie.Kmem.Entries.{kmem_free_all-empties}
use bpm_gw.Pcie.Umem.Sgmap.{Umem}
use bpm_gw.Pcie.Device.{
  Device, ProbeGrant, max_devices, probe, probe_rest, probe_enabled, remove, fresh_device,
  fresh_board,
}

-- A probe that leaves an allocated device has counted it, and any other probe lessens no count; the
-- counter is then at most `max_devices`.
record Counted (count : ℕ) (r : ℤ × ℕ × Device) : Type 0 where
  up : r.2.allocated ≡ true → (r.1 ≡ suc count) × (count < max_devices)
  kept : count ≤ r.1

probe_rest-Counted :
    (g : ProbeGrant) (r : ℤ × Board) (count : ℕ) (d : Device)
    → count < max_devices
    → Counted count (probe_rest g r (count + 1) d)
unfolding probe_rest
probe_rest-Counted g (err, b) count d lt = record { up = ground arith; kept = ground arith }

probe_enabled-Counted :
    (g : ProbeGrant) (rs : ℕ → Resource) (count : ℕ) (d : Device)
    → d.allocated ≡ false
    → Counted count (probe_enabled g rs count d)
unfolding probe_enabled
probe_enabled-Counted g rs count d free =
    let f = fresh_device d in
    let rest = probe_rest-Counted g (probe_irq g.irq rs f.board) count f in
    record {
      up = ground (arith, free, λ (h : count < max_devices). (rest h).up);
      kept = ground (arith, λ (h : count < max_devices). (rest h).kept);
    }

probe-Counted :
    (g : ProbeGrant) (rs : ℕ → Resource) (count : ℕ) (d : Device)
    → d.allocated ≡ false
    → Counted count (probe g rs count d)
unfolding probe
probe-Counted g rs count d free =
    let rest = probe_enabled-Counted g rs count (record d { enabled = true }) free in
    record { up = ground (arith, free, rest.up); kept = ground (arith, rest.kept) }

-- The kernel removes a device that a probe has left.
abbrev pub removed : Device → Device
removed d = elim (remove d) [ none ↦ d | some d' ↦ d' ]

removed-allocated : (d : Device) → (removed d).allocated ≡ false
unfolding remove
removed-allocated d = elim (Bool-cases d.allocated) [
  | inl on ↦ rw on refl
  | inr off ↦ ground (arith, off)
]

module _ (rs : ℕ → Resource) where
  -- How many probes leave a device, where each such device is removed before the next probe.
  abbrev pub devices_left : List ProbeGrant → ℕ → Device → ℕ
  devices_left [] count d = 0
  devices_left (g ∷ gs) count d =
      let r = probe g rs count d in
      let rest = devices_left gs r.1 (removed r.2) in if r.2.allocated then suc rest else rest

  -- Where the device has no private data at the start and the counter of the driver stands at `count`,
  -- at most `max_devices - count` of any number of probes leave a device, although each device is
  -- removed before the next probe.
  pub probe-max_devices :
      (gs : List ProbeGrant) (count : ℕ) (d : Device)
      → d.allocated ≡ false
      → devices_left gs count d ≤ max_devices - count
  probe-max_devices [] count d free = omega arith
  probe-max_devices (g ∷ gs) count d free =
      let r = probe g rs count d in
      let counted = probe-Counted g rs count d free in
      let rest = probe-max_devices gs r.1 (removed r.2) (removed-allocated r.2) in
      elim (Bool-cases r.2.allocated) [
        | inl on ↦ let (up, lt) = counted.up on in rw on (omega (arith, rest, up, lt))
        | inr off ↦ rw off (omega (arith, rest, counted.kept))
      ]

-- What a successful probe of a device that held nothing leaves can be given back.
probe_rest-board :
    (g : ProbeGrant) (r : ℤ × Board) (count : ℕ) (d : Device)
    → (probe_rest g r count d).2.allocated ≡ true
    → d.allocated ≡ true
    → (r.0 ≡ pos 0) × ((probe_rest g r count d).2.board ≡ r.1)
unfolding probe_rest
probe_rest-board g (pos zero, b) count d left on = (refl, ground (arith, left))
probe_rest-board g (pos (suc n), b) count d left on = absurd (ground (arith, left))
probe_rest-board g (negsuc n, b) count d left on = absurd (ground (arith, left))

-- The board of a device that a probe has left is what a successful `probe_irq` made of it.
probe-probe_irq :
    (g : ProbeGrant) (rs : ℕ → Resource) (count : ℕ) (d : Device)
    → d.allocated ≡ false
    → (probe g rs count d).2.allocated ≡ true
    → ((probe_irq g.irq rs (fresh_board d.board)).0 ≡ pos 0)
      × ((probe g rs count d).2.board ≡ (probe_irq g.irq rs (fresh_board d.board)).1)
unfolding probe probe_enabled
probe-probe_irq g rs count d free left =
    let f = fresh_device (record d { enabled = true }) in
    let rest = probe_rest-board g (probe_irq g.irq rs f.board) (count + 1) f in
    (ground (arith, free, left, rest), ground (arith, free, left, rest))

-- Where the device held no region and no interrupt and a probe leaves it with private data, `remove`
-- succeeds, whatever kernel buffers and mappings of user memory were made in between: the device is
-- disabled and holds no region, no interrupt and no kernel buffer, and the mappings of user memory are
-- held as before.
pub remove-probe :
    (g : ProbeGrant) (rs : ℕ → Resource) (count : ℕ) (d : Device) (k : Kmem) (u : Umem)
    → Unheld d.board
    → d.allocated ≡ false
    → (probe g rs count d).2.allocated ≡ true
    → (d' : Device) × (remove (record (probe g rs count d).2 { kmem = k; umem = u }) ≡ some d')
      × (d'.enabled ≡ false)
      × Unheld d'.board
      × (d'.kmem.kmem_list ≡ [])
      × (d'.umem.held ≡ u.held)
unfolding remove
remove-probe g rs count d k u unheld free left =
    let (good, same) = probe-probe_irq g rs count d free left in
    let freed = remove_irq-probe_irq g.irq rs (fresh_board d.board) unheld good in
    let p = record (probe g rs count d).2 { kmem = k; umem = u } in
    let d' = record p {
      enabled = false;
      allocated = false;
      added = false;
      board = remove_irq p.board;
      kmem = kmem_free_all k;
    } in
    (
      d',
      rw left refl,
      refl,
      subst (λ (b : Board). Unheld (remove_irq b)) (sym same) freed,
      kmem_free_all-empties k,
      refl,
    )
