-- ===== src/Pcie/Device/Ends.antt =====
-- history/sw/drivers/pcie/src/base.c: the ways in which a probe ends.
use bpm_gw.Base.{
  ℤ, pos, negsuc, ℕ, zero, suc, ◌+◌, ◌≡◌, ◌≢◌, refl, true, false, none, arith, Bool-cases, inl, inr,
  ◌⊎◌,
}
use bpm_gw.Pcie.Bars.{Resource, Board, probe_irq}
use bpm_gw.Pcie.Device.{Device, ProbeGrant, probe, probe_rest, probe_enabled, remove, fresh_device}

-- What is left by a probe with a result, by the result.
record Ends (g : ProbeGrant) (r : ℤ × ℕ × Device) : Type 0 where
  failed : r.0 ≢ pos 0 → (r.2.enabled ≡ false) × (r.2.added ≡ false) × (r.2.allocated ≡ false)
  good :
      r.0 ≡ pos 0
      → g.attrs ≡ true
      → (r.2.enabled ≡ true) × (r.2.added ≡ true) × (r.2.allocated ≡ true)
  no_attrs :
      r.0 ≡ pos 0
      → g.attrs ≡ false
      → (r.2.enabled ≡ false) × (r.2.added ≡ false) × (remove r.2 ≡ none)

probe_rest-Ends :
    (g : ProbeGrant) (e : ℤ) (b : Board) (count : ℕ) (d : Device)
    → d.enabled ≡ true
    → d.added ≡ false
    → d.allocated ≡ true
    → Ends g (probe_rest g (e, b) count d)
unfolding probe_rest remove
probe_rest-Ends g (pos zero) b count d on new mem = record {
  failed = ground (arith, new);
  good = ground (arith, on, mem);
  no_attrs = ground (arith, new);
}
probe_rest-Ends g (pos (suc n)) b count d on new mem = record {
  failed = ground (arith, new);
  good = ground arith;
  no_attrs = ground arith;
}
probe_rest-Ends g (negsuc n) b count d on new mem = record {
  failed = ground (arith, new);
  good = ground arith;
  no_attrs = ground arith;
}

probe_enabled-Ends :
    (g : ProbeGrant) (rs : ℕ → Resource) (count : ℕ) (d : Device)
    → d.enabled ≡ true
    → d.added ≡ false
    → d.allocated ≡ false
    → Ends g (probe_enabled g rs count d)
unfolding probe_enabled
probe_enabled-Ends g rs count d on new free =
    let f = fresh_device d in
    let p = probe_irq g.irq rs f.board in
    let rest : Ends g (probe_rest g (p.0, p.1) (count + 1) f) =
      probe_rest-Ends g p.0 p.1 (count + 1) f on new refl in
    record {
      failed = ground (arith, new, free, rest.failed);
      good = ground (arith, rest.good);
      no_attrs = ground (arith, rest.no_attrs);
    }

probe-Ends :
    (g : ProbeGrant) (rs : ℕ → Resource) (count : ℕ) (d : Device)
    → d.enabled ≡ false
    → d.added ≡ false
    → d.allocated ≡ false
    → Ends g (probe g rs count d)
unfolding probe
probe-Ends g rs count d off new free =
    let rest = probe_enabled-Ends g rs count (record d { enabled = true }) refl new free in
    record {
      failed = ground (arith, off, new, free, rest.failed);
      good = ground (arith, rest.good);
      no_attrs = ground (arith, rest.no_attrs);
    }

-- The three ways in which a probe ends: with an error, with a device, and with neither.
abbrev pub Ended : ProbeGrant → ℤ × ℕ × Device → Type 0
Ended g r =
    ((r.0 ≢ pos 0) × (r.2.enabled ≡ false) × (r.2.added ≡ false) × (r.2.allocated ≡ false))
    ⊎ (((r.0 ≡ pos 0)
          × (g.attrs ≡ true)
          × (r.2.enabled ≡ true)
          × (r.2.added ≡ true)
          × (r.2.allocated ≡ true))
        ⊎ ((r.0 ≡ pos 0)
            × (g.attrs ≡ false)
            × (r.2.enabled ≡ false)
            × (r.2.added ≡ false)
            × (remove r.2 ≡ none)))

Ends-Ended : (g : ProbeGrant) (r : ℤ × ℕ × Device) → Ends g r → Ended g r
Ends-Ended g (pos zero, count, d) h = elim (Bool-cases g.attrs) [
  | inl all ↦ let (on, new, mem) = h.good refl all in inr (inl (refl, all, on, new, mem))
  | inr fails ↦
      let (off, gone, freed) = h.no_attrs refl fails in inr (inr (refl, fails, off, gone, freed))
]
Ends-Ended g (pos (suc n), count, d) h =
    let error : pos (suc n) ≢ pos 0 = ground arith in
    let (off, new, free) = h.failed error in inl (error, off, new, free)
Ends-Ended g (negsuc n, count, d) h =
    let error : negsuc n ≢ pos 0 = ground arith in
    let (off, new, free) = h.failed error in inl (error, off, new, free)

-- For a device that is not enabled, not added and without private data, and any answers of the kernel,
-- where `probe` returns an error it leaves the device so. Where it returns 0 and all attributes can be
-- created, the device is enabled and added and has private data. Where it returns 0 although an attribute
-- cannot be created, the device is neither enabled nor added, and `remove` accesses private data that are
-- freed.
pub remove-probe_attrs :
    (g : ProbeGrant) (rs : ℕ → Resource) (count : ℕ) (d : Device)
    → d.enabled ≡ false
    → d.added ≡ false
    → d.allocated ≡ false
    → Ended g (probe g rs count d)
remove-probe_attrs g rs count d off new free =
    let r = probe g rs count d in
    Ends-Ended g (r.0, r.1, r.2) (probe-Ends g rs count d off new free)
