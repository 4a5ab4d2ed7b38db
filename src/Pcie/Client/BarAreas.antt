-- ===== src/Pcie/Client/BarAreas.antt =====
-- history/sw/lib/pcie/pciDriver_Capi.c: `pd_mapBAR` and `pd_unmapBAR`.
use bpm_gw.Base.{
  pos, ℕ, zero, suc, ◌+◌, ◌-◌, ◌*◌, ◌/◌, ◌%◌, ◌^◌, ◌≡◌, ◌≢◌, ◌<◌, refl, sym, ap, ap₂, ◌∙◌, true,
  false, ◌⊎◌, Option, none, some, List, ◌∷◌, bit_and, ◌==◌, ltb, inl, inr, arith, ==_ne,
}
use native.Mathlib.Nat.{pow-suc, one-le-pow}
use bpm_gw.Base.Bits.{bit_and_mask}
use bpm_gw.Bus.{ok}
use bpm_gw.Pcie.Config.{
  ConfigSpace, PciDev, BoardInfo, ioctl_pci_info, pci_interrupt_pin, pci_interrupt_line,
}
use bpm_gw.Pcie.Client.{Process, Answers, unlock, unmapped, munmap, mask_loop, pd_getpagemask}
use bpm_gw.Pcie.Client.Areas.{board_info, bar_pointer, map_bar_area, pd_map_bar, pd_unmap_bar}
use bpm_gw.Pcie.Client.Mutex.{lock-free, at_bar, map_bar_area-accepted}
use bpm_gw.Pcie.Client.Buffers.{os_mmap-cases, unmap_first}

mask_step : (m t u : ℕ) → u ≡ 2 * t → 0 < t → (m * 2 + 1) * t + (t - 1) ≡ m * u + (u - 1)
mask_step m t u double h =
    let left : (m * 2 + 1) * t ≡ 2 * (m * t) + t = grind arith in
    let right : m * (2 * t) ≡ 2 * (m * t) = grind arith in
    rw (double, left, right) (omega (arith, h))

-- The loop of `pd_getpagemask`, from `temp` a power of two on.
mask_loop-ones :
    (rounds n m : ℕ) → n < rounds → mask_loop rounds m (2 ^ n) ≡ some (m * 2 ^ n + (2 ^ n - 1))
unfolding mask_loop
mask_loop-ones zero n m enough = absurd (omega (arith, enough))
mask_loop-ones (suc rounds) zero m enough = ap some (omega arith)
mask_loop-ones (suc rounds) (suc n) m enough =
    let double : 2 ^ suc n ≡ 2 * 2 ^ n = omega (arith, pow-suc 2 n) in
    let half : 2 ^ suc n / 2 ≡ 2 ^ n = omega (arith, double) in
    let some_bytes : 0 < 2 ^ n = one-le-pow n 2 (omega arith) in
    let two : 2 ^ suc n ≢ 1 = λ e. omega (arith, e, double, some_bytes) in
    let more : (2 ^ suc n == 1) ≡ false = ==_ne (2 ^ suc n) 1 two in
    let total = mask_step m (2 ^ n) (2 ^ suc n) double some_bytes in
    rw (more, half) (mask_loop-ones rounds n (m * 2 + 1) (omega (arith, enough)) ∙ ap some total)

-- For a page of 2 ^ k bytes, the loop of `pd_getpagemask` ends after k + 1 rounds, also where there is
-- fuel for more, and `&` with the mask that it gives is the offset of an address in its page.
pub mask_loop-offset :
    (k extra a : ℕ)
    → (mask : ℕ) × (mask_loop (k + 1 + extra) 0 (2 ^ k) ≡ some mask) × (bit_and a mask ≡ a % 2 ^ k)
mask_loop-offset k extra a = (
  2 ^ k - 1,
  mask_loop-ones (k + 1 + extra) k 0 (omega arith) ∙ ap some (omega arith),
  bit_and_mask k a,
)

-- The two reads of the configuration space succeed in any state.
abbrev pub Reads : {S : Type 0} → ConfigSpace S → Type 0
Reads {S} space =
    (s : S)
    → ((space.read_config 1 pci_interrupt_pin s).0 ≡ pos 0)
      × ((space.read_config 1 pci_interrupt_line s).0 ≡ pos 0)

-- The call then gives the BARs of the device.
board_info-bars :
    {S : Type 0} (space : ConfigSpace S) (dev : PciDev) (info : BoardInfo) (bar : ℕ) (s : S)
    → Reads space
    → ltb bar 6 ≡ true
    → (i : BoardInfo) × ((board_info space dev info s).0 ≡ some i)
      × (i.bar_start bar ≡ (dev.resources bar).start)
      × (i.bar_length bar ≡ (dev.resources bar).len)
unfolding board_info ioctl_pci_info
board_info-bars space dev info bar s reads small =
    rw ((reads s).0, (reads (space.read_config 1 pci_interrupt_pin s).2).1)
      (_, refl, rw small refl, rw small refl)

abbrev offset : PciDev → ℕ → ℕ
offset dev bar = bit_and (dev.resources bar).start 4095

bar_pointer-none : (i : BoardInfo) (bar : ℕ) (p : Process) → bar_pointer i bar none p ≡ some (0, p)
unfolding bar_pointer
bar_pointer-none i bar p = refl

bar_pointer-some :
    (i : BoardInfo) (bar a : ℕ) (p : Process)
    → a ≢ 0
    → bar_pointer i bar (some a) p ≡ some ((a + bit_and (i.bar_start bar) 4095) % 2 ^ 64, p)
unfolding bar_pointer pd_getpagemask mask_loop
bar_pointer-some i bar a p there = rw (==_ne a 0 there) refl

pd_unmap_bar-some :
    {S : Type 0} (space : ConfigSpace S) (dev : PciDev) (info i : BoardInfo) (bar ptr : ℕ) (s : S)
    (p : Process)
    → ltb 5 bar ≡ false
    → (board_info space dev info s).0 ≡ some i
    → pd_unmap_bar space dev true info bar ptr s p
      ≡ some (
        ok,
        (board_info space dev info s).1,
        unmapped ((ptr + 2 ^ 64 - bit_and (i.bar_start bar) 4095) % 2 ^ 64) (i.bar_length bar) p,
      )
unfolding pd_unmap_bar pd_getpagemask mask_loop
pd_unmap_bar-some space dev info i bar ptr s p small got = rw (small, got) refl

offset_back :
    (a x : ℕ) → a < 2 ^ 64 → ((a + bit_and x 4095) % 2 ^ 64 + 2 ^ 64 - bit_and x 4095) % 2 ^ 64 ≡ a
offset_back a x h = rw (bit_and_mask 12 x) (omega (arith, h))

-- What a call of `pd_mapBAR` leaves: null with the areas as they were, or a pointer that `pd_unmapBAR`
-- accepts, which takes the new area away.
abbrev pub MapsBar :
    {S : Type 0} → ConfigSpace S → PciDev → BoardInfo → ℕ → ℕ → Process → ℕ × S × Process → Type 0
MapsBar space dev info bar area p (ptr, s, q) =
    (q.locked ≡ false)
    × (((ptr ≡ 0) × (q.mapped ≡ p.mapped))
        ⊎ ((ptr % 4096 ≡ (dev.resources bar).start % 4096)
            × (q.mapped ≡ (area, (dev.resources bar).len) ∷ p.mapped)
            × (pd_unmap_bar space dev true info bar ptr s q
                ≡ some (ok, (board_info space dev info s).1, record q { mapped = p.mapped }))))

unmap_at : (a b len n : ℕ) (l : List (ℕ × ℕ)) → b ≡ a → n ≡ len → munmap b n ((a, len) ∷ l) ≡ l
unmap_at a b len n l same same_len =
    ap₂ (λ (b' n' : ℕ). munmap b' n' ((a, len) ∷ l)) same same_len ∙ unmap_first a len l

pointed :
    (i : BoardInfo) (bar : ℕ) {o o' : Option ℕ × Process}
    → o ≡ o'
    → bar_pointer i bar o.0 (unlock o.1) ≡ bar_pointer i bar o'.0 (unlock o'.1)
pointed i bar e = ap (λ (o : Option ℕ × Process). bar_pointer i bar o.0 (unlock o.1)) e

map_bar_area-MapsBar :
    {S : Type 0} (space : ConfigSpace S) (dev : PciDev) (k : Answers) (i info : BoardInfo) (bar : ℕ)
    (s : S) (p : Process)
    → Reads space
    → ltb 5 bar ≡ false
    → i.bar_start bar ≡ (dev.resources bar).start
    → i.bar_length bar ≡ (dev.resources bar).len
    → k.area ≢ 0
    → k.area < 2 ^ 64
    → k.area % 4096 ≡ 0
    → (r : ℕ × Process) × (map_bar_area dev k i bar p ≡ some r)
      × MapsBar space dev info bar k.area p (r.0, s, r.1)
map_bar_area-MapsBar space dev k i info bar s p reads small start len there below aligned =
    let accepted = map_bar_area-accepted dev k i bar p small in
    elim (os_mmap-cases dev k (i.bar_length bar) (at_bar bar p)) [
      | inl refused ↦ (
        (0, unlock (at_bar bar p)),
        accepted ∙ pointed i bar refused ∙ bar_pointer-none i bar (unlock (at_bar bar p)),
        (refl, inl (refl, refl)),
      )
      | inr mapped ↦
          let q =
            unlock (record (at_bar bar p) { mapped = (k.area, i.bar_length bar) ∷ p.mapped }) in
          let ptr = (k.area + bit_and (i.bar_start bar) 4095) % 2 ^ 64 in
          let (i', got, start', len') =
            board_info-bars space dev info bar s reads (ground (arith, small)) in
          let at : (ptr + 2 ^ 64 - bit_and (i'.bar_start bar) 4095) % 2 ^ 64 ≡ k.area =
            rw (start', sym start) (offset_back k.area (i.bar_start bar) below) in
          let pointer_offset : ptr % 4096 ≡ (dev.resources bar).start % 4096 =
            omega (arith, bit_and_mask 12 (i.bar_start bar), start, aligned, below) in
          let gone : munmap ((ptr + 2 ^ 64 - bit_and (i'.bar_start bar) 4095) % 2 ^ 64)
                (i'.bar_length bar) q.mapped
              ≡ p.mapped =
            unmap_at k.area _ (i.bar_length bar) _ p.mapped at (len' ∙ sym len) in
          (
            (ptr, q),
            accepted ∙ pointed i bar mapped ∙ bar_pointer-some i bar k.area q there,
            (
              refl,
              inr (
                pointer_offset,
                ap (λ (n : ℕ). (k.area, n) ∷ p.mapped) len,
                pd_unmap_bar-some space dev info i' bar ptr s q small got
                    ∙ ap
                        (λ (l : List (ℕ × ℕ)).
                          some (ok, (board_info space dev info s).1, record q { mapped = l }))
                        gone,
              ),
            ),
          )
    ]

-- Where the mutex is unlocked, the BAR is one of the six, the reads of the configuration space succeed,
-- and the kernel gives areas at page boundaries other than 0, `pd_mapBAR` returns with the mutex
-- unlocked. It gives null with the areas as they were, or it has mapped as many bytes as the BAR has and
-- gives a pointer at the BAR's offset in a page, with which `pd_unmapBAR` returns 0 and takes this area
-- away, and no other.
pub pd_unmap_bar-pd_map_bar :
    {S : Type 0} (space : ConfigSpace S) (dev : PciDev) (k : Answers) (info info' : BoardInfo)
    (bar : ℕ) (s : S) (p : Process)
    → p.locked ≡ false
    → bar < 6
    → Reads space
    → k.area ≢ 0
    → k.area < 2 ^ 64
    → k.area % 4096 ≡ 0
    → (r : ℕ × S × Process) × (pd_map_bar space dev true k info bar s p ≡ some r)
      × MapsBar space dev info' bar k.area p r
unfolding pd_map_bar
pd_unmap_bar-pd_map_bar space dev k info info' bar s p idle six reads there below aligned =
    let small : ltb 5 bar ≡ false = ground (arith, six) in
    let (i, got, start, len) = board_info-bars space dev info bar s reads (ground (arith, six)) in
    let s1 = (board_info space dev info s).1 in
    let (r, mapped, after) =
      map_bar_area-MapsBar space dev k i info' bar s1 (record p { locked = true }) reads small start
        len there below aligned in
    ((r.0, s1, r.1), rw (small, got, lock-free p idle, mapped) refl, after)
