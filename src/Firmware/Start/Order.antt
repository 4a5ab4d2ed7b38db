-- ===== src/Firmware/Start/Order.antt =====
-- What `dbe_init` of history/embedded-sw/dbe_main.c leaves, where it fails and where it does not.
use bpm_gw.Base.{
  ℤ, pos, negsuc, ℕ, ◌≡◌, ◌≢◌, refl, sym, ap, subst, ◌∙◌, ◌⊎◌, inl, inr, true, false, Option, some,
  List, if◌then◌else◌, ◌>>=◌, Bool-cases, arith, >>=-eq-some, some_inj,
}
use bpm_gw.Bus.{Bus, ok, failed}
use bpm_gw.Sdb.{Rom, DevList, sdb_find_devices}
use bpm_gw.Init.{Driver, gpio_init, dma_init, uart_init, ethmac_adapt_init}
use bpm_gw.Ethmac.Registers.{Addresses, ethmac_init}
use bpm_gw.Interrupts.{Machine, int_init}
use bpm_gw.Firmware.Start.{
  Handles, is_failed, devl, with_cpu, start_interrupts, start_ethmac_adapt, start_ethmac,
  start_gpio, start_dma, dbe_init,
}
use bpm_gw.Firmware.Start.Unchanged.{init_with-bus_state}

is_failed-failed : (e : ℤ) → is_failed e ≡ true → e ≡ failed
is_failed-failed (pos n) h = absurd (ground (arith, h))
is_failed-failed (negsuc n) h = ap negsuc (ground (arith, h))

is_failed-others : (e : ℤ) → is_failed e ≡ false → e ≢ failed
is_failed-others e h = λ same. ground (arith, ap is_failed same, h)

module _ {S : Type 0} (bus csr : Bus S) (lists : List (Option DevList)) where
  abbrev pub Outcome : Type 0
  Outcome = ℤ × Handles × Machine S

  -- A driver runs on the list at a place of the global lists and has a result.
  abbrev pub Ran : {A : Type 0} → ℕ → (DevList → Option (ℤ × A)) → ℤ × A → Type 0
  Ran i init o = (l : DevList) × (devl lists i ≡ some l) × (init l ≡ some o)

  abbrev pub start_mac : DevList → Option (ℤ × List Addresses)
  start_mac l = devl lists 0 >>= λ mem. ethmac_init l mem

  -- One of the drivers from the Ethernet MAC adapter back to the DMA returns -1.
  abbrev pub AdaptFails : Machine S → Type 0
  AdaptFails m = (o : ℤ × Driver S) × Ran 3 (λ l. ethmac_adapt_init bus l m.cpu) o × (o.0 ≡ failed)

  abbrev pub MacFails : Machine S → Type 0
  MacFails m = ((o : ℤ × List Addresses) × Ran 2 start_mac o × (o.0 ≡ failed)) ⊎ AdaptFails m

  abbrev pub GpioFails : Machine S → Type 0
  GpioFails m =
      ((o : ℤ × Driver S) × Ran 10 (λ l. gpio_init bus l m.cpu) o × (o.0 ≡ failed)) ⊎ MacFails m

  abbrev pub DmaFails : Machine S → Type 0
  DmaFails m =
      ((o : ℤ × Driver S) × Ran 1 (λ l. dma_init bus l m.cpu) o × (o.0 ≡ failed)) ⊎ GpioFails m

  -- They do not, and the result has their handles.
  abbrev pub AdaptStarts : Handles → Machine S → Outcome → Type 0
  AdaptStarts h m r =
      (o : ℤ × Driver S) × Ran 3 (λ l. ethmac_adapt_init bus l m.cpu) o
      × (o.0 ≢ failed)
      × (r ≡ (ok, record h { ethmac_adapt = o.1.handles }, (int_init csr m).1))

  abbrev pub MacStarts : Handles → Machine S → Outcome → Type 0
  MacStarts h m r =
      (o : ℤ × List Addresses) × Ran 2 start_mac o
      × (o.0 ≢ failed)
      × AdaptStarts (record h { ethmac = o.1 }) m r

  abbrev pub GpioStarts : Handles → Machine S → Outcome → Type 0
  GpioStarts h m r =
      (o : ℤ × Driver S) × Ran 10 (λ l. gpio_init bus l m.cpu) o
      × (o.0 ≢ failed)
      × MacStarts (record h { gpio = o.1.handles }) m r

  abbrev pub DmaStarts : Handles → Machine S → Outcome → Type 0
  DmaStarts h m r =
      (o : ℤ × Driver S) × Ran 1 (λ l. dma_init bus l m.cpu) o
      × (o.0 ≢ failed)
      × GpioStarts (record h { dma = o.1.handles }) m r

  -- The machine as it was and a reason, or a start.
  abbrev pub Ends : Type 0 → Type 0 → Machine S → Outcome → Type 0
  Ends Fails Starts m r = (Fails × (r.0 ≡ failed) × (r.2 ≡ m)) ⊎ Starts

  -- One driver is started, which leaves the machine as it was, and then the others.
  one_more :
      (Fails Starts : Machine S → Type 0) (Failed Good : Type 0) (e : ℤ) (h : Handles)
      (m m1 : Machine S) (next : Option Outcome) (r : Outcome)
      → m1 ≡ m
      → (e ≡ failed → Failed)
      → (e ≢ failed → Starts m → Good)
      → (next ≡ some r → Ends (Fails m1) (Starts m1) m1 r)
      → (let stop : Option Outcome = some (failed, h, m1) in if is_failed e then stop else next)
        ≡ some r
      → Ends (Failed ⊎ Fails m) Good m r
  one_more Fails Starts Failed Good e h m m1 next r same why good rest run =
      elim (Bool-cases (is_failed e)) [
        | inl bad ↦
            let stop : Option Outcome = some (failed, h, m1) in
            let taken : (if is_failed e then stop else next) ≡ stop = rw bad refl in
            let back = some_inj (sym run ∙ taken) in
            inl (
              inl (why (is_failed-failed e bad)),
              ap (λ (q : Outcome). q.0) back,
              ap (λ (q : Outcome). q.2) back ∙ same,
            )
        | inr fine ↦
            let stop : Option Outcome = some (failed, h, m1) in
            let taken : (if is_failed e then stop else next) ≡ next = rw fine refl in
            let there =
              subst (λ (q : Machine S). Ends (Fails q) (Starts q) q r) same
                (rest (sym taken ∙ run)) in
            elim there [
              | inl (why', left, kept) ↦ inl (inr why', left, kept)
              | inr starts ↦ inr (good (is_failed-others e fine) starts)
            ]
      ]

  start_interrupts-Ends :
      (h : Handles) (m : Machine S) (r : Outcome)
      → start_interrupts bus csr h m ≡ some r
      → Ends ⊥ (r ≡ (ok, h, (int_init csr m).1)) m r
  unfolding start_interrupts int_init
  start_interrupts-Ends h m r e = inr (sym (some_inj e))

  start_ethmac_adapt-Ends :
      (h : Handles) (m : Machine S) (r : Outcome)
      → start_ethmac_adapt bus csr lists h m ≡ some r
      → Ends (AdaptFails m) (AdaptStarts h m r) m r
  unfolding start_ethmac_adapt ethmac_adapt_init
  start_ethmac_adapt-Ends h m r e =
      let (l, found, e1) = >>=-eq-some (devl lists 3) _ e in
      let (o, ran, e2) = >>=-eq-some (ethmac_adapt_init bus l m.cpu) _ e1 in
      let h1 = record h { ethmac_adapt = o.1.handles } in
      let m1 = with_cpu m o.1.bus_state in
      let ends =
        one_more (λ q. ⊥) (λ q. r ≡ (ok, h1, (int_init csr q).1)) (AdaptFails m) (AdaptStarts h m r)
          o.0 h1 m m1 (start_interrupts bus csr h1 m1) r
          (ap (with_cpu m) (init_with-bus_state l m.cpu o ran)) (λ bad. (o, (l, found, ran), bad))
          (λ fine last. (o, (l, found, ran), fine, last)) (start_interrupts-Ends h1 m1 r) e2 in
      elim ends [
        | inl (inl why, left, kept) ↦ inl (why, left, kept)
        | inl (inr never, left, kept) ↦ elim never [ ]
        | inr starts ↦ inr starts
      ]

  start_ethmac-Ends :
      (h : Handles) (m : Machine S) (r : Outcome)
      → start_ethmac bus csr lists h m ≡ some r
      → Ends (MacFails m) (MacStarts h m r) m r
  unfolding start_ethmac
  start_ethmac-Ends h m r e =
      let (l, found, e1) = >>=-eq-some (devl lists 2) _ e in
      let (mem, memory, e2) = >>=-eq-some (devl lists 0) _ e1 in
      let (o, done, e3) = >>=-eq-some (ethmac_init l mem) _ e2 in
      let ran : start_mac l ≡ some o =
        ap (λ (q : Option DevList). q >>= λ mem'. ethmac_init l mem') memory ∙ done in
      let h1 = record h { ethmac = o.1 } in
      one_more AdaptFails (λ q. AdaptStarts h1 q r)
        ((o' : ℤ × List Addresses) × Ran 2 start_mac o' × (o'.0 ≡ failed)) (MacStarts h m r) o.0 h1
        m m (start_ethmac_adapt bus csr lists h1 m) r refl (λ bad. (o, (l, found, ran), bad))
        (λ fine others. (o, (l, found, ran), fine, others)) (start_ethmac_adapt-Ends h1 m r) e3

  start_gpio-Ends :
      (h : Handles) (m : Machine S) (r : Outcome)
      → start_gpio bus csr lists h m ≡ some r
      → Ends (GpioFails m) (GpioStarts h m r) m r
  unfolding start_gpio gpio_init
  start_gpio-Ends h m r e =
      let (l, found, e1) = >>=-eq-some (devl lists 10) _ e in
      let (o, ran, e2) = >>=-eq-some (gpio_init bus l m.cpu) _ e1 in
      let h1 = record h { gpio = o.1.handles } in
      let m1 = with_cpu m o.1.bus_state in
      one_more MacFails (λ q. MacStarts h1 q r)
        ((o' : ℤ × Driver S) × Ran 10 (λ l'. gpio_init bus l' m.cpu) o' × (o'.0 ≡ failed))
        (GpioStarts h m r) o.0 h1 m m1 (start_ethmac bus csr lists h1 m1) r
        (ap (with_cpu m) (init_with-bus_state l m.cpu o ran)) (λ bad. (o, (l, found, ran), bad))
        (λ fine others. (o, (l, found, ran), fine, others)) (start_ethmac-Ends h1 m1 r) e2

  start_dma-Ends :
      (h : Handles) (m : Machine S) (r : Outcome)
      → start_dma bus csr lists h m ≡ some r
      → Ends (DmaFails m) (DmaStarts h m r) m r
  unfolding start_dma dma_init
  start_dma-Ends h m r e =
      let (l, found, e1) = >>=-eq-some (devl lists 1) _ e in
      let (o, ran, e2) = >>=-eq-some (dma_init bus l m.cpu) _ e1 in
      let h1 = record h { dma = o.1.handles } in
      let m1 = with_cpu m o.1.bus_state in
      one_more GpioFails (λ q. GpioStarts h1 q r)
        ((o' : ℤ × Driver S) × Ran 1 (λ l'. dma_init bus l' m.cpu) o' × (o'.0 ≡ failed))
        (DmaStarts h m r) o.0 h1 m m1 (start_gpio bus csr lists h1 m1) r
        (ap (with_cpu m) (init_with-bus_state l m.cpu o ran)) (λ bad. (o, (l, found, ran), bad))
        (λ fine others. (o, (l, found, ran), fine, others)) (start_gpio-Ends h1 m1 r) e2

module _ {S : Type 0} (bus csr : Bus S) (lists : List (Option DevList)) where
  -- The result of `dbe_init` with the global lists: `m1` is the machine as `uart_init` on the list of the
  -- UARTs leaves it. Either a driver returns -1, and then so does `dbe_init` and the machine is `m1`; or no
  -- driver does, and then the result is 0, all handles are those of the drivers, and the interrupts are
  -- set up on `m1`.
  abbrev pub Started : Handles → Machine S → ℤ × Handles × Machine S → Type 0
  Started h m r =
      (l : DevList) × (u : ℤ × Driver S) × (devl lists 9 ≡ some l)
      × (uart_init bus l m.cpu ≡ some u)
      × (let m1 = with_cpu m u.1.bus_state in
          Ends bus csr lists ((u.0 ≡ failed) ⊎ DmaFails bus csr lists m1)
            ((u.0 ≢ failed) × DmaStarts bus csr lists (record h { uart = u.1.handles }) m1 r) m1 r)

module _ {S : Type 0} (bus csr : Bus S) where
  -- Where `dbe_init` returns, the lists being those of the search of the ROM, `uart_init` has run on the
  -- list of the UARTs, and there are two ways. Either it returns -1 because the init function of one of
  -- the five drivers does, and then no other register and no handler is changed. Or none of the five does,
  -- it returns 0, the handles of each driver are those that its init function makes of its own list, and
  -- the interrupts are set up by `int_init`.
  pub dbe_init-Started :
      (fuel : ℕ) (rom : Rom) (h : Handles) (m : Machine S) (r : ℤ × Handles × Machine S)
      → dbe_init bus csr fuel rom h m ≡ some r
      → Started bus csr (sdb_find_devices fuel rom) h m r
  unfolding dbe_init
  dbe_init-Started fuel rom h m r e =
      let lists = sdb_find_devices fuel rom in
      let (l, found, e1) = >>=-eq-some (devl lists 9) _ e in
      let (u, done, e2) = >>=-eq-some (uart_init bus l m.cpu) _ e1 in
      let h1 = record h { uart = u.1.handles } in
      let m1 = with_cpu m u.1.bus_state in
      (
        l,
        u,
        found,
        done,
        one_more bus csr lists (DmaFails bus csr lists) (λ q. DmaStarts bus csr lists h1 q r)
            (u.0 ≡ failed) ((u.0 ≢ failed) × DmaStarts bus csr lists h1 m1 r) u.0 h1 m1 m1
            (start_dma bus csr lists h1 m1) r refl (λ bad. bad) (λ fine others. (fine, others))
            (start_dma-Ends bus csr lists h1 m1 r) e2,
      )
