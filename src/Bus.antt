-- ===== src/Bus.antt =====
-- What the drivers of history/embedded-sw/dev share: reads and writes of device registers, and the
-- loops that poll one bit of a status register.
-- The devices are not code of the repository: a `Bus` says what a read of an address gives and how
-- reads and writes change the devices. A polling loop has fuel; `none` is a run that needs more,
-- and `Settles` says that the bit is clear after at most so many reads.
use bpm_gw.Base.{
  ℤ, pos, negsuc, ℕ, zero, suc, ◌≡◌, refl, ◌∙◌, ◌⊎◌, inl, inr, Bool, true, false, Option, none,
  some, bit_and, ◌==◌, if◌then◌else◌,
}

pub record Bus (S : Type 0) : Type 0 where
  pub read : S → ℕ → ℕ × S
  pub write : S → ℕ → ℕ → S

-- the driver's return codes 0 and -1
abbrev pub ok : ℤ
ok = pos 0

abbrev pub failed : ℤ
failed = negsuc 0

module _ {S : Type 0} (bus : Bus S) where
  -- Whether the bits of the mask are clear in a read of the register at `a`.
  abbrev pub idle : ℕ → ℕ → S → Bool
  idle a mask s = bit_and (bus.read s a).0 mask == 0

  -- `while (poll(id)) ;`
  unfoldable pub wait : ℕ → ℕ → ℕ → S → Option S
  wait zero a mask s = none
  wait (suc fuel) a mask s =
      let s' = (bus.read s a).1 in
      let rest = wait fuel a mask s' in if idle a mask s then some s' else rest

  -- One of the first `n` reads finds the bits clear.
  abbrev pub Settles : ℕ → ℕ → ℕ → S → Type 0
  Settles zero a mask s = ⊥
  Settles (suc n) a mask s = (idle a mask s ≡ true) ⊎ Settles n a mask (bus.read s a).1

  -- A loop that ends keeps what the reads of the register keep.
  pub wait-keeps {ℓ} :
      {X : Type ℓ} (f : S → X) (fuel a mask : ℕ) (s : S)
      → ((t : S) → f (bus.read t a).1 ≡ f t)
      → Settles fuel a mask s
      → (s' : S) × (wait fuel a mask s ≡ some s') × (f s' ≡ f s)
  unfolding wait
  wait-keeps f zero a mask s keeps h = absurd h
  wait-keeps f (suc fuel) a mask s keeps (inl h) = ((bus.read s a).1, rw h refl, keeps s)
  wait-keeps f (suc fuel) a mask s keeps (inr h) =
      let (s', e, k) = wait-keeps f fuel a mask (bus.read s a).1 keeps h in
      later (idle a mask s) s' e (k ∙ keeps s)
    where
      later :
          {rest : Option S} (b : Bool) (s' : S)
          → rest ≡ some s'
          → f s' ≡ f s
          → (s' : S) × ((if b then some (bus.read s a).1 else rest) ≡ some s') × (f s' ≡ f s)
      later true s' e k = ((bus.read s a).1, refl, keeps s)
      later false s' e k = (s', e, k)
