-- ===== src/Firmware/Buttons.antt =====
-- What `button_test` of history/embedded-sw/dbe_main.c finds out.
use bpm_gw.Base.{
  ℤ, pos, negsuc, ℕ, zero, suc, ◌+◌, ◌^◌, ◌≡◌, refl, sym, ap, ap₂, ◌∙◌, Bool, true, false, not,
  ◌&&◌, ◌||◌, bit_and, bit_or, List, [], ◌∷◌, ◌==◌, if◌then◌else◌, inl, inr, ◌⊎◌, Bool-cases, arith,
}
use bpm_gw.Bus.{Bus}
use bpm_gw.Gpio.{gpio_in, pin_mask}
use bpm_gw.Firmware.{button_loop, button_rounds, button_test, int_bit, test_buttons_tries}

-- Whether a level is not 0.
abbrev pub high : ℤ → Bool
high (pos n) = not (n == 0)
high (negsuc n) = true

abbrev pub any : List Bool → Bool
any [] = false
any (b ∷ bs) = b || any bs

or_assoc : (a h t : Bool) → ((a || h) || t) ≡ (a || (h || t))
or_assoc true h t = refl
or_assoc false h t = refl

not_both : (a b : Bool) → (a && b) ≡ false → false ≡ ((a || false) && (b || false))
not_both true true unseen = sym unseen
not_both true false unseen = refl
not_both false b unseen = refl

both_seen :
    (a h t b h' t' : Bool)
    → ((a || h) && (b || h')) ≡ true
    → true ≡ ((a || (h || t)) && (b || (h' || t')))
both_seen true h t true h' t' both = refl
both_seen true h t false true t' both = refl
both_seen true h t false false t' both = absurd (ground (arith, both))
both_seen false true t true h' t' both = refl
both_seen false true t false true t' both = refl
both_seen false true t false false t' both = absurd (ground (arith, both))
both_seen false false t b h' t' both = absurd (ground (arith, both))

module _ {S : Type 0} (bus : Bus S) (gpio : ℕ → ℕ) (pass : S → S) where
  -- The levels of the pin 0 and of the pin 1 in the next `n` rounds, in each of which both are read.
  abbrev pub levels0 : ℕ → S → List Bool
  levels0 zero s = []
  levels0 (suc n) s =
      let (l0, s1) = gpio_in bus gpio 1 0 s in
      let (l1, s2) = gpio_in bus gpio 1 1 s1 in high l0 ∷ levels0 n (pass s2)

  abbrev pub levels1 : ℕ → S → List Bool
  levels1 zero s = []
  levels1 (suc n) s =
      let (l0, s1) = gpio_in bus gpio 1 0 s in
      let (l1, s2) = gpio_in bus gpio 1 1 s1 in high l1 ∷ levels1 n (pass s2)

  -- The buttons that were seen, as the bits of a word.
  abbrev seen : Bool → Bool → ℕ
  seen a b = (if a then 1 else 0) + (if b then 2 else 0)

  seen_mask : (a b : Bool) → (seen a b == 3) ≡ (a && b)
  seen_mask true true = refl
  seen_mask true false = refl
  seen_mask false true = refl
  seen_mask false false = refl

  gpio_in-bit :
      (pin : ℕ) (s : S)
      → ((gpio_in bus gpio 1 pin s).0 ≡ pos 0) ⊎ ((gpio_in bus gpio 1 pin s).0 ≡ pos 1)
  unfolding gpio_in
  gpio_in-bit pin s = elim (Bool-cases (bit_and (bus.read s (gpio 1 + 12)).0 (pin_mask pin) == 0)) [
    | inl low ↦ inl (rw low refl)
    | inr up ↦ inr (rw up refl)
  ]

  -- The word after a button with a level.
  abbrev pressed_with : ℕ → ℕ → ℤ → ℕ
  pressed_with j button_pressed level =
      let off = if bit_and button_pressed (2 ^ j) == 0 then 1 else 0 in
      if bit_and off (int_bit level) == 0 then button_pressed else bit_or button_pressed (2 ^ j)

  pressed_with0 :
      (a b : Bool) (level : ℤ)
      → (level ≡ pos 0) ⊎ (level ≡ pos 1)
      → pressed_with 0 (seen a b) level ≡ seen (a || high level) b
  pressed_with0 true true level (inl e) = rw e refl
  pressed_with0 true false level (inl e) = rw e refl
  pressed_with0 false true level (inl e) = rw e refl
  pressed_with0 false false level (inl e) = rw e refl
  pressed_with0 true true level (inr e) = rw e refl
  pressed_with0 true false level (inr e) = rw e refl
  pressed_with0 false true level (inr e) = rw e refl
  pressed_with0 false false level (inr e) = rw e refl

  pressed_with1 :
      (a b : Bool) (level : ℤ)
      → (level ≡ pos 0) ⊎ (level ≡ pos 1)
      → pressed_with 1 (seen a b) level ≡ seen a (b || high level)
  pressed_with1 true true level (inl e) = rw e refl
  pressed_with1 true false level (inl e) = rw e refl
  pressed_with1 false true level (inl e) = rw e refl
  pressed_with1 false false level (inl e) = rw e refl
  pressed_with1 true true level (inr e) = rw e refl
  pressed_with1 true false level (inr e) = rw e refl
  pressed_with1 false true level (inr e) = rw e refl
  pressed_with1 false false level (inr e) = rw e refl

  button_loop-seen :
      (a b : Bool) (s : S)
      → let (l0, s1) = gpio_in bus gpio 1 0 s in
        let (l1, s2) = gpio_in bus gpio 1 1 s1 in
        button_loop bus gpio pass 2 0 (seen a b) s ≡ (seen (a || high l0) (b || high l1), s2)
  unfolding button_loop
  button_loop-seen a b s =
      let r0 = gpio_in bus gpio 1 0 s in
      let r1 = gpio_in bus gpio 1 1 r0.1 in
      ap (λ (w : ℕ). (w, r1.1))
        (ap (λ (w : ℕ). pressed_with 1 w r1.0) (pressed_with0 a b r0.0 (gpio_in-bit 0 s))
          ∙ pressed_with1 (a || high r0.0) b r1.0 (gpio_in-bit 1 r0.1))

  button_rounds-seen :
      (n : ℕ) (a b : Bool) (s : S)
      → (a && b) ≡ false
      → (button_rounds bus gpio pass n (seen a b) s).0
        ≡ ((a || any (levels0 n s)) && (b || any (levels1 n s)))
  unfolding button_rounds
  button_rounds-seen zero a b s unseen = not_both a b unseen
  button_rounds-seen (suc n) a b s unseen =
      let r0 = gpio_in bus gpio 1 0 s in
      let r1 = gpio_in bus gpio 1 1 r0.1 in
      let a' = a || high r0.0 in
      let b' = b || high r1.0 in
      let t0 = any (levels0 n (pass r1.1)) in
      let t1 = any (levels1 n (pass r1.1)) in
      let looped = button_loop-seen a b s in
      elim (Bool-cases (a' && b')) [
        | inl both ↦
            rw (looped, seen_mask a' b', both) (both_seen a (high r0.0) t0 b (high r1.0) t1 both)
        | inr more ↦
            rw (looped, seen_mask a' b', more)
              (button_rounds-seen n a' b' (pass r1.1) more
                ∙ ap₂ (λ (x y : Bool). x && y) (or_assoc a (high r0.0) t0)
                    (or_assoc b (high r1.0) t1))
      ]

  -- `button_test` is passed where the pin of each of the two buttons is high at one of the ten rounds at
  -- least, not necessarily the same, and in no other case.
  pub button_test-levels :
      (s : S)
      → (button_test bus gpio pass s).0
        ≡ (any (levels0 test_buttons_tries s) && any (levels1 test_buttons_tries s))
  unfolding button_test
  button_test-levels s = button_rounds-seen test_buttons_tries false false s refl
