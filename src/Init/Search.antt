-- ===== src/Init/Search.antt =====
-- The init functions on the lists that the search of the bus builds.
use bpm_gw.Base.{
  ℤ, ℕ, suc, ◌+◌, ◌<◌, ◌≡◌, refl, ap, sym, ◌∙◌, true, some, none, List, [], ◌∷◌, ◌++◌, arith,
  length, ◌>>=◌, append-nil, append-snoc,
}
use bpm_gw.Bus.{Bus, ok, failed}
use bpm_gw.Sdb.{Rom, devices, DevList, find_device_deep_all}
use bpm_gw.Sdb.Walk.{matches}
use bpm_gw.Sdb.Refine.{Chain}
use bpm_gw.Sdb.Quiet.{Quiet}
use bpm_gw.Sdb.Loss.{Shadows}
use bpm_gw.Sdb.Devices.{flat-find_device_deep_all, shadowed-find_device_deep_all}
use bpm_gw.Init.{Driver, init_with, owr_init, gpio_init}
use bpm_gw.Init.Walk.{visit, each_node-Chain, each_node-null}

module _ {S : Type 0} where
  abbrev driver : List ℕ → S → Driver S
  driver hs s = record { handles = hs; bus_state = s }

  -- The result where the list `bs` is complete.
  abbrev pub attached : (ℕ → S → S) → List ℕ → S → ℤ × Driver S
  attached set_up [] s = (failed, driver [] s)
  attached set_up (b ∷ bs) s = (ok, driver (b ∷ bs) (visit set_up (b ∷ bs) s))

  module _ (set_up : ℕ → S → S) where
    abbrev attach : ℕ → Driver S → Driver S
    attach base d = driver (d.handles ++ (base ∷ [])) (set_up base d.bus_state)

    visit-attach :
        (bs hs : List ℕ) (s : S)
        → visit attach bs (driver hs s) ≡ driver (hs ++ bs) (visit set_up bs s)
    visit-attach [] hs s = ap (λ (l : List ℕ). driver l s) (sym (append-nil hs))
    visit-attach (b ∷ bs) hs s =
        visit-attach bs (hs ++ (b ∷ [])) (set_up b s)
        ∙ ap (λ (l : List ℕ). driver l (visit set_up bs (set_up b s))) (append-snoc hs b bs)

    pub init_with-Chain :
        (l : DevList) (bs : List ℕ) (s : S)
        → Chain l devices bs
        → l.size ≡ length bs
        → init_with (λ base s. (true, set_up base s)) l s ≡ some (attached set_up bs s)
    unfolding init_with
    init_with-Chain l [] s c e = rw c refl
    init_with-Chain l (b ∷ bs) s c e =
        let (n, en, eb, rest) = c in
        let walked = each_node-Chain attach l (b ∷ bs) devices (driver [] s) c in
        rw (en, e, simp en at walked)
          (ap (λ (d : Driver S). some (ok, d)) (visit-attach (b ∷ bs) [] s))

    pub init_with-null :
        (l : DevList) (bs : List ℕ) (s : S)
        → Chain l devices bs
        → 0 < length bs
        → length bs < l.size
        → init_with (λ base s. (true, set_up base s)) l s ≡ none
    unfolding init_with
    init_with-null l [] s c pos short = absurd (omega arith)
    init_with-null l (b ∷ bs) s c pos short =
        let (n, en, eb, rest) = c in
        let walked = each_node-null attach l (b ∷ bs) l.size devices (driver [] s) c short in
        rw (en, simp en at walked)

-- Where no bridge of the top table leads to a matching device, `owr_init` on the list that the search
-- built has the bases of all the matching devices as its handles, in order, and has written the clock
-- dividers to each of them; it fails only if there is no matching device.
pub owr_init-find_device_deep_all :
    {S : Type 0} (bus : Bus S) (fuel : ℕ) (rom : Rom) (devid base sdb : ℕ) (ms : List ℕ) (s : S)
    → matches (suc fuel) rom devid base sdb ≡ some ms
    → Quiet (matches fuel rom devid) base (rom sdb)
    → (find_device_deep_all (suc fuel) rom devid base sdb >>= λ l. owr_init bus l s)
      ≡ some (attached (λ a t. bus.write t (a + 4) 6488563) ms s)
unfolding owr_init
owr_init-find_device_deep_all bus fuel rom devid base sdb ms s em q =
    let (l, el, c, size) = flat-find_device_deep_all fuel rom devid base sdb ms em q in
    rw el (init_with-Chain (λ a t. bus.write t (a + 4) 6488563) l ms s c size)

-- Where in the top table a bridge with a matching device behind it stands before a matching record,
-- the walk of `gpio_init` over the list that the search built runs past the end of the list, through
-- the null pointer.
pub gpio_init-null :
    {S : Type 0} (bus : Bus S) (fuel : ℕ) (rom : Rom) (devid base sdb : ℕ) (ms : List ℕ) (s : S)
    → matches (suc fuel) rom devid base sdb ≡ some ms
    → Shadows (matches fuel rom devid) devid base (rom sdb)
    → (find_device_deep_all (suc fuel) rom devid base sdb >>= λ l. gpio_init bus l s) ≡ none
unfolding gpio_init
gpio_init-null bus fuel rom devid base sdb ms s em sh =
    let (l, xs, el, c, short, pos) =
      shadowed-find_device_deep_all fuel rom devid base sdb ms em sh in
    rw el (init_with-null (λ a t. t) l xs s c pos short)
