-- ===== src/Firmware/Start/Unchanged.antt =====
-- The init functions of the drivers that only keep addresses (history/embedded-sw/dev/gpio.c, dma.c and
-- ethmac_adapt.c) change no device.
use bpm_gw.Base.{
  ℤ, ℕ, zero, suc, ◌≡◌, refl, sym, ap, ◌∙◌, inl, inr, Bool, true, Option, some, List, [], ◌∷◌, ◌++◌,
  if◌then◌else◌, ◌>>=◌, get_elem?, Option-cases, >>=-eq-some, some_inj,
}
use bpm_gw.Bus.{ok, failed}
use bpm_gw.Sdb.{DevNode, DevList}
use bpm_gw.Init.{Driver, each_node, init_with}

-- A walk that only keeps the addresses changes no device.
each_node-bus_state :
    {S : Type 0} (nodes : List DevNode) (n : ℕ) (p : Option ℕ) (d : Driver S) (r : Bool × Driver S)
    → each_node
        (λ base d. (true, record { handles = d.handles ++ (base ∷ []); bus_state = d.bus_state }))
        nodes
        n
        p
        d
      ≡ some r
    → r.1.bus_state ≡ d.bus_state
unfolding each_node
each_node-bus_state nodes zero p d r e =
    ap (λ (q : Bool × Driver _). q.1.bus_state) (sym (some_inj e))
each_node-bus_state nodes (suc n) p d r e =
    let (i, at, e1) = >>=-eq-some p _ e in
    let (node, there, e2) = >>=-eq-some (get_elem? nodes i) _ e1 in
    each_node-bus_state nodes n node.next
      (record { handles = d.handles ++ (node.base ∷ []); bus_state = d.bus_state }) r e2

walks :
    {S : Type 0} (l : DevList) (s : S) (p : ℕ)
    → l.first ≡ some p
    → init_with (λ base s. (true, s)) l s ≡ (
        each_node
          (λ base d. (true, record { handles = d.handles ++ (base ∷ []); bus_state = d.bus_state }))
          l.nodes
          l.size
          (some p)
          (record { handles = []; bus_state = s })
        >>= λ r. some ((if r.0 then ok else failed), r.1))
unfolding init_with
walks l s p first = rw first refl

pub init_with-bus_state :
    {S : Type 0} (l : DevList) (s : S) (r : ℤ × Driver S)
    → init_with (λ base s. (true, s)) l s ≡ some r
    → r.1.bus_state ≡ s
unfolding init_with
init_with-bus_state {S} l s r e =
    let start : Driver S = record { handles = []; bus_state = s } in
    let walk : ℕ → Driver S → Bool × Driver S =
      λ base d. (true, record { handles = d.handles ++ (base ∷ []); bus_state = d.bus_state }) in
    elim (Option-cases l.first) [
      | inl empty ↦
          let same : init_with (λ base s. (true, s)) l s ≡ some (failed, start) = rw empty refl in
          ap (λ (q : ℤ × Driver S). q.1.bus_state) (some_inj (sym e ∙ same))
      | inr (p, first) ↦
          let (q, walked, e1) =
            >>=-eq-some (each_node walk l.nodes l.size (some p) start) _
              (sym (walks l s p first) ∙ e) in
          ap (λ (q : ℤ × Driver S). q.1.bus_state) (some_inj (sym e1))
          ∙ each_node-bus_state l.nodes l.size (some p) start q walked
    ]
