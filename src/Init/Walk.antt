-- ===== src/Init/Walk.antt =====
-- The walk over a device list against its chain of base addresses.
use bpm_gw.Base.{
  ℕ, zero, suc, ◌<◌, ◌≡◌, refl, Bool, true, Option, none, some, List, [], ◌∷◌, arith, length,
  get_elem?, some_inj,
}
use bpm_gw.Sdb.{Slot, next_of, DevNode, DevList}
use bpm_gw.Sdb.Refine.{base_at, next_at, read, Chain}
use bpm_gw.Init.{each_node}

-- A body that never ends the loop, by its effect.
abbrev pub visit {ℓ} : {A : Type ℓ} → (ℕ → A → A) → List ℕ → A → A
visit f [] a = a
visit f (b ∷ bs) a = visit f bs (f b a)

node_at :
    (ns : List DevNode) (i b : ℕ)
    → base_at ns i ≡ some b
    → (d : DevNode) × (get_elem? ns i ≡ some d) × (d.base ≡ b) × (d.next ≡ next_at ns i)
node_at [] i b h = cc
node_at (n ∷ ns) zero b h = (n, refl, some_inj h, refl)
node_at (n ∷ ns) (suc i) b h = node_at ns i b h

module _ {ℓ} {A : Type ℓ} (f : ℕ → A → A) (l : DevList) where
  abbrev walk_from : ℕ → Option ℕ → A → Option (Bool × A)
  walk_from = each_node (λ b a. (true, f b a)) l.nodes

  pub each_node-Chain :
      (bs : List ℕ) (t : Slot) (a : A)
      → Chain l t bs
      → each_node (λ b a. (true, f b a)) l.nodes (length bs) (read l t) a
        ≡ some (true, visit f bs a)
  unfolding each_node
  each_node-Chain [] t a c = refl
  each_node-Chain (b ∷ bs) t a (n, e, eb, c) =
      let (d, ed, db, dn) = node_at l.nodes n b eb in
      rw (e, ed, db, dn) (each_node-Chain bs (next_of n) (f b a) c)

  -- Past the end of the chain the walk goes through the null pointer.
  pub each_node-null :
      (bs : List ℕ) (n : ℕ) (t : Slot) (a : A)
      → Chain l t bs
      → length bs < n
      → each_node (λ b a. (true, f b a)) l.nodes n (read l t) a ≡ none
  unfolding each_node
  each_node-null bs zero t a c h = absurd (omega arith)
  each_node-null [] (suc n) t a c h = rw c refl
  each_node-null (b ∷ bs) (suc n) t a (i, e, eb, c) h =
      let (d, ed, db, dn) = node_at l.nodes i b eb in
      rw (e, ed, db, dn) (each_node-null bs n (next_of i) (f b a) c (omega (arith, h)))
