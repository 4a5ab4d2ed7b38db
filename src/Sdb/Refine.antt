-- ===== src/Sdb/Refine.antt =====
-- The pointer version of the search (`find_device_deep_all_rec`) against `walk`.
mod Nodes
pub use Nodes.{base_at, next_at, read, Valid, Chain}
use bpm_gw.Base.{
  ℕ, zero, suc, ◌+◌, ◌≤◌, ◌<◌, ◌≡◌, refl, ◌⊎◌, inl, inr, true, false, Option, none, some, List, [],
  ◌∷◌, arith, Bool-cases, ◌∙◌, if◌then◌else◌, >>=-eq-some, ap, subst, some_inj, ◌>>=◌, length,
}
use bpm_gw.Sdb.{
  SdbRecord, Rom, is_bridge, is_match, address, Slot, devices, next_of, DevList, add_node, all_loop,
  find_device_deep_all_rec, find_device_deep_all,
}
use bpm_gw.Sdb.Walk.{Found, found, walk_loop, walk}
use Nodes.{Other, Added, add_node-Added}

-- `l'` comes from `l` by writes through `dev` and to nodes that are new.
record Frame (l : DevList) (dev : Slot) (l' : DevList) : Type 0 where
  grows : length l.nodes ≤ length l'.nodes
  same_next : (t : Slot) → Valid l t → Other t dev → read l' t ≡ read l t
  same_base : (i : ℕ) → i < length l.nodes → base_at l'.nodes i ≡ base_at l.nodes i

-- A run from `l` with the slot `dev` does what `w` says.
record Refines (l : DevList) (dev : Slot) (w : Found) (run : Option DevList) : Type 0 where
  out : DevList
  returns : run ≡ some out
  chain : Chain out dev w.bases
  size : out.size ≡ l.size + w.count
  frame : Frame l dev out

Frame-refl : (l : DevList) (dev : Slot) → Frame l dev l
Frame-refl l dev = record {
  grows = omega arith;
  same_next = λ t v o. refl;
  same_base = λ i h. refl;
}

Valid-mono : (l l' : DevList) (t : Slot) → length l.nodes ≤ length l'.nodes → Valid l t → Valid l' t
Valid-mono l l' devices h v = v
Valid-mono l l' (next_of i) h v = omega arith

Frame-trans : {l m n : DevList} {dev : Slot} → Frame l dev m → Frame m dev n → Frame l dev n
Frame-trans {l} {m} f g = record {
  grows = omega (arith, f.grows, g.grows);
  same_next = λ t v o. g.same_next t (Valid-mono l m t f.grows v) o ∙ f.same_next t v o;
  same_base = λ i h. g.same_base i (omega (arith, f.grows)) ∙ f.same_base i h;
}

-- A valid slot is not the `next` of a node that is still to come.
Other-new : (l : DevList) (t : Slot) → Valid l t → Other t (next_of (length l.nodes))
Other-new l devices v = tt
Other-new l (next_of i) v = λ e. omega arith

-- A node is added behind `dev`, and then only its own `next` and newer nodes are written.
Frame-Added :
    {l m n : DevList} {dev : Slot} (b : ℕ)
    → Added l dev b m
    → Frame m (next_of (length l.nodes)) n
    → Frame l dev n
Frame-Added {l} {m} b a f = record {
  grows = omega (arith, a.longer, f.grows);
  same_next = λ t v o.
      f.same_next t (Valid-mono l m t (omega (arith, a.longer)) v) (Other-new l t v)
      ∙ a.same_next t v o;
  same_base = λ i h. f.same_base i (omega (arith, a.longer)) ∙ a.same_base i h;
}

Refines-Added :
    {l m : DevList} {dev : Slot} {w : Found} {run : Option DevList} (b : ℕ)
    → Valid l dev
    → Added l dev b m
    → Refines m (next_of (length l.nodes)) w run
    → Refines l dev (found (b ∷ w.bases) (1 + w.count)) run
Refines-Added {l} {m} {dev} b v a r = record {
  out = r.out;
  returns = r.returns;
  chain = (
    length l.nodes,
    r.frame.same_next dev (Valid-mono l m dev (omega (arith, a.longer)) v) (Other-new l dev v)
        ∙ a.stored,
    r.frame.same_base (length l.nodes) (omega (arith, a.longer)) ∙ a.new_base,
    r.chain,
  );
  size = omega (arith, r.size, a.counted);
  frame = Frame-Added b a r.frame;
}

Refines-shift :
    {l m : DevList} {dev : Slot} {w : Found} {run : Option DevList} (k : ℕ)
    → Frame l dev m
    → m.size ≡ l.size + k
    → Refines m dev w run
    → Refines l dev (found w.bases (k + w.count)) run
Refines-shift k f e r = record {
  out = r.out;
  returns = r.returns;
  chain = r.chain;
  size = omega (arith, r.size);
  frame = Frame-trans f r.frame;
}

abbrev DeepRefines :
    (Slot → DevList → ℕ → ℕ → Option DevList) → (List ℕ → ℕ → ℕ → Option Found) → Type 0
DeepRefines run spec =
    (dev : Slot) (l : DevList) (cur : List ℕ) (base sdb : ℕ) (w : Found)
    → Valid l dev
    → Chain l dev cur
    → spec cur base sdb ≡ some w
    → Refines l dev w (run dev l base sdb)

module _ (run : Slot → DevList → ℕ → ℕ → Option DevList) (spec : List ℕ → ℕ → ℕ → Option Found)
    (deep : DeepRefines run spec) (devid base : ℕ) where
  -- what is left of a round once the bridge, if the record is one, has been searched
  abbrev rest_of : SdbRecord → List SdbRecord → Slot → DevList → Option DevList
  rest_of r rs dev m =
      all_loop run devid base rs (if is_match devid r then next_of (length m.nodes) else dev)
        (if is_match devid r then add_node m dev (address base r) else m)

  abbrev RestRefines : List SdbRecord → Type 0
  RestRefines rs =
      (dev : Slot) (l : DevList) (cur : List ℕ) (w : Found)
      → Valid l dev
      → Chain l dev cur
      → walk_loop spec devid base rs cur ≡ some w
      → Refines l dev w (all_loop run devid base rs dev l)

  after_match :
      (r : SdbRecord) (rs : List SdbRecord) (dev : Slot) (l m : DevList) (u w : Found)
      → Valid m dev
      → Frame l dev m
      → m.size ≡ l.size + u.count
      → RestRefines rs
      → (walk_loop spec devid base rs [] >>= λ v.
          some (found (address base r ∷ v.bases) (u.count + 1 + v.count)))
        ≡ some w
      → Refines l dev w
          (all_loop run devid base rs (next_of (length m.nodes)) (add_node m dev (address base r)))
  after_match r rs dev l m u w v f e ih h =
      let (x, ex, ew) = >>=-eq-some (walk_loop spec devid base rs []) _ h in
      let b = address base r in
      let a = add_node-Added m dev b v in
      let inner =
        ih (next_of (length m.nodes)) (add_node m dev b) [] x (omega (arith, a.longer)) a.end ex in
      subst
        (λ w.
          Refines l dev w
            (all_loop run devid base rs (next_of (length m.nodes)) (add_node m dev b)))
        (ap (found (b ∷ x.bases)) (omega arith) ∙ some_inj ew)
        (Refines-shift u.count f e (Refines-Added b v a inner))

  after_other :
      (rs : List SdbRecord) (dev : Slot) (l m : DevList) (u w : Found)
      → Valid m dev
      → Frame l dev m
      → m.size ≡ l.size + u.count
      → Chain m dev u.bases
      → RestRefines rs
      → (walk_loop spec devid base rs u.bases >>= λ v. some (found v.bases (u.count + v.count)))
        ≡ some w
      → Refines l dev w (all_loop run devid base rs dev m)
  after_other rs dev l m u w v f e c ih h =
      let (x, ex, ew) = >>=-eq-some (walk_loop spec devid base rs u.bases) _ h in
      subst (λ w. Refines l dev w (all_loop run devid base rs dev m)) (some_inj ew)
        (Refines-shift u.count f e (ih dev m u.bases x v c ex))

  after :
      (r : SdbRecord) (rs : List SdbRecord) (dev : Slot) (l m : DevList) (u w : Found)
      → Valid m dev
      → Frame l dev m
      → m.size ≡ l.size + u.count
      → Chain m dev u.bases
      → RestRefines rs
      → (walk_loop spec devid base rs (if is_match devid r then [] else u.bases) >>= λ v. some (
          if is_match devid r
          then found (address base r ∷ v.bases) (u.count + 1 + v.count)
          else found v.bases (u.count + v.count)))
        ≡ some w
      → Refines l dev w (rest_of r rs dev m)
  after r rs dev l m u w v f e c ih h = elim (Bool-cases (is_match devid r)) [
    | inl hit ↦ rw hit (after_match r rs dev l m u w v f e ih (simp hit at h))
    | inr miss ↦ rw miss (after_other rs dev l m u w v f e c ih (simp miss at h))
  ]

  all_loop-Refines : (rs : List SdbRecord) → RestRefines rs
  unfolding all_loop walk_loop
  all_loop-Refines [] dev l cur w v c e =
      subst (λ w. Refines l dev w (some l)) (some_inj e)
        (record {
          out = l;
          returns = refl;
          chain = c;
          size = omega arith;
          frame = Frame-refl l dev;
        })
  all_loop-Refines (r ∷ rs) dev l cur w v c e = elim (Bool-cases (is_bridge r)) [
    | inl bridge ↦
        let (u, eu, rest) =
          >>=-eq-some (spec cur (address base r) r.child_low) _ (simp bridge at e) in
        let d = deep dev l cur (address base r) r.child_low u v c eu in
        rw (bridge, d.returns)
          (after r rs dev l d.out u w (Valid-mono l d.out dev d.frame.grows v) d.frame d.size
            d.chain (all_loop-Refines rs) rest)
    | inr plain ↦ rw plain (
        after r rs dev l l (found cur 0) w v (Frame-refl l dev) (omega arith) c
          (all_loop-Refines rs) (simp plain at e))
  ]

-- At every depth the pointer version does what `walk` computes.
all_rec-Refines :
    (fuel : ℕ) (rom : Rom) (devid : ℕ)
    → DeepRefines (find_device_deep_all_rec fuel rom devid) (walk fuel rom devid)
unfolding find_device_deep_all_rec walk
all_rec-Refines zero rom devid dev l cur base sdb w v c e = cc
all_rec-Refines (suc fuel) rom devid dev l cur base sdb w v c e =
    all_loop-Refines (find_device_deep_all_rec fuel rom devid) (walk fuel rom devid)
      (all_rec-Refines fuel rom devid) devid base (rom sdb) dev l cur w v c e

-- The list that the search builds: its chain from `devices` and its size.
pub record Built (w : Found) (run : Option DevList) : Type 0 where
  pub out : DevList
  pub returns : run ≡ some out
  pub chain : Chain out devices w.bases
  pub size : out.size ≡ w.count

pub find_device_deep_all-Built :
    (fuel : ℕ) (rom : Rom) (devid base sdb : ℕ) (w : Found)
    → walk fuel rom devid [] base sdb ≡ some w
    → Built w (find_device_deep_all fuel rom devid base sdb)
unfolding find_device_deep_all
find_device_deep_all-Built fuel rom devid base sdb w e =
    let start : DevList = record { first = none; nodes = []; size = 0 } in
    let r = all_rec-Refines fuel rom devid devices start [] base sdb w tt refl e in
    record { out = r.out; returns = r.returns; chain = r.chain; size = omega (arith, r.size) }
