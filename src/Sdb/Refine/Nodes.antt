-- ===== src/Sdb/Refine/Nodes.antt =====
-- The nodes of a device list: what a slot holds, the chain of bases behind it, and what adding a
-- node changes.
use bpm_gw.Base.{
  ℕ, zero, suc, ◌+◌, ◌<◌, ◌≡◌, refl, ◌≢◌, Option, none, some, List, [], ◌∷◌, ◌++◌, arith, ap, sym,
  ◌∙◌, length,
}
use bpm_gw.Sdb.{Slot, devices, next_of, DevNode, DevList, write_node, add_node}

abbrev pub base_at : List DevNode → ℕ → Option ℕ
base_at [] i = none
base_at (n ∷ ns) zero = some n.base
base_at (n ∷ ns) (suc i) = base_at ns i

abbrev pub next_at : List DevNode → ℕ → Option ℕ
next_at [] i = none
next_at (n ∷ ns) zero = n.next
next_at (n ∷ ns) (suc i) = next_at ns i

abbrev pub read : DevList → Slot → Option ℕ
read l devices = l.first
read l (next_of i) = next_at l.nodes i

abbrev pub Valid : DevList → Slot → Type 0
Valid l devices = Unit {0}
Valid l (next_of i) = i < length l.nodes

abbrev pub Other : Slot → Slot → Type 0
Other devices devices = ⊥
Other devices (next_of j) = Unit {0}
Other (next_of i) devices = Unit {0}
Other (next_of i) (next_of j) = i ≢ j

-- From the slot `s` the pointers lead through nodes with these bases to null.
abbrev pub Chain : DevList → Slot → List ℕ → Type 0
Chain l s [] = read l s ≡ none
Chain l s (b ∷ bs) =
    (n : ℕ) × (read l s ≡ some n) × (base_at l.nodes n ≡ some b) × Chain l (next_of n) bs

module _ (new : DevNode) where
  length-write : (ns : List DevNode) (i : ℕ) (p : Option ℕ) → length (write_node ns i p) ≡ length ns
  unfolding write_node
  length-write [] i p = refl
  length-write (n ∷ ns) zero p = refl
  length-write (n ∷ ns) (suc i) p = ap suc (length-write ns i p)

  length-push : (ns : List DevNode) → length (ns ++ (new ∷ [])) ≡ suc (length ns)
  length-push [] = refl
  length-push (n ∷ ns) = ap suc (length-push ns)

  base-push :
      (ns : List DevNode) (i : ℕ) → i < length ns → base_at (ns ++ (new ∷ [])) i ≡ base_at ns i
  base-push [] i h = absurd (omega arith)
  base-push (n ∷ ns) zero h = refl
  base-push (n ∷ ns) (suc i) h = base-push ns i (omega arith)

  next-push :
      (ns : List DevNode) (i : ℕ) → i < length ns → next_at (ns ++ (new ∷ [])) i ≡ next_at ns i
  next-push [] i h = absurd (omega arith)
  next-push (n ∷ ns) zero h = refl
  next-push (n ∷ ns) (suc i) h = next-push ns i (omega arith)

  base-push_last :
      (ns : List DevNode) (i : ℕ) → i ≡ length ns → base_at (ns ++ (new ∷ [])) i ≡ some new.base
  base-push_last [] zero h = refl
  base-push_last [] (suc i) h = absurd (omega arith)
  base-push_last (n ∷ ns) zero h = absurd (omega arith)
  base-push_last (n ∷ ns) (suc i) h = base-push_last ns i (omega arith)

  next-push_last :
      (ns : List DevNode) (i : ℕ) → i ≡ length ns → next_at (ns ++ (new ∷ [])) i ≡ new.next
  next-push_last [] zero h = refl
  next-push_last [] (suc i) h = absurd (omega arith)
  next-push_last (n ∷ ns) zero h = absurd (omega arith)
  next-push_last (n ∷ ns) (suc i) h = next-push_last ns i (omega arith)

base-write :
    (ns : List DevNode) (i j : ℕ) (p : Option ℕ) → base_at (write_node ns i p) j ≡ base_at ns j
unfolding write_node
base-write [] i j p = refl
base-write (n ∷ ns) zero zero p = refl
base-write (n ∷ ns) zero (suc j) p = refl
base-write (n ∷ ns) (suc i) zero p = refl
base-write (n ∷ ns) (suc i) (suc j) p = base-write ns i j p

next-write_self :
    (ns : List DevNode) (i : ℕ) (p : Option ℕ) → i < length ns → next_at (write_node ns i p) i ≡ p
unfolding write_node
next-write_self [] i p h = absurd (omega arith)
next-write_self (n ∷ ns) zero p h = refl
next-write_self (n ∷ ns) (suc i) p h = next-write_self ns i p (omega arith)

next-write_ne :
    (ns : List DevNode) (i j : ℕ) (p : Option ℕ)
    → j ≢ i
    → next_at (write_node ns i p) j ≡ next_at ns j
unfolding write_node
next-write_ne [] i j p h = refl
next-write_ne (n ∷ ns) zero zero p h = absurd (h refl)
next-write_ne (n ∷ ns) zero (suc j) p h = refl
next-write_ne (n ∷ ns) (suc i) zero p h = refl
next-write_ne (n ∷ ns) (suc i) (suc j) p h = next-write_ne ns i j p (λ e. h (ap suc e))

-- What `add_node` has done to a list, through a valid slot.
pub record Added (l : DevList) (dev : Slot) (b : ℕ) (l' : DevList) : Type 0 where
  pub longer : length l'.nodes ≡ suc (length l.nodes)
  pub stored : read l' dev ≡ some (length l.nodes)
  pub end : next_at l'.nodes (length l.nodes) ≡ none
  pub new_base : base_at l'.nodes (length l.nodes) ≡ some b
  pub counted : l'.size ≡ l.size + 1
  pub same_next : (t : Slot) → Valid l t → Other t dev → read l' t ≡ read l t
  pub same_base : (i : ℕ) → i < length l.nodes → base_at l'.nodes i ≡ base_at l.nodes i

abbrev fresh : ℕ → DevNode
fresh b = record { base = b; next = none }

same-next_devices :
    (l : DevList) (b : ℕ) (t : Slot)
    → Valid l t
    → Other t devices
    → read (add_node l devices b) t ≡ read l t
unfolding add_node
same-next_devices l b devices v o = absurd o
same-next_devices l b (next_of j) v o = next-push (fresh b) l.nodes j v

same-next_next_of :
    (l : DevList) (k b : ℕ) (t : Slot)
    → Valid l t
    → Other t (next_of k)
    → read (add_node l (next_of k) b) t ≡ read l t
unfolding add_node
same-next_next_of l k b devices v o = refl
same-next_next_of l k b (next_of j) v o =
    let ns = l.nodes in
    let p = some (length ns) in
    next-push (fresh b) (write_node ns k p) j (rw (length-write (fresh b) ns k p) v)
    ∙ next-write_ne ns k j p o

pub add_node-Added :
    (l : DevList) (dev : Slot) (b : ℕ) → Valid l dev → Added l dev b (add_node l dev b)
unfolding add_node
add_node-Added l devices b v = record {
  longer = length-push (fresh b) l.nodes;
  stored = refl;
  end = next-push_last (fresh b) l.nodes (length l.nodes) refl;
  new_base = base-push_last (fresh b) l.nodes (length l.nodes) refl;
  counted = refl;
  same_next = same-next_devices l b;
  same_base = base-push (fresh b) l.nodes;
}
add_node-Added l (next_of k) b v =
    let ns = l.nodes in
    let p = some (length ns) in
    let ms = write_node ns k p in
    let e : length ms ≡ length ns = length-write (fresh b) ns k p in
    record {
      longer = length-push (fresh b) ms ∙ ap suc e;
      stored = next-push (fresh b) ms k (rw e v) ∙ next-write_self ns k p v;
      end = next-push_last (fresh b) ms (length ns) (sym e);
      new_base = base-push_last (fresh b) ms (length ns) (sym e);
      counted = refl;
      same_next = same-next_next_of l k b;
      same_base = λ i h. base-push (fresh b) ms i (rw e h) ∙ base-write ns k i p;
    }
