-- ===== src/Sdb/Walk.antt =====
-- What the two searches of sdb.c compute, on lists: `walk` follows the assignments to `*dev` with no
-- heap, and `matches` is the depth-first list of the matching devices, which the search is to give.
use bpm_gw.Base.{ℕ, zero, suc, ◌+◌, Option, some, none, List, [], ◌∷◌, ◌++◌, if◌then◌else◌, ◌>>=◌}
use bpm_gw.Sdb.{SdbRecord, Rom, is_bridge, is_match, address}

-- The bases that can be reached from `*dev`, and how often `size` has been counted up.
pub record Found : Type 0 where
  pub bases : List ℕ
  pub count : ℕ

abbrev pub found : List ℕ → ℕ → Found
found xs n = record { bases = xs; count = n }

-- `cur` is what can be reached from `*dev` when the loop comes to the records.
unfoldable pub walk_loop :
    (List ℕ → ℕ → ℕ → Option Found) → ℕ → ℕ → List SdbRecord → List ℕ → Option Found
walk_loop deep devid base [] cur = some (found cur 0)
walk_loop deep devid base (r ∷ rs) cur =
    (if is_bridge r then deep cur (address base r) r.child_low else some (found cur 0)) >>= λ w.
    walk_loop deep devid base rs (if is_match devid r then [] else w.bases) >>= λ v. some (
      if is_match devid r
      then found (address base r ∷ v.bases) (w.count + 1 + v.count)
      else found v.bases (w.count + v.count))

unfoldable pub walk : ℕ → Rom → ℕ → List ℕ → ℕ → ℕ → Option Found
unfolding walk_loop
walk zero rom devid cur base sdb = none
walk (suc fuel) rom devid cur base sdb = walk_loop (walk fuel rom devid) devid base (rom sdb) cur

-- The specification: every matching device, depth first.
unfoldable pub match_loop : (ℕ → ℕ → Option (List ℕ)) → ℕ → ℕ → List SdbRecord → Option (List ℕ)
match_loop deep devid base [] = some []
match_loop deep devid base (r ∷ rs) =
    (if is_bridge r then deep (address base r) r.child_low else some []) >>= λ inner.
    match_loop deep devid base rs >>= λ rest.
    some (inner ++ (if is_match devid r then address base r ∷ rest else rest))

unfoldable pub matches : ℕ → Rom → ℕ → ℕ → ℕ → Option (List ℕ)
unfolding match_loop
matches zero rom devid base sdb = none
matches (suc fuel) rom devid base sdb = match_loop (matches fuel rom devid) devid base (rom sdb)
