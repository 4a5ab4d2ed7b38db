-- ===== src/Sdb/Devices.antt =====
-- The results on `find_device_deep_all` of history/embedded-sw/dev/sdb.c.
mod Tests
use bpm_gw.Base.{
  [], ◌∷◌, refl, ap, ap₂, map, Option, ◌>>=◌, ℕ, suc, ◌≤◌, ◌<◌, ◌≡◌, ◌∙◌, sym, some, List, arith,
  length,
}
use bpm_gw.Sdb.{
  Rom, devices, DevList, find_device_deep_all, sdb_address, find_device_all, device_ids,
  sdb_find_devices,
}
use bpm_gw.Sdb.Walk.{found, walk, matches}
use bpm_gw.Sdb.Refine.{Chain, Built, find_device_deep_all-Built}
use bpm_gw.Sdb.Depth.{Nested, matches-total}
use bpm_gw.Sdb.Loss.{Shadows, Tally, walk-Counts, walk_loop-Tally}
use bpm_gw.Sdb.Quiet.{Quiet, walk-Quiet}

-- Where the tables are nested at most `fuel` deep, the search for all devices returns a list whose
-- `size` is the number of matching devices at all depths, and whose chain of nodes from `devices`
-- ends in a null pointer and has at most that many nodes.
pub size-find_device_deep_all :
    (fuel : ℕ) (rom : Rom) (devid base sdb : ℕ)
    → Nested fuel rom sdb
    → (l : DevList) × (ms : List ℕ) × (xs : List ℕ) × (find_device_deep_all fuel rom devid base sdb
        ≡ some l)
      × (matches fuel rom devid base sdb ≡ some ms)
      × (l.size ≡ length ms)
      × Chain l devices xs
      × (length xs ≤ l.size)
size-find_device_deep_all fuel rom devid base sdb h =
    let (ms, em) = matches-total fuel rom devid base sdb h in
    let (w, ew, c) = walk-Counts fuel rom devid base sdb List.[] ms em in
    let b = find_device_deep_all-Built fuel rom devid base sdb w ew in
    (b.out, ms, w.bases, b.returns, em, b.size ∙ c.0, b.chain, omega (arith, b.size, c))

-- If no bridge of the top table leads to a matching device, then the list of `find_device_deep_all`
-- holds exactly the bases of the matching devices, in order, and its `size` is their number.
pub flat-find_device_deep_all :
    (fuel : ℕ) (rom : Rom) (devid base sdb : ℕ) (ms : List ℕ)
    → matches (suc fuel) rom devid base sdb ≡ some ms
    → Quiet (matches fuel rom devid) base (rom sdb)
    → (l : DevList) × (find_device_deep_all (suc fuel) rom devid base sdb ≡ some l)
      × Chain l devices ms
      × (l.size ≡ length ms)
flat-find_device_deep_all fuel rom devid base sdb ms em q =
    let w = found ms (length ms) in
    let b =
      find_device_deep_all-Built (suc fuel) rom devid base sdb w
        (walk-Quiet fuel rom devid base sdb ms q em) in
    (b.out, b.returns, b.chain, b.size)

-- If in the top table a bridge with a matching device behind it stands before a matching record,
-- then the chain of nodes of `find_device_deep_all` is shorter than the `size` that it reports, and
-- not empty.
pub shadowed-find_device_deep_all :
    (fuel : ℕ) (rom : Rom) (devid base sdb : ℕ) (ms : List ℕ)
    → matches (suc fuel) rom devid base sdb ≡ some ms
    → Shadows (matches fuel rom devid) devid base (rom sdb)
    → (l : DevList) × (xs : List ℕ) × (find_device_deep_all (suc fuel) rom devid base sdb ≡ some l)
      × Chain l devices xs
      × (length xs < l.size)
      × (0 < length xs)
unfolding walk matches
shadowed-find_device_deep_all fuel rom devid base sdb ms em s =
    let t =
      walk_loop-Tally (matches fuel rom devid) (walk fuel rom devid) (walk-Counts fuel rom devid)
        devid base (rom sdb) List.[] ms em in
    let b = find_device_deep_all-Built (suc fuel) rom devid base sdb t.w t.returns in
    (b.out, t.w.bases, b.returns, b.chain, omega (arith, b.size, t.count, t.loses s), t.stays s)

-- How many devices with the id there are.
abbrev pub device_count : ℕ → Rom → ℕ → Option ℕ
device_count fuel rom devid = matches fuel rom devid 0 sdb_address >>= λ ms. some (length ms)

each_id :
    (fuel : ℕ) (rom : Rom) (ids : List ℕ)
    → Nested fuel rom sdb_address
    → (ls : List DevList) × (map (find_device_all fuel rom) ids ≡ map some ls)
      × (map (λ l. some l.size) ls ≡ map (device_count fuel rom) ids)
unfolding find_device_all
each_id fuel rom [] h = ([], refl, refl)
each_id fuel rom (d ∷ ds) h =
    let (l, ms, xs, e, em, size, chain, short) =
      size-find_device_deep_all fuel rom d 0 sdb_address h in
    let (ls, es, sizes) = each_id fuel rom ds h in
    let count : device_count fuel rom d ≡ some (length ms) = rw em refl in
    (
      l ∷ ls,
      ap₂ (λ (o : Option DevList) (os : List (Option DevList)). o ∷ os) e es,
      ap₂ (λ (o : Option ℕ) (os : List (Option ℕ)). o ∷ os) (ap some size ∙ sym count) sizes,
    )

-- Where the tables are nested at most `fuel` deep, the start of the firmware finds all twelve lists of
-- devices, and the `size` of each is the number of devices with its id.
pub sdb_find_devices-sizes :
    (fuel : ℕ) (rom : Rom)
    → Nested fuel rom sdb_address
    → (ls : List DevList) × (sdb_find_devices fuel rom ≡ map some ls)
      × (map (λ l. some l.size) ls ≡ map (device_count fuel rom) device_ids)
unfolding sdb_find_devices
sdb_find_devices-sizes fuel rom h = each_id fuel rom device_ids h
