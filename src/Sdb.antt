-- ===== src/Sdb.antt =====
-- history/embedded-sw/dev/sdb.c: the search of the self-describing bus for devices.
-- The bus ROM is not code of the repository: it is a function from the address of a table to the
-- `sdb_records` records that stand there, the table's own interconnect record first. The recursion
-- into bridges has fuel, one unit for each level; `none` is a run that needs more.
-- `memmgr_alloc` is a library that the code only calls: here each call gives fresh memory, and the
-- address of a node is its number in the order of allocation.
pub mod Walk
pub mod Refine
pub mod Depth
pub mod Loss
pub mod Quiet
pub mod Find
pub mod Devices
use bpm_gw.Base.{
  ℕ, zero, suc, ◌+◌, ◌%◌, ◌^◌, Bool, Option, none, some, List, [], ◌∷◌, ◌++◌, ◌&&◌, ◌==◌,
  if◌then◌else◌, ◌>>=◌, length, map,
}

abbrev pub sdb_device : ℕ
sdb_device = 0x01

abbrev pub sdb_bridge : ℕ
sdb_bridge = 0x02

-- `union sdb_record`, by the fields that the search reads. `addr_first_low` stands at one offset in
-- the device and in the bridge variant; `child_low` is `bridge.sdb_child.low`.
pub record SdbRecord : Type 0 where
  pub record_type : ℕ
  pub child_low : ℕ
  pub addr_first_low : ℕ
  pub device_id : ℕ

abbrev pub Rom : Type 0
Rom = ℕ → List SdbRecord

abbrev pub is_bridge : SdbRecord → Bool
is_bridge r = r.record_type == sdb_bridge

-- the test of both searches for a device record with the id
abbrev pub is_match : ℕ → SdbRecord → Bool
is_match devid r = (r.record_type == sdb_device) && (r.device_id == devid)

-- `base + addr_first.low` on a 32-bit `unsigned int`
abbrev pub address : ℕ → SdbRecord → ℕ
address base r = (base + r.addr_first_low) % 2 ^ 32

-- The loop of `find_device_deep` over one table; `deep` is the call into a bridge. A null pointer
-- is 0.
unfoldable pub find_loop : (ℕ → ℕ → Option ℕ) → ℕ → ℕ → List SdbRecord → Option ℕ
find_loop deep devid base [] = some 0
find_loop deep devid base (r ∷ rs) =
    let rest = find_loop deep devid base rs in
    let here = if is_match devid r then some (address base r) else rest in
    if is_bridge r
    then (deep (address base r) r.child_low >>= λ out. if out == 0 then here else some out)
    else here

unfoldable pub find_device_deep : ℕ → Rom → ℕ → ℕ → ℕ → Option ℕ
unfolding find_loop
find_device_deep zero rom devid base sdb = none
find_device_deep (suc fuel) rom devid base sdb =
    find_loop (find_device_deep fuel rom devid) devid base (rom sdb)

-- `struct dev_node`; `next` is the number of another node.
pub record DevNode : Type 0 where
  pub base : ℕ
  pub next : Option ℕ

-- What `struct dev_node **dev` points at: the list's `devices`, or the `next` of a node.
pub data Slot : Type 0 where
  devices : Slot
  next_of : ℕ → Slot

-- The nodes allocated so far, with the `devices` and the `size` of the `struct dev_list`.
pub record DevList : Type 0 where
  pub first : Option ℕ
  pub nodes : List DevNode
  pub size : ℕ

-- `*dev = p`
unfoldable pub write_node : List DevNode → ℕ → Option ℕ → List DevNode
write_node [] i p = []
write_node (n ∷ ns) zero p = record n { next = p } ∷ ns
write_node (n ∷ ns) (suc i) p = n ∷ write_node ns i p

unfoldable pub write_slot : DevList → Slot → Option ℕ → DevList
unfolding write_node
write_slot l devices p = record l { first = p }
write_slot l (next_of i) p = record l { nodes = write_node l.nodes i p }

-- A new node behind `*dev`: it is stored there, its `next` is null, and `size` is counted up.
unfoldable pub add_node : DevList → Slot → ℕ → DevList
unfolding write_slot
add_node l dev b =
    let l' = write_slot l dev (some (length l.nodes)) in
    record {
      first = l'.first;
      nodes = l'.nodes ++ (record { base = b; next = none } ∷ []);
      size = l.size + 1;
    }

-- The loop of `find_device_deep_all_rec`. `dev` is a local variable: what a call into a bridge does
-- to its own copy is lost when the call returns.
unfoldable pub all_loop :
    (Slot → DevList → ℕ → ℕ → Option DevList)
    → ℕ
    → ℕ
    → List SdbRecord
    → Slot
    → DevList
    → Option DevList
unfolding add_node
all_loop deep devid base [] dev l = some l
all_loop deep devid base (r ∷ rs) dev l =
    (if is_bridge r then deep dev l (address base r) r.child_low else some l) >>= λ l'.
    all_loop deep devid base rs (if is_match devid r then next_of (length l'.nodes) else dev)
      (if is_match devid r then add_node l' dev (address base r) else l')

unfoldable pub find_device_deep_all_rec : ℕ → Rom → ℕ → Slot → DevList → ℕ → ℕ → Option DevList
unfolding all_loop
find_device_deep_all_rec zero rom devid dev l base sdb = none
find_device_deep_all_rec (suc fuel) rom devid dev l base sdb =
    all_loop (find_device_deep_all_rec fuel rom devid) devid base (rom sdb) dev l

unfoldable pub find_device_deep_all : ℕ → Rom → ℕ → ℕ → ℕ → Option DevList
unfolding find_device_deep_all_rec
find_device_deep_all fuel rom devid base sdb =
    find_device_deep_all_rec fuel rom devid devices (record { first = none; nodes = []; size = 0 })
      base sdb

abbrev pub sdb_address : ℕ
sdb_address = 0x30000000

unfoldable pub find_device_all : ℕ → Rom → ℕ → Option DevList
unfolding find_device_deep_all
find_device_all fuel rom devid = find_device_deep_all fuel rom devid 0 sdb_address

-- the ids of the memory, DMA, Ethernet MAC, its adapter, Etherbone configuration, FMC516, SPI, I2C,
-- 1-wire, UART, GPIO and timer cores
abbrev pub device_ids : List ℕ
device_ids =
    0x66cfeb52 ∷ 0xcababa56 ∷ 0xf8cfeb16 ∷ 0x2ff9a28e ∷ 0x68202b22 ∷ 0x27b95341 ∷ 0x40286417
    ∷ 0x97b6323d ∷ 0x525fbb09 ∷ 0x8a5719ae ∷ 0x35aa6b95 ∷ 0xfdafb9dd ∷ []

-- The twelve global lists, in the order in which they are set.
unfoldable pub sdb_find_devices : ℕ → Rom → List (Option DevList)
unfolding find_device_all
sdb_find_devices fuel rom = map (find_device_all fuel rom) device_ids
