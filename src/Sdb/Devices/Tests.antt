-- ===== src/Sdb/Devices/Tests.antt =====
-- The search on concrete tables.
use bpm_gw.Base.{ℕ, ◌≤◌, ◌≡◌, refl, some, none, List, [], ◌∷◌, ◌==◌, if◌then◌else◌, arith, length}
use bpm_gw.Sdb.{SdbRecord, Rom, devices, DevList, find_device_deep_all, find_device_deep}
use bpm_gw.Sdb.Walk.{matches}
use bpm_gw.Sdb.Refine.{Chain}
use bpm_gw.Sdb.Find.{find_device_deep-first}
use bpm_gw.Sdb.Devices.{size-find_device_deep_all, flat-find_device_deep_all}

abbrev interconnect : SdbRecord
interconnect = record { record_type = 0; child_low = 0; addr_first_low = 0; device_id = 0 }

abbrev device : ℕ → ℕ → SdbRecord
device addr id = record { record_type = 1; child_low = 0; addr_first_low = addr; device_id = id }

abbrev bridge : ℕ → ℕ → SdbRecord
bridge addr child = record {
  record_type = 2;
  child_low = child;
  addr_first_low = addr;
  device_id = 0;
}

-- A bus with two UARTs (id 7) at the top, and below the bridge at 0x100 a UART and a timer (id 9).
abbrev rom : Rom
rom sdb =
    if sdb == 0
    then interconnect ∷ device 0x10 7 ∷ bridge 0x100 1 ∷ device 0x20 7 ∷ []
    else interconnect ∷ device 0x4 7 ∷ device 0x8 9 ∷ []

-- The UART behind the bridge is counted and lost.
lost :
    find_device_deep_all 2 rom 7 0 0
    ≡ some (record {
      first = some 0;
      nodes =
          record { base = 0x10; next = some 2 }
          ∷ record { base = 0x104; next = none }
          ∷ record { base = 0x20; next = none }
          ∷ [];
      size = 3;
    })
unfolding find_device_deep_all
lost = refl

size-find_device_deep_all_example :
    (l : DevList) × (ms : List ℕ) × (xs : List ℕ) × (find_device_deep_all 2 rom 7 0 0 ≡ some l)
    × (matches 2 rom 7 0 0 ≡ some ms)
    × (l.size ≡ length ms)
    × Chain l devices xs
    × (length xs ≤ l.size)
size-find_device_deep_all_example = size-find_device_deep_all 2 rom 7 0 0 (grind arith)

flat-find_device_deep_all_example :
    (l : DevList) × (find_device_deep_all 2 rom 9 0x100 1 ≡ some l)
    × Chain l devices (0x108 ∷ [])
    × (l.size ≡ 1)
unfolding matches
flat-find_device_deep_all_example =
    flat-find_device_deep_all 1 rom 9 0x100 1 (0x108 ∷ []) refl (grind arith)

find_device_deep-first_example : find_device_deep 2 rom 9 0 0 ≡ some 0x108
unfolding matches
find_device_deep-first_example =
    find_device_deep-first 2 rom 9 0 0 (0x108 ∷ []) refl ((λ e. omega arith), tt)

-- The same devices on the bus at the address that the firmware uses, and a GPIO core.
abbrev bus_rom : Rom
bus_rom sdb = interconnect ∷ device 0x10 0x8a5719ae ∷ device 0x20 0x35aa6b95 ∷ []
