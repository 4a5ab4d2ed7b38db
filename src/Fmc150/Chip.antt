-- ===== src/Fmc150/Chip.antt =====
-- The contract of the core of history/embedded-sw/fmc/fmc150/fmc150.c and of the clock chip behind it.
use bpm_gw.Base.{ℕ, ◌+◌, ◌≡◌, true, bit_and, bit_xor, ◌==◌, if◌then◌else◌}
use bpm_gw.Bus.{Bus, idle, Settles}
use bpm_gw.Fmc150.{flgs_in, addr_in, data_in, chip_select, data_out, flgs_out}

abbrev pub store_reg : ℕ → ℕ → (ℕ → ℕ) → ℕ → ℕ
store_reg i v f k = if k == i then v else f k

-- What is written to the core, its answer, and the registers of the clock chip.
pub record Wires : Type 0 where
  pub flags : ℕ
  pub addr : ℕ
  pub written : ℕ
  pub selected : ℕ
  pub found : ℕ
  pub regs : ℕ → ℕ

-- A change of the chip select accesses the chip, by the direction in the flags.
abbrev pub accessed : Wires → Wires
accessed w =
    if bit_and w.flags 1 == 0
    then record w { selected = bit_xor w.selected 1; regs = store_reg w.addr w.written w.regs }
    else record w { selected = bit_xor w.selected 1; found = w.regs w.addr }

-- A core that is idle in one of ten reads, stays so until it is written to, and keeps its promises on
-- the registers.
pub record Chip {S : Type 0} (bus : Bus S) (a : ℕ) : Type 0 where
  pub wires : S → Wires
  pub keeps : (s : S) (r : ℕ) → wires (bus.read s r).1 ≡ wires s
  pub shows_flags : (s : S) → (bus.read s (a + flgs_in)).0 ≡ (wires s).flags
  pub shows_selected : (s : S) → (bus.read s (a + chip_select)).0 ≡ (wires s).selected
  pub shows_found : (s : S) → (bus.read s (a + data_out)).0 ≡ (wires s).found
  pub sets_flags :
      (s : S) (v : ℕ) → wires (bus.write s (a + flgs_in) v) ≡ record (wires s) { flags = v }
  pub sets_addr :
      (s : S) (v : ℕ) → wires (bus.write s (a + addr_in) v) ≡ record (wires s) { addr = v }
  pub sets_written :
      (s : S) (v : ℕ) → wires (bus.write s (a + data_in) v) ≡ record (wires s) { written = v }
  pub accesses :
      (s : S)
      → wires (bus.write s (a + chip_select) (bit_xor (wires s).selected 1)) ≡ accessed (wires s)
  pub settles : (s : S) → Settles bus 10 (a + flgs_out) 1 s
  pub stays :
      (s : S)
      → idle bus (a + flgs_out) 1 s ≡ true
      → idle bus (a + flgs_out) 1 (bus.read s (a + flgs_out)).1 ≡ true
