-- ===== src/Fmc150/Load/Tests.antt =====
-- A core that is busy for one read after each access of the chip.
use bpm_gw.Base.{◌≡◌, refl, Bool, true, false, ◌==◌, if◌then◌else◌, inl, inr, Bool-cases}
use bpm_gw.Bus.{Bus, ok}
use bpm_gw.Fmc150.{init_cdce72010, cdce72010_regs}
use bpm_gw.Fmc150.Chip.{Wires, accessed, Chip}
use bpm_gw.Fmc150.Load.{load, init_cdce72010-load}

record Core : Type 0 where
  wires : Wires
  busy : Bool

abbrev core_bus : Bus Core
core_bus = record {
  read = λ s r. (
    if r == 0x11c
        then (if s.busy then 1 else 0)
        else if r == 0x104
        then s.wires.flags
        else if r == 0x110
        then s.wires.selected
        else s.wires.found,
    if r == 0x11c then record s { busy = false } else s,
  );
  write = λ s r v.
      (if r == 0x104
        then record s { wires = record s.wires { flags = v } }
        else if r == 0x108
        then record s { wires = record s.wires { addr = v } }
        else if r == 0x10c
        then record s { wires = record s.wires { written = v } }
        else record s { wires = accessed s.wires; busy = true });
}

abbrev clock_chip : Chip core_bus 0x100
clock_chip = record {
  wires = λ s. s.wires;
  keeps = λ s r. elim (Bool-cases (r == 0x11c)) [
    | inl status ↦ rw status refl
    | inr other ↦ rw other refl
  ];
  shows_flags = λ s. refl;
  shows_selected = λ s. refl;
  shows_found = λ s. refl;
  sets_flags = λ s v. refl;
  sets_addr = λ s v. refl;
  sets_written = λ s v. refl;
  accesses = λ s. refl;
  settles = λ s. inr (inl refl);
  stays = λ s calm. refl;
}

abbrev empty : Core
empty = record {
  wires = record { flags = 1; addr = 0; written = 0; selected = 0; found = 0; regs = λ i. 0 };
  busy = true;
}

init_cdce72010-load_example :
    (s' : Core) × (init_cdce72010 core_bus 0x100 7 empty ≡ (ok, s'))
    × ((clock_chip.wires s').regs ≡ load cdce72010_regs 0 (λ i. 0))
init_cdce72010-load_example = init_cdce72010-load core_bus 0x100 clock_chip 7 empty
