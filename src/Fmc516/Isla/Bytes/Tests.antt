-- ===== src/Fmc516/Isla/Bytes/Tests.antt =====
-- A chip whose register at an address holds twice the address, on a core that ends each exchange at
-- once. The chip answers by the number of exchanges since it began to watch.
use bpm_gw.Base.{
  ℕ, ◌+◌, ◌-◌, ◌*◌, ◌^◌, ◌≡◌, refl, Option, some, none, true, List, [], bit_and, ◌==◌,
  if◌then◌else◌, inl, arith, length, Bool-cases, inr,
}
use bpm_gw.Bus.{Bus, wait}
use bpm_gw.Spi.{oc_spi_three_mode_tx, oc_spi_three_mode_rx}
use bpm_gw.Spi.Transfer.{Log, Exchange, Core, started}
use bpm_gw.Spi.ThreeMode.{exchanged, tx_control}
use bpm_gw.Fmc516.Isla.{fmc516_isla216_read_n, shift_right, fmc516_isla216_get_chipid}
use bpm_gw.Fmc516.Isla.Bytes.{little_endian, answered, after_reads, fmc516_isla216_read_n-answered}

-- the bytes 2, 4, 6, … of the exchanges behind the instruction, with noise above the byte
abbrev reply : List Exchange → ℕ
reply es = 0x5500 + 2 * (length es - 1)

abbrev chip_bus : Bus Log
chip_bus = record {
  read = λ s r. (
    (if r == 0x1000 then reply s.exchanges else if bit_and s.ctrl 0x100 == 0 then s.ctrl else 0),
    s,
  );
  write = λ s r v.
      (if r == 0x1010
        then (if bit_and v 0x100 == 0 then record s { ctrl = v } else started v s)
        else if r == 0x1000
        then record s { tx = v }
        else record s { ss = v });
}

idle_word : (c : ℕ) → (bit_and (if bit_and c 0x100 == 0 then c else 0) 0x100 == 0) ≡ true
idle_word c = elim (Bool-cases (bit_and c 0x100 == 0)) [
  | inl quiet ↦ rw quiet quiet
  | inr busy ↦ rw busy refl
]

abbrev chip_core : Core chip_bus 1 0x1000
chip_core = record {
  log = λ s. s;
  reads = λ s r. refl;
  controls = λ s c h. rw h refl;
  reads_back = λ s h. rw h refl;
  starts = λ s c h. rw h refl;
  loads = λ s v. refl;
  selects = λ s v. refl;
  settles = λ s. inl (idle_word s.ctrl);
}

abbrev quiet : Log
quiet = record { ctrl = 0; tx = 0; ss = 0; exchanges = [] }

fmc516_isla216_read_n-answered_example :
    (l : Log) × (l
      ≡ exchanged
          (tx_control (18 * 2 ^ 9) 16)
          2
          (record quiet { tx = 2 ^ 15 + (3 - 1) * 2 ^ 13 + 0x2b }))
    × (s' : Log) × (fmc516_isla216_read_n chip_bus 1 0x1000 (18 * 2 ^ 9) 0x2b 3 2 quiet
        ≡ some (
          little_endian (answered chip_bus 1 0x1000 chip_core 18 2 reply (λ s c k h e. refl) 3 l),
          s',
        ))
    × (s' ≡ after_reads chip_bus 1 0x1000 chip_core 18 2 reply (λ s c k h e. refl) 3 l)
fmc516_isla216_read_n-answered_example =
    fmc516_isla216_read_n-answered chip_bus 1 0x1000 chip_core 18 2 reply (λ s c k h e. refl) 0x2b 3
      quiet (omega arith) (omega arith) (omega arith)

abbrev number_of : Option (ℕ × Log) → ℕ
number_of none = 0
number_of (some (n, l)) = n

three_bytes :
    number_of (fmc516_isla216_read_n chip_bus 1 0x1000 (18 * 2 ^ 9) 0x2b 3 2 quiet) ≡ 0x060402
unfolding fmc516_isla216_read_n oc_spi_three_mode_tx oc_spi_three_mode_rx wait
three_bytes = refl

chipid : number_of (fmc516_isla216_get_chipid chip_bus 1 0x1000 (18 * 2 ^ 9) 2 quiet) ≡ 2
unfolding fmc516_isla216_get_chipid oc_spi_three_mode_tx oc_spi_three_mode_rx wait
chipid = refl

minus_one_shifted : shift_right 0xffffff80 8 ≡ 0xffffffff
minus_one_shifted = refl
