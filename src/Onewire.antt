-- ===== src/Onewire.antt =====
-- history/embedded-sw/dev/onewire.c: bits and bytes on the 1-wire bus.
-- `a` is the address of the core, which the code finds as `owr[id]`; its registers `CSR` and `CDR` are
-- the first two words. Each function gives its results and the state of the devices; `none` is a
-- polling loop that needs more fuel.
pub mod Bytes
use bpm_gw.Base.{
  ℤ, ℕ, zero, suc, ◌+◌, ◌-◌, ◌*◌, ◌/◌, ◌%◌, ◌^◌, Option, some, bit_and, bit_or, ◌==◌, if◌then◌else◌,
  ◌>>=◌,
}
use bpm_gw.Bus.{Bus, wait, ok, failed}

abbrev pub owr_csr_dat : ℕ
owr_csr_dat = 1

abbrev pub owr_csr_rst : ℕ
owr_csr_rst = 2

abbrev pub owr_csr_cyc : ℕ
owr_csr_cyc = 8

-- `OWR_CSR_SEL(x)`
abbrev pub owr_csr_sel : ℕ → ℕ
owr_csr_sel x = bit_and ((x * 2 ^ 8) % 2 ^ 32) 0xF00

module _ {S : Type 0} (bus : Bus S) (fuel a port : ℕ) where
  unfoldable pub oc_owr_reset : S → Option (ℕ × S)
  oc_owr_reset s =
      let csr = bit_or (bit_or (owr_csr_sel port) owr_csr_cyc) owr_csr_rst in
      wait bus fuel a owr_csr_cyc (bus.write s a csr) >>= λ s1.
      (let (v, s2) = bus.read s1 a in some (bit_and (2 ^ 32 - 1 - v) owr_csr_dat, s2))

  unfoldable pub oc_owr_slot : ℕ → S → Option (ℕ × S)
  oc_owr_slot in_bit s =
      let csr = bit_or (bit_or (owr_csr_sel port) owr_csr_cyc) (bit_and in_bit owr_csr_dat) in
      wait bus fuel a owr_csr_cyc (bus.write s a csr) >>= λ s1.
      (let (v, s2) = bus.read s1 a in some (bit_and v owr_csr_dat, s2))

  abbrev pub oc_owr_read_bit : S → Option (ℕ × S)
  oc_owr_read_bit s = oc_owr_slot 1 s

  abbrev pub oc_owr_write_bit : ℕ → S → Option (ℕ × S)
  oc_owr_write_bit in_bit s = oc_owr_slot in_bit s

  -- the loop of `read_byte`, with `n` rounds left
  unfoldable pub read_loop : ℕ → ℕ → ℕ → S → Option (ℕ × S)
  read_loop zero i owr_data s = some (owr_data, s)
  read_loop (suc n) i owr_data s =
      oc_owr_read_bit s >>= λ r. read_loop n (suc i) (bit_or owr_data ((r.0 * 2 ^ i) % 2 ^ 32)) r.1

  -- the byte that `read_byte` stores in `*out_byte`
  unfoldable pub read_byte : S → Option (ℕ × S)
  unfolding read_loop
  read_byte s = read_loop 8 0 0 s

  -- the loop of `write_byte`: what comes back is collected in `owr_data`
  unfoldable pub write_loop : ℕ → ℕ → ℕ → ℕ → S → Option (ℕ × S)
  write_loop zero i owr_data owr_byte s = some (owr_data, s)
  write_loop (suc n) i owr_data owr_byte s = oc_owr_write_bit (bit_and owr_byte 1) s >>= λ r.
      write_loop n (suc i) (bit_or owr_data ((r.0 * 2 ^ i) % 2 ^ 32)) (owr_byte / 2) r.1

  unfoldable pub write_byte : ℕ → S → Option (ℤ × S)
  unfolding write_loop
  write_byte in_byte s =
      write_loop 8 0 0 in_byte s >>= λ r. some ((if r.0 == in_byte then ok else failed), r.1)
