-- ===== src/I2c/Commands.antt =====
-- What history/embedded-sw/dev/i2c.c writes to the core.
mod Tests
use bpm_gw.Base.{
  ℕ, zero, suc, ◌+◌, ◌*◌, ◌^◌, ◌%◌, ◌≡◌, refl, sym, ap, ◌∙◌, Bool, true, false, not, Option, some,
  none, List, [], ◌∷◌, ◌++◌, bit_and, bit_or, ◌==◌, if◌then◌else◌, ◌>>=◌, ℤ, append-nil,
  append_assoc, inl, inr, Bool-cases,
}
use bpm_gw.Bus.{Bus, wait, wait-keeps, Settles, ok, failed}
use bpm_gw.I2c.{
  i2c_txr, i2c_cr, i2c_sr, i2c_addr, run_command, oc_i2c_start, scan_stop, scan_loop, oc_i2c_scan,
}

-- A command with the byte that was in the transmit register.
pub record Issued : Type 0 where
  pub command : ℕ
  pub byte : ℕ

-- What has been written to a core: the byte at the transmit register, the commands where `struct I2C_WB`
-- has `CR`, and the values at the address `I2C_CR` of the list of registers in wb_i2c.h.
pub record Log : Type 0 where
  pub issued : List Issued
  pub txr : ℕ
  pub at_i2c_cr : List ℕ

abbrev pub after_command : ℕ → Log → Log
after_command c l = record l { issued = l.issued ++ (record { command = c; byte = l.txr } ∷ []) }

-- A write at an offset.
abbrev pub after_write : ℕ → ℕ → Log → Log
after_write r v l =
    if r == 0x0C
    then record l { txr = v }
    else if r == 0x10
    then record l { at_i2c_cr = l.at_i2c_cr ++ (v ∷ []) }
    else if r == 0x14
    then after_command v l
    else l

-- A core with a record of what is written to it. Nothing is said of what it does with a command; reads
-- change nothing of the record, and the bit that the driver polls is clear within `fuel` reads.
pub record Core {S : Type 0} (bus : Bus S) (fuel a : ℕ) : Type 0 where
  pub log : S → Log
  pub reads : (s : S) (r : ℕ) → log (bus.read s r).1 ≡ log s
  pub writes : (s : S) (r v : ℕ) → log (bus.write s (a + r) v) ≡ after_write r v (log s)
  pub settles : (s : S) → Settles bus fuel (a + i2c_sr) 2 s

-- The bytes of the start commands, which are addresses.
abbrev pub starts : List Issued → List ℕ
starts [] = []
starts (e ∷ es) = if e.command == 0x90 then e.byte ∷ starts es else starts es

abbrev pub addresses : ℕ → ℕ → List ℕ
addresses i zero = []
addresses i (suc n) = bit_or (i2c_addr i) 1 ∷ addresses (suc i) n

starts-append : (xs ys : List Issued) → starts (xs ++ ys) ≡ starts xs ++ starts ys
starts-append [] ys = refl
starts-append (x ∷ xs) ys = elim (Bool-cases (x.command == 0x90)) [
  | inl start ↦ rw start (ap (λ (l : List ℕ). x.byte ∷ l) (starts-append xs ys))
  | inr other ↦ rw other (starts-append xs ys)
]

module _ {S : Type 0} (bus : Bus S) (fuel a : ℕ) (core : Core bus fuel a) where
  run_command-log :
      (c : ℕ) (s : S)
      → (r : Bool × S) × (run_command bus fuel a c s ≡ some r)
        × (core.log r.1 ≡ after_command c (core.log s))
  unfolding run_command
  run_command-log c s =
      let sent = bus.write s (a + i2c_cr) c in
      let (s1, e, k) =
        wait-keeps bus core.log fuel (a + i2c_sr) 2 sent (λ t. core.reads t (a + i2c_sr))
          (core.settles sent) in
      (
        (not (bit_and (bus.read s1 (a + i2c_sr)).0 0x80 == 0), (bus.read s1 (a + i2c_sr)).1),
        rw e refl,
        core.reads s1 (a + i2c_sr) ∙ k ∙ core.writes s i2c_cr c,
      )

  -- Starting a transfer to or from an address ends, and the core has been given one more command: a start with
  -- the address and the direction in the transmit register.
  pub oc_i2c_start-log :
      (addr read : ℕ) (s : S)
      → (ret : ℤ) × (s' : S) × (oc_i2c_start bus fuel a addr read s ≡ some (ret, s'))
        × ((core.log s').issued
            ≡ (core.log s).issued
              ++ (record {
                command = 0x90;
                byte = if read == 1 then bit_or (i2c_addr addr) 1 else i2c_addr addr;
              }
                  ∷ []))
  unfolding oc_i2c_start
  oc_i2c_start-log addr read s =
      let txr = if read == 1 then bit_or (i2c_addr addr) 1 else i2c_addr addr in
      let loaded = bus.write s (a + i2c_txr) txr in
      let (r, e, k) = run_command-log 0x90 loaded in
      (
        (if r.0 then failed else ok),
        r.1,
        rw e refl,
        ap (λ (l : Log). l.issued) (k ∙ ap (after_command 0x90) (core.writes s i2c_txr txr)),
      )

  scan_stop-log :
      (s : S)
      → (s' : S) × (scan_stop bus fuel a s ≡ some s')
        × (starts (core.log s').issued ≡ starts (core.log s).issued)
        × ((core.log s').at_i2c_cr ≡ (core.log s).at_i2c_cr)
  unfolding scan_stop
  scan_stop-log s =
      let loaded = bus.write s (a + i2c_txr) 0 in
      let sent = bus.write loaded (a + i2c_cr) 0x50 in
      let (s1, e, k) =
        wait-keeps bus core.log fuel (a + i2c_sr) 2 sent (λ t. core.reads t (a + i2c_sr))
          (core.settles sent) in
      let after =
        k ∙ core.writes loaded i2c_cr 0x50 ∙ ap (after_command 0x50) (core.writes s i2c_txr 0) in
      (
        s1,
        e,
        ap (λ (l : Log). starts l.issued) after
            ∙ starts-append (core.log s).issued (record { command = 0x50; byte = 0 } ∷ [])
            ∙ append-nil (starts (core.log s).issued),
        ap (λ (l : Log). l.at_i2c_cr) after,
      )

  either_way :
      (r : Bool × S)
      → (s' : S) × ((if r.0 then some r.1 else scan_stop bus fuel a r.1) ≡ some s')
        × (starts (core.log s').issued ≡ starts (core.log r.1).issued)
        × ((core.log s').at_i2c_cr ≡ (core.log r.1).at_i2c_cr)
  either_way (true, s) = (s, refl, refl, refl)
  either_way (false, s) = scan_stop-log s

  scan_loop-starts :
      (n i : ℕ) (s : S)
      → (s' : S) × (scan_loop bus fuel a n i s ≡ some s')
        × (starts (core.log s').issued ≡ starts (core.log s).issued ++ addresses i n)
        × ((core.log s').at_i2c_cr ≡ (core.log s).at_i2c_cr)
  unfolding scan_loop
  scan_loop-starts zero i s = (s, refl, sym (append-nil (starts (core.log s).issued)), refl)
  scan_loop-starts (suc n) i s =
      let txr = bit_or (i2c_addr i) 1 in
      let (r, e, k) = run_command-log 0x90 (bus.write s (a + i2c_txr) txr) in
      let (s1, e1, k1, d1) = either_way r in
      let (s2, e2, k2, d2) = scan_loop-starts n (suc i) s1 in
      let given = k ∙ ap (after_command 0x90) (core.writes s i2c_txr txr) in
      let one =
        ap (λ (l : Log). starts l.issued) given
        ∙ starts-append (core.log s).issued (record { command = 0x90; byte = txr } ∷ []) in
      (
        s2,
        rw (e, e1) e2,
        k2
            ∙ ap (λ (l : List ℕ). l ++ addresses (suc i) n) (k1 ∙ one)
            ∙ append_assoc (starts (core.log s).issued) (txr ∷ []) (addresses (suc i) n),
        d2 ∙ d1 ∙ ap (λ (l : Log). l.at_i2c_cr) given,
      )

  -- Where the bit that is polled, at the offset 0x18, is clear after some reads at each time, the scan
  -- ends and returns 0. Its start commands stand at the offset 0x14, for each of the 128 read addresses in
  -- order, and it has written nothing at 0x10, which wb_i2c.h names as the command register.
  pub oc_i2c_scan-starts :
      (s : S)
      → (s' : S) × (oc_i2c_scan bus fuel a s ≡ some (ok, s'))
        × (starts (core.log s').issued ≡ starts (core.log s).issued ++ addresses 0 128)
        × ((core.log s').at_i2c_cr ≡ (core.log s).at_i2c_cr)
  unfolding oc_i2c_scan
  oc_i2c_scan-starts s = let (s', e, k, d) = scan_loop-starts 128 0 s in (s', rw e refl, k, d)
