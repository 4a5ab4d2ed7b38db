-- ===== src/Spi/Transfer.antt =====
-- The transfers that history/embedded-sw/dev/spi.c starts.
mod Tests
use bpm_gw.Base.{
  ℕ, zero, suc, ◌+◌, ◌-◌, ◌*◌, ◌/◌, ◌^◌, ◌%◌, ◌≡◌, refl, sym, ap, ap₂, ◌∙◌, Bool, true, false, not,
  Option, some, none, List, [], ◌∷◌, ◌++◌, bit_and, bit_or, ◌==◌, if◌then◌else◌, ◌>>=◌, arith,
}
use bpm_gw.Base.Bits.{
  bit_and_mask, bit_and_bit, bit_or_parts, bit_or_split, bit_or-zero, bit_or_step,
}
use bpm_gw.Bus.{Bus, wait, wait-keeps, Settles}
use bpm_gw.Spi.{
  spi_ctrl, spi_tx0, spi_rx0, spi_ss, spi_ctrl_bsy, spi_ctrl_char_len, oc_spi_config, run_transfer,
  oc_spi_txrx,
}

pub record Exchange : Type 0 where
  pub control : ℕ
  pub sent : ℕ
  pub selected : ℕ

pub record Log : Type 0 where
  pub ctrl : ℕ
  pub tx : ℕ
  pub ss : ℕ
  pub exchanges : List Exchange

abbrev pub started : ℕ → Log → Log
started c l = record l {
  ctrl = c;
  exchanges = l.exchanges ++ (record { control = c; sent = l.tx; selected = l.ss } ∷ []);
}

-- The contract of a core: a control word without the GO bit is kept and read back, one with it starts
-- an exchange of what stands in the other registers, reads change nothing of the log, and an exchange
-- is over within `fuel` reads.
pub record Core {S : Type 0} (bus : Bus S) (fuel a : ℕ) : Type 0 where
  pub log : S → Log
  pub reads : (s : S) (r : ℕ) → log (bus.read s r).1 ≡ log s
  pub controls :
      (s : S) (c : ℕ)
      → (bit_and c 0x100 == 0) ≡ true
      → log (bus.write s (a + spi_ctrl) c) ≡ record (log s) { ctrl = c }
  pub reads_back :
      (s : S)
      → (bit_and (log s).ctrl 0x100 == 0) ≡ true
      → (bus.read s (a + spi_ctrl)).0 ≡ (log s).ctrl
  pub starts :
      (s : S) (c : ℕ)
      → (bit_and c 0x100 == 0) ≡ false
      → log (bus.write s (a + spi_ctrl) c) ≡ started c (log s)
  pub loads : (s : S) (v : ℕ) → log (bus.write s (a + spi_tx0) v) ≡ record (log s) { tx = v }
  pub selects : (s : S) (v : ℕ) → log (bus.write s (a + spi_ss) v) ≡ record (log s) { ss = v }
  pub settles : (s : S) → Settles bus fuel (a + spi_ctrl) spi_ctrl_bsy s

-- A configuration and a length leave the GO bit clear, and setting it adds 256.
pub no_go : (q len : ℕ) → (bit_and (bit_or (q * 2 ^ 9) (spi_ctrl_char_len len)) 0x100 == 0) ≡ true
no_go q len = ground (
  arith,
  bit_and_mask 7 len,
  bit_or_parts 9 q (spi_ctrl_char_len len),
  bit_and_bit 8 (bit_or (q * 2 ^ 9) (spi_ctrl_char_len len)),
)

go_set : (v : ℕ) → (bit_and (bit_or v 0x100) 0x100 == 0) ≡ false
go_set v = ground (
  arith,
  bit_or_split 8 (v / 2 ^ 8) (v % 2 ^ 8) 1 0,
  bit_or-zero (v % 2 ^ 8),
  bit_or_step (v / 2 ^ 8) 1,
  bit_and_bit 8 (bit_or v 0x100),
)

-- The five flags of `oc_spi_config` can be read off the word that it makes, and the word leaves the
-- nine low bits, which are the length and the GO bit of the control register, clear.
pub oc_spi_config-flags :
    (ass rx_neg tx_neg lsb ie : Bool)
    → (not (bit_and (oc_spi_config ass rx_neg tx_neg lsb ie) 0x2000 == 0) ≡ ass)
      × (not (bit_and (oc_spi_config ass rx_neg tx_neg lsb ie) 0x200 == 0) ≡ rx_neg)
      × (not (bit_and (oc_spi_config ass rx_neg tx_neg lsb ie) 0x400 == 0) ≡ tx_neg)
      × (not (bit_and (oc_spi_config ass rx_neg tx_neg lsb ie) 0x800 == 0) ≡ lsb)
      × (not (bit_and (oc_spi_config ass rx_neg tx_neg lsb ie) 0x1000 == 0) ≡ ie)
      × (oc_spi_config ass rx_neg tx_neg lsb ie % 2 ^ 9 ≡ 0)
unfolding oc_spi_config
oc_spi_config-flags true true true true true = (refl, refl, refl, refl, refl, refl)
oc_spi_config-flags true true true true false = (refl, refl, refl, refl, refl, refl)
oc_spi_config-flags true true true false true = (refl, refl, refl, refl, refl, refl)
oc_spi_config-flags true true true false false = (refl, refl, refl, refl, refl, refl)
oc_spi_config-flags true true false true true = (refl, refl, refl, refl, refl, refl)
oc_spi_config-flags true true false true false = (refl, refl, refl, refl, refl, refl)
oc_spi_config-flags true true false false true = (refl, refl, refl, refl, refl, refl)
oc_spi_config-flags true true false false false = (refl, refl, refl, refl, refl, refl)
oc_spi_config-flags true false true true true = (refl, refl, refl, refl, refl, refl)
oc_spi_config-flags true false true true false = (refl, refl, refl, refl, refl, refl)
oc_spi_config-flags true false true false true = (refl, refl, refl, refl, refl, refl)
oc_spi_config-flags true false true false false = (refl, refl, refl, refl, refl, refl)
oc_spi_config-flags true false false true true = (refl, refl, refl, refl, refl, refl)
oc_spi_config-flags true false false true false = (refl, refl, refl, refl, refl, refl)
oc_spi_config-flags true false false false true = (refl, refl, refl, refl, refl, refl)
oc_spi_config-flags true false false false false = (refl, refl, refl, refl, refl, refl)
oc_spi_config-flags false true true true true = (refl, refl, refl, refl, refl, refl)
oc_spi_config-flags false true true true false = (refl, refl, refl, refl, refl, refl)
oc_spi_config-flags false true true false true = (refl, refl, refl, refl, refl, refl)
oc_spi_config-flags false true true false false = (refl, refl, refl, refl, refl, refl)
oc_spi_config-flags false true false true true = (refl, refl, refl, refl, refl, refl)
oc_spi_config-flags false true false true false = (refl, refl, refl, refl, refl, refl)
oc_spi_config-flags false true false false true = (refl, refl, refl, refl, refl, refl)
oc_spi_config-flags false true false false false = (refl, refl, refl, refl, refl, refl)
oc_spi_config-flags false false true true true = (refl, refl, refl, refl, refl, refl)
oc_spi_config-flags false false true true false = (refl, refl, refl, refl, refl, refl)
oc_spi_config-flags false false true false true = (refl, refl, refl, refl, refl, refl)
oc_spi_config-flags false false true false false = (refl, refl, refl, refl, refl, refl)
oc_spi_config-flags false false false true true = (refl, refl, refl, refl, refl, refl)
oc_spi_config-flags false false false true false = (refl, refl, refl, refl, refl, refl)
oc_spi_config-flags false false false false true = (refl, refl, refl, refl, refl, refl)
oc_spi_config-flags false false false false false = (refl, refl, refl, refl, refl, refl)

module _ {S : Type 0} (bus : Bus S) (fuel a : ℕ) (core : Core bus fuel a) where
  pub run_transfer-log :
      (config ss : ℕ) (s : S)
      → (bit_and (core.log s).ctrl 0x100 == 0) ≡ true
      → (s' : S) × (run_transfer bus fuel a config ss s ≡ some s')
        × (core.log s'
            ≡ started
                (bit_or (core.log s).ctrl 0x100)
                (record (core.log s) { ss = 2 ^ ss % 2 ^ 32 }))
  unfolding run_transfer
  run_transfer-log config ss s quiet =
      let selected = 2 ^ ss % 2 ^ 32 in
      let s1 = bus.write s (a + spi_ss) selected in
      let v = (bus.read s1 (a + spi_ctrl)).0 in
      let s2 = (bus.read s1 (a + spi_ctrl)).1 in
      let s3 = bus.write s2 (a + spi_ctrl) (bit_or v 0x100) in
      let chosen = core.selects s selected in
      let control = ap (λ (l : Log). l.ctrl) chosen in
      let back : v ≡ (core.log s).ctrl =
        core.reads_back s1 (ap (λ (c : ℕ). bit_and c 0x100 == 0) control ∙ quiet) ∙ control in
      let (s', e, k) =
        wait-keeps bus core.log fuel (a + spi_ctrl) spi_ctrl_bsy s3
          (λ t. core.reads t (a + spi_ctrl)) (core.settles s3) in
      (
        s',
        e,
        k
            ∙ core.starts s2 (bit_or v 0x100) (go_set v)
            ∙ ap₂ (λ (c : ℕ) (l : Log). started (bit_or c 0x100) l) back
                (core.reads s1 (a + spi_ctrl) ∙ chosen),
      )

  -- With a configuration that leaves the nine low bits clear, `oc_spi_txrx` ends, and the core has
  -- made one more exchange: of the word, with the slave of the given number selected, under the
  -- configuration, the length, and the GO bit.
  pub oc_spi_txrx-log :
      (q ss nbits word : ℕ) (s : S)
      → (out : ℕ) × (s' : S) × (oc_spi_txrx bus fuel a (q * 2 ^ 9) ss nbits word s ≡ some (out, s'))
        × ((core.log s').exchanges
            ≡ (core.log s).exchanges
              ++ (record {
                control = bit_or (bit_or (q * 2 ^ 9) (spi_ctrl_char_len nbits)) 0x100;
                sent = word;
                selected = 2 ^ ss % 2 ^ 32;
              }
                  ∷ []))
  unfolding oc_spi_txrx
  oc_spi_txrx-log q ss nbits word s =
      let ctrl = bit_or (q * 2 ^ 9) (spi_ctrl_char_len nbits) in
      let s1 = bus.write s (a + spi_ctrl) ctrl in
      let s2 = bus.write s1 (a + spi_tx0) word in
      let ready : core.log s2 ≡ record (core.log s) { ctrl = ctrl; tx = word } =
        core.loads s1 word
        ∙ ap (λ (l : Log). record l { tx = word }) (core.controls s ctrl (no_go q nbits)) in
      let control = ap (λ (l : Log). l.ctrl) ready in
      let (s3, e, k) =
        run_transfer-log (q * 2 ^ 9) ss s2
          (ap (λ (c : ℕ). bit_and c 0x100 == 0) control ∙ no_go q nbits) in
      let done =
        k
        ∙ ap (λ (l : Log). started (bit_or l.ctrl 0x100) (record l { ss = 2 ^ ss % 2 ^ 32 }))
            ready in
      (
        (bus.read s3 (a + spi_rx0)).0,
        (bus.read s3 (a + spi_rx0)).1,
        rw e refl,
        ap (λ (l : Log). l.exchanges) (core.reads s3 (a + spi_rx0) ∙ done),
      )
