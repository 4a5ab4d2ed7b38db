-- ===== src/Spi/ThreeMode.antt =====
-- The transfers of history/embedded-sw/dev/spi.c on three wires.
use bpm_gw.Base.{
  ℕ, ◌+◌, ◌*◌, ◌%◌, ◌^◌, ◌≡◌, ap, ◌∙◌, true, some, bit_and, bit_or, ◌==◌, List, arith,
}
use bpm_gw.Base.Bits.{bit_or_split, bit_or-zero}
use bpm_gw.Bus.{Bus}
use bpm_gw.Spi.{
  spi_ctrl, spi_tx0, spi_rx0, spi_ctrl_dir, spi_ctrl_char_len, oc_spi_three_mode_tx,
  oc_spi_three_mode_rx,
}
use bpm_gw.Spi.Transfer.{Log, Exchange, Core, started, no_go, run_transfer-log}

-- The log after an exchange under a control word.
abbrev pub exchanged : ℕ → ℕ → Log → Log
exchanged ctrl ss l = started (bit_or ctrl 0x100) (record l { ctrl = ctrl; ss = 2 ^ ss % 2 ^ 32 })

-- the control words for sending and receiving `nbits` bits
abbrev pub tx_control : ℕ → ℕ → ℕ
tx_control config nbits = bit_or (bit_or config spi_ctrl_dir) (spi_ctrl_char_len nbits)

abbrev pub rx_control : ℕ → ℕ → ℕ
rx_control config nbits = bit_or config (spi_ctrl_char_len nbits)

-- The direction bit is above the nine low bits.
with_dir : (q : ℕ) → bit_or (q * 2 ^ 9) spi_ctrl_dir ≡ bit_or q 32 * 2 ^ 9
with_dir q = ground (arith, bit_or_split 9 q 0 32 0 (omega arith) (omega arith), bit_or-zero 0)

no_go_dir : (q nbits : ℕ) → (bit_and (tx_control (q * 2 ^ 9) nbits) 0x100 == 0) ≡ true
no_go_dir q nbits =
    ap (λ (c : ℕ). bit_and (bit_or c (spi_ctrl_char_len nbits)) 0x100 == 0) (with_dir q)
    ∙ no_go (bit_or q 32) nbits

module _ {S : Type 0} (bus : Bus S) (fuel a : ℕ) (core : Core bus fuel a) (q : ℕ) where
  pub oc_spi_three_mode_tx-log :
      (ss nbits word : ℕ) (s : S)
      → (s' : S) × (oc_spi_three_mode_tx bus fuel a (q * 2 ^ 9) ss nbits word s ≡ some s')
        × (core.log s'
            ≡ exchanged (tx_control (q * 2 ^ 9) nbits) ss (record (core.log s) { tx = word }))
  unfolding oc_spi_three_mode_tx
  oc_spi_three_mode_tx-log ss nbits word s =
      let ctrl = tx_control (q * 2 ^ 9) nbits in
      let s1 = bus.write s (a + spi_ctrl) ctrl in
      let s2 = bus.write s1 (a + spi_tx0) word in
      let ready : core.log s2 ≡ record (core.log s) { ctrl = ctrl; tx = word } =
        core.loads s1 word
        ∙ ap (λ (l : Log). record l { tx = word }) (core.controls s ctrl (no_go_dir q nbits)) in
      let control = ap (λ (l : Log). l.ctrl) ready in
      let (s3, e, k) =
        run_transfer-log bus fuel a core (q * 2 ^ 9) ss s2
          (ap (λ (c : ℕ). bit_and c 0x100 == 0) control ∙ no_go_dir q nbits) in
      (
        s3,
        e,
        k
            ∙ ap (λ (l : Log). started (bit_or l.ctrl 0x100) (record l { ss = 2 ^ ss % 2 ^ 32 }))
                ready,
      )

  -- `reply` is what a slave has answered after a list of exchanges. It stands in the receive register when
  -- an exchange has ended and nothing has been written to the core since.
  abbrev pub Answers : (List Exchange → ℕ) → Type 0
  Answers reply =
      (s : S) (ctrl ss : ℕ) (l : Log)
      → core.log s ≡ exchanged ctrl ss l
      → (bus.read s (a + spi_rx0)).0 ≡ reply (core.log s).exchanges

  module _ (reply : List Exchange → ℕ) (answers : Answers reply) where
    pub oc_spi_three_mode_rx-log :
        (ss nbits : ℕ) (s : S)
        → (s' : S) × (oc_spi_three_mode_rx bus fuel a (q * 2 ^ 9) ss nbits s
            ≡ some (reply (exchanged (rx_control (q * 2 ^ 9) nbits) ss (core.log s)).exchanges, s'))
          × (core.log s' ≡ exchanged (rx_control (q * 2 ^ 9) nbits) ss (core.log s))
    unfolding oc_spi_three_mode_rx
    oc_spi_three_mode_rx-log ss nbits s =
        let ctrl = rx_control (q * 2 ^ 9) nbits in
        let s1 = bus.write s (a + spi_ctrl) ctrl in
        let ready = core.controls s ctrl (no_go q nbits) in
        let control = ap (λ (l : Log). l.ctrl) ready in
        let (s2, e, k) =
          run_transfer-log bus fuel a core (q * 2 ^ 9) ss s1
            (ap (λ (c : ℕ). bit_and c 0x100 == 0) control ∙ no_go q nbits) in
        let done =
          k
          ∙ ap (λ (l : Log). started (bit_or l.ctrl 0x100) (record l { ss = 2 ^ ss % 2 ^ 32 }))
              ready in
        let heard =
          answers s2 ctrl ss (core.log s) done ∙ ap (λ (l : Log). reply l.exchanges) done in
        let s3 = (bus.read s2 (a + spi_rx0)).1 in
        (s3, rw e (ap (λ (v : ℕ). some (v, s3)) heard), core.reads s2 (a + spi_rx0) ∙ done)
