-- ===== src/Pcie/Client/SgLists.antt =====
-- history/sw/lib/pcie/pciDriver_Capi.c: the result of the call of
-- `PCIDRIVER_IOC_UMEM_SGGET`.
use bpm_gw.Base.{
  pos, ℕ, ◌+◌, ◌≡◌, ◌<◌, refl, sym, ap, ◌∙◌, true, false, Option, some, List, ltb, inl, inr,
  Bool-cases, arith, Option-cases, length,
}
use bpm_gw.Bus.{ok, failed}
use bpm_gw.Pcie.Umem.{
  SgList, UmemEntry, segments, umem_find_entry_id, umem_sgget, sgget_entry, einval,
}
use bpm_gw.Pcie.Umem.Sgmap.{UmemHandle}
use bpm_gw.Pcie.Ioctl.{Privdata, Copies, entries, is_zero, ioctl_umem_sgget}
use bpm_gw.Pcie.Bars.Held.{is_zero_lem}
use bpm_gw.Pcie.Client.{Process, PdUmem, Answers, sys, list_for, copies, array_count, get_list}
use bpm_gw.Pcie.Client.UserMemory.{sgget-same}

-- The handle that is filled.
abbrev pub filled : ℕ → SgList → PdUmem → PdUmem
filled id l h = record h { handle_id = id; nents = l.nents; sg = l.sg }

pub array_there : (k : Answers) → (copies k).array_read ≡ true → array_count k ≡ 1
array_there k read = elim (Option-cases k.array) [
  | inl none_there ↦
      let wrong : (copies k).array_read ≡ false = rw none_there refl in
      absurd (ground (arith, sym wrong ∙ read))
  | inr (sg, there) ↦ rw there refl
]

-- A list that was got.
pub get_list-ok :
    (k : Answers) (uh : UmemHandle) (size : ℕ) (h : PdUmem) (p : Process)
    → (get_list k uh size h p).0 ≡ ok
    → get_list k uh size h p ≡ (
      ok,
      filled uh.handle_id (ioctl_umem_sgget (copies k) (list_for k uh.handle_id size) p.driver).1 h,
      record p { arrays = p.arrays + 1 },
    )
unfolding get_list
get_list-ok k uh size h p good =
    let r = ioctl_umem_sgget (copies k) (list_for k uh.handle_id size) p.driver in
    elim (Bool-cases (is_zero r.0)) [
      | inl zero_result ↦
          let (same, read) =
            sgget-same (copies k) (list_for k uh.handle_id size) p.driver
              (is_zero_lem _ zero_result) in
          rw (zero_result, same)
            (ap (λ (n : ℕ). (ok, filled uh.handle_id r.1 h, record p { arrays = p.arrays + n }))
              (array_there k read))
      | inr error ↦
          let wrong : (get_list k uh size h p).0 ≡ failed = rw error refl in
          absurd (ground (arith, sym wrong ∙ good))
    ]

-- Where every copy succeeds, the call gives what `umem_sgget` gives.
pub sgget-got :
    (c : Copies) (l l' : SgList) (d : Privdata)
    → c.struct_read ≡ true
    → c.memory ≡ true
    → c.array_read ≡ true
    → c.array_written ≡ true
    → c.struct_written ≡ true
    → umem_sgget (entries d.umem.umem_list) l ≡ (pos 0, l')
    → ((ioctl_umem_sgget c l d).0 ≡ pos 0) × ((ioctl_umem_sgget c l d).1 ≡ l')
unfolding ioctl_umem_sgget
sgget-got c l l' d a b r w v e = rw (a, b, r, w, v, e) (refl, refl)

-- It does not return 0 where `umem_sgget` does not.
pub sgget-refused :
    (c : Copies) (l : SgList) (d : Privdata)
    → is_zero (umem_sgget (entries d.umem.umem_list) l).0 ≡ false
    → is_zero (ioctl_umem_sgget c l d).0 ≡ false
unfolding ioctl_umem_sgget
sgget-refused c l d bad = ground (arith, bad)

pub umem_sgget-crowded :
    (umem_list : List UmemEntry) (l : SgList) (e : UmemEntry)
    → umem_find_entry_id umem_list l.handle_id ≡ some e
    → l.nents < length (segments e)
    → umem_sgget umem_list l ≡ (einval, l)
unfolding umem_sgget sgget_entry
umem_sgget-crowded umem_list l e found more =
    let small : ltb l.nents (length (segments e)) ≡ true = ground (arith, more) in
    ap (λ (o : Option UmemEntry). sgget_entry o l) found ∙ rw small refl

pub get_list-result :
    (k : Answers) (uh : UmemHandle) (size : ℕ) (h : PdUmem) (p : Process)
    → (get_list k uh size h p).0
      ≡ sys (ioctl_umem_sgget (copies k) (list_for k uh.handle_id size) p.driver).0
unfolding get_list
get_list-result k uh size h p = ground arith
