-- ===== src/Pcie/Client/Session.antt =====
-- history/sw/lib/pcie/pciDriver_Capi.c: `mmap_mutex` in any sequence of the library's calls, of one
-- process on one opened device. `pd_waitForInterrupt` is not among them, since it need not return, and the
-- sync calls are not, since they change nothing of the state.
use bpm_gw.Base.{ℕ, ◌≡◌, ◌∙◌, Bool, false, Option, none, some, List, [], ◌∷◌, ◌>>=◌}
use bpm_gw.Pcie.Kmem.{KmemHandle}
use bpm_gw.Pcie.Umem.Sgmap.{UmemHandle}
use bpm_gw.Pcie.Config.{ConfigSpace, PciDev, BoardInfo}
use bpm_gw.Pcie.Client.{
  Process, PdKmem, PdUmem, Answers, pd_alloc_kernel_memory, pd_free_kernel_memory,
  pd_map_user_memory, pd_unmap_user_memory,
}
use bpm_gw.Pcie.Client.Areas.{
  pd_map_bar, pd_unmap_bar, pd_clear_interrupt_queue, pd_get_id, pd_get_bar_size, read_config_value,
  write_config_value,
}
use bpm_gw.Pcie.Client.Mutex.{
  Unlocked, pd_alloc_kernel_memory-Unlocked, pd_free_kernel_memory-locked,
  pd_map_user_memory-locked, pd_unmap_user_memory-locked, pd_clear_interrupt_queue-locked,
  pd_map_bar-Unlocked, pd_unmap_bar-Unlocked,
}

-- A call with what it finds: whether its pointers are not null, the stack, and the kernel's answers.
pub data Call : Type 0 where
  alloc : Bool → Answers → ℕ → KmemHandle → PdKmem → Call
  free : Bool → PdKmem → Call
  map_user : Bool → Answers → ℕ → ℕ → UmemHandle → PdUmem → Call
  unmap_user : Bool → UmemHandle → PdUmem → Call
  clear : Bool → ℕ → Call
  map_bar : Bool → Answers → BoardInfo → ℕ → Call
  unmap_bar : Bool → BoardInfo → ℕ → ℕ → Call
  get_id : Bool → BoardInfo → Call
  get_bar_size : Bool → BoardInfo → ℕ → Call
  read_config : Bool → ℕ → ℕ → ℕ → ℕ → Call
  write_config : Bool → ℕ → ℕ → ℕ → Call

module _ {S : Type 0} (space : ConfigSpace S) (dev : PciDev) where
  abbrev pub step : Call → S → Process → Option (S × Process)
  step (alloc given k size kh h) s p =
      pd_alloc_kernel_memory dev k given size kh h p >>= λ r. some (s, r.2)
  step (free given h) s p = some (s, (pd_free_kernel_memory given h p).1)
  step (map_user given k mem size uh h) s p =
      some (s, (pd_map_user_memory k given mem size uh h p).2)
  step (unmap_user given uh h) s p = some (s, (pd_unmap_user_memory given uh h p).1)
  step (clear given int_id) s p = some (s, (pd_clear_interrupt_queue given int_id p).1)
  step (map_bar given k info bar) s p =
      pd_map_bar space dev given k info bar s p >>= λ r. some (r.1, r.2)
  step (unmap_bar given info bar ptr) s p =
      pd_unmap_bar space dev given info bar ptr s p >>= λ r. some (r.1, r.2)
  step (get_id given info) s p = some ((pd_get_id space dev given info s).1, p)
  step (get_bar_size given info bar) s p = some ((pd_get_bar_size space dev given info bar s).1, p)
  step (read_config given bytes size val addr) s p =
      some ((read_config_value space dev given bytes size val addr s).1, p)
  step (write_config given size val addr) s p =
      some ((write_config_value space dev given size val addr s).1, p)

  abbrev pub run : List Call → S → Process → Option (S × Process)
  run [] s p = some (s, p)
  run (c ∷ cs) s p = step c s p >>= λ r. run cs r.0 r.1

keep-Unlocked :
    {S A : Type 0} (s : S) (o : Option (ℕ × A × Process))
    → Unlocked (λ (r : ℕ × A × Process). r.2) o
    → Unlocked (λ (r : S × Process). r.1) (o >>= λ r. some (s, r.2))
keep-Unlocked s none u = u
keep-Unlocked s (some r) u = u

forget-Unlocked :
    {R S : Type 0} (o : Option (R × S × Process))
    → Unlocked (λ (r : R × S × Process). r.2) o
    → Unlocked (λ (r : S × Process). r.1) (o >>= λ r. some (r.1, r.2))
forget-Unlocked none u = u
forget-Unlocked (some r) u = u

module _ {S : Type 0} (space : ConfigSpace S) (dev : PciDev) where
  step-Unlocked :
      (c : Call) (s : S) (p : Process)
      → p.locked ≡ false
      → Unlocked (λ (o : S × Process). o.1) (step space dev c s p)
  step-Unlocked (alloc given k size kh h) s p idle =
      keep-Unlocked s _ (pd_alloc_kernel_memory-Unlocked dev k given size kh h p idle)
  step-Unlocked (free given h) s p idle = pd_free_kernel_memory-locked given h p ∙ idle
  step-Unlocked (map_user given k mem size uh h) s p idle =
      pd_map_user_memory-locked k given mem size uh h p ∙ idle
  step-Unlocked (unmap_user given uh h) s p idle = pd_unmap_user_memory-locked given uh h p ∙ idle
  step-Unlocked (clear given int_id) s p idle =
      pd_clear_interrupt_queue-locked given int_id p ∙ idle
  step-Unlocked (map_bar given k info bar) s p idle =
      forget-Unlocked _ (pd_map_bar-Unlocked space dev given k info bar s p idle)
  step-Unlocked (unmap_bar given info bar ptr) s p idle =
      forget-Unlocked _ (pd_unmap_bar-Unlocked space dev given info bar ptr s p idle)
  step-Unlocked (get_id given info) s p idle = idle
  step-Unlocked (get_bar_size given info bar) s p idle = idle
  step-Unlocked (read_config given bytes size val addr) s p idle = idle
  step-Unlocked (write_config given size val addr) s p idle = idle

  then-Unlocked :
      (o : Option (S × Process)) (cs : List Call)
      → ((s : S) (p : Process)
          → p.locked ≡ false
          → Unlocked (λ (o : S × Process). o.1) (run space dev cs s p))
      → Unlocked (λ (o : S × Process). o.1) o
      → Unlocked (λ (o : S × Process). o.1) (o >>= λ r. run space dev cs r.0 r.1)
  then-Unlocked none cs rest u = u
  then-Unlocked (some (s, p)) cs rest u = rest s p u

  -- On any process that does not hold `mmap_mutex`, each sequence of these calls of the library on an
  -- opened device: to allocate and free a kernel buffer, to map and unmap user memory and a BAR, to clear
  -- an interrupt queue, and to read the id, the size of a BAR and the configuration space and to write the
  -- latter, with any arguments and any answers of the kernel, comes to its end and leaves the mutex
  -- unlocked. `pd_waitForInterrupt` and the sync calls are not among them.
  pub run-Unlocked :
      (cs : List Call) (s : S) (p : Process)
      → p.locked ≡ false
      → Unlocked (λ (o : S × Process). o.1) (run space dev cs s p)
  run-Unlocked [] s p idle = idle
  run-Unlocked (c ∷ cs) s p idle =
      then-Unlocked (step space dev c s p) cs (run-Unlocked cs) (step-Unlocked c s p idle)
