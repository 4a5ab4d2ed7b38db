-- ===== src/Pcie/Kmem/Entries.antt =====
-- The results on the entries of history/sw/drivers/pcie/src/kmem.c.
mod Tests
use bpm_gw.Base.{
  ℤ, pos, negsuc, ℕ, zero, suc, ◌+◌, ◌-◌, ◌%◌, ◌^◌, ◌≤◌, ◌<◌, ◌≡◌, ◌≢◌, refl, sym, ap, ◌∙◌, Bool,
  true, false, not, ◌&&◌, Option, none, some, List, [], ◌∷◌, ◌++◌, ◌==◌, ltb, All, arith,
  if◌then◌else◌, ==_self, ==_ne, inl, inr, append-nil, Bool-cases,
}
use bpm_gw.Pcie.Kmem.{
  KmemEntry, KmemHandle, Kmem, Grant, einval, enomem, efault, kmem_alloc_dma, kmem_alloc,
  remove_attr, list_del, kmem_free_entry, find_entry, free_found, kmem_free, free_each,
  kmem_free_all, last_entry, mmap_entry, mmap_kmem, page_size, size_mismatch,
}

-- All ids are below the count, and no two entries have the same.
abbrev pub Fresh : ℕ → List KmemEntry → Type 0
Fresh n = All (λ e. e.id < n)

abbrev pub Distinct : List KmemEntry → Type 0
Distinct [] = Unit {0}
Distinct (e ∷ es) = All (λ f. f.id ≢ e.id) es × Distinct es

pub record IsValid (s : Kmem) : Type 0 where
  pub ids : Fresh s.kmem_count s.kmem_list
  pub attr_ids : All (λ a. a < s.kmem_count) s.attrs
  pub distinct : Distinct s.kmem_list

All-snoc :
    {A : Type 0} (P : A → Type 0) (xs : List A) (y : A) → All P xs → P y → All P (xs ++ (y ∷ []))
All-snoc P [] y h p = (p, tt)
All-snoc P (x ∷ xs) y h p = (h.0, All-snoc P xs y h.1 p)

All-map :
    {A : Type 0} (P Q : A → Type 0) (f : (x : A) → P x → Q x) (xs : List A) → All P xs → All Q xs
All-map P Q f [] h = tt
All-map P Q f (x ∷ xs) h = (f x h.0, All-map P Q f xs h.1)

Distinct-snoc :
    (es : List KmemEntry) (e : KmemEntry) → Fresh e.id es → Distinct es → Distinct (es ++ (e ∷ []))
Distinct-snoc [] e f d = (tt, tt)
Distinct-snoc (x ∷ xs) e f d =
    (All-snoc (λ f. f.id ≢ x.id) xs e d.0 (λ h. omega (arith, h, f.0)), Distinct-snoc xs e f.1 d.1)

-- An id is used up, and a list of attributes with ids up to it is valid again.
counted :
    (s : Kmem) (as' : List ℕ)
    → s.kmem_count + 1 < 2 ^ 32
    → IsValid s
    → All (λ a. a < s.kmem_count + 1) as'
    → IsValid (record s { kmem_count = (s.kmem_count + 1) % 2 ^ 32; attrs = as' })
counted s as' small v fresh =
    let next : (s.kmem_count + 1) % 2 ^ 32 ≡ s.kmem_count + 1 = omega (arith, small) in
    record {
      ids = rw next (
          All-map (λ e. e.id < s.kmem_count) (λ e. e.id < s.kmem_count + 1)
            (λ e h. omega (arith, h)) s.kmem_list v.ids);
      attr_ids = rw next fresh;
      distinct = v.distinct;
    }

attrs_below : (s : Kmem) → IsValid s → All (λ a. a < s.kmem_count + 1) s.attrs
attrs_below s v =
    All-map (λ a. a < s.kmem_count) (λ a. a < s.kmem_count + 1) (λ a h. omega (arith, h)) s.attrs
      v.attr_ids

kmem_alloc_dma-IsValid :
    (dma : Option (ℕ × ℕ)) (h : KmemHandle) (s : Kmem)
    → s.kmem_count + 1 < 2 ^ 32
    → h.handle_id ≡ s.kmem_count
    → IsValid s
    → IsValid
        (kmem_alloc_dma dma h (record s {
          kmem_count = (s.kmem_count + 1) % 2 ^ 32;
          attrs = s.attrs ++ (s.kmem_count ∷ []);
        })).2
unfolding kmem_alloc_dma
kmem_alloc_dma-IsValid none h s small own v =
    counted s (s.attrs ++ (s.kmem_count ∷ [])) small v
      (All-snoc (λ a. a < s.kmem_count + 1) s.attrs s.kmem_count (attrs_below s v) (omega arith))
kmem_alloc_dma-IsValid (some (cpua, dma)) h s small own v =
    let entry : KmemEntry = record {
      id = h.handle_id;
      dma_handle = dma;
      cpua = cpua;
      size = h.size;
    } in
    let base =
      counted s (s.attrs ++ (s.kmem_count ∷ [])) small v (
        All-snoc (λ a. a < s.kmem_count + 1) s.attrs s.kmem_count (attrs_below s v)
          (omega arith)) in
    record {
      ids =
          All-snoc (λ e. e.id < (s.kmem_count + 1) % 2 ^ 32) s.kmem_list entry base.ids
            (omega (arith, own, small));
      attr_ids = base.attr_ids;
      distinct = Distinct-snoc s.kmem_list entry (rw own v.ids) v.distinct;
    }

-- Every outcome of an allocation keeps the ids distinct and below the count, as long as the count does
-- not reach the end of its 32 bits.
pub kmem_alloc-IsValid :
    (g : Grant) (h : KmemHandle) (s : Kmem)
    → s.kmem_count + 1 < 2 ^ 32
    → IsValid s
    → IsValid (kmem_alloc g h s).2
unfolding kmem_alloc
kmem_alloc-IsValid g h s small v =
    let s' : Kmem = record s { kmem_count = (s.kmem_count + 1) % 2 ^ 32 } in
    elim (Bool-cases g.entry_memory) [
      | inr no_memory ↦ rw no_memory v
      | inl memory ↦ elim (Bool-cases (g.sysfs_result == 0)) [
        | inr refused ↦ rw (memory, refused) (counted s s.attrs small v (attrs_below s v))
        | inl attr ↦
            rw (memory, attr)
              (kmem_alloc_dma-IsValid g.dma_memory (record h { handle_id = s.kmem_count }) s small
                refl v)
      ]
    ]

list_del-snoc :
    (es : List KmemEntry) (e : KmemEntry) → Fresh e.id es → list_del e.id (es ++ (e ∷ [])) ≡ es
list_del-snoc [] e f = rw (==_self e.id) refl
list_del-snoc (x ∷ xs) e f =
    rw (==_ne x.id e.id (λ h. omega (arith, h, f.0)))
      (ap (λ (l : List KmemEntry). x ∷ l) (list_del-snoc xs e f.1))

remove_attr-snoc :
    (as' : List ℕ) (id : ℕ) → All (λ a. a < id) as' → remove_attr id (as' ++ (id ∷ [])) ≡ as'
remove_attr-snoc [] id f = rw (==_self id) refl
remove_attr-snoc (x ∷ xs) id f =
    rw (==_ne x id (λ h. omega (arith, h, f.0)))
      (ap (λ (l : List ℕ). x ∷ l) (remove_attr-snoc xs id f.1))

find_entry-snoc :
    (es : List KmemEntry) (e : KmemEntry)
    → All (λ f. f.dma_handle ≢ e.dma_handle) es
    → find_entry e.dma_handle (es ++ (e ∷ [])) ≡ some e
unfolding find_entry
find_entry-snoc [] e f = rw (==_self e.dma_handle) refl
find_entry-snoc (x ∷ xs) e f = rw (==_ne x.dma_handle e.dma_handle f.0) (find_entry-snoc xs e f.1)

-- Where the kernel gives memory at a bus address that no buffer has yet, the allocation succeeds, and
-- freeing the handle that it gave back succeeds and restores the list of buffers and the attributes.
pub kmem_free-kmem_alloc :
    (g : Grant) (h : KmemHandle) (s : Kmem) (cpua dma : ℕ)
    → IsValid s
    → g.entry_memory ≡ true
    → g.sysfs_result ≡ 0
    → g.dma_memory ≡ some (cpua, dma)
    → All (λ e. e.dma_handle ≢ dma) s.kmem_list
    → ((kmem_alloc g h s).0 ≡ pos 0)
      × (kmem_free (kmem_alloc g h s).1 (kmem_alloc g h s).2
          ≡ (pos 0, record s { kmem_count = (s.kmem_count + 1) % 2 ^ 32 }))
unfolding kmem_alloc kmem_alloc_dma kmem_free free_found kmem_free_entry
kmem_free-kmem_alloc g h s cpua dma v em sr dm unused =
    let entry : KmemEntry = record {
      id = s.kmem_count;
      dma_handle = dma;
      cpua = cpua;
      size = h.size;
    } in
    let full : Kmem = record {
      kmem_count = (s.kmem_count + 1) % 2 ^ 32;
      kmem_list = s.kmem_list ++ (entry ∷ []);
      attrs = s.attrs ++ (s.kmem_count ∷ []);
    } in
    rw (em, sr, dm)
      (
        refl,
        ap (λ (o : Option KmemEntry). free_found o full) (find_entry-snoc s.kmem_list entry unused)
            ∙ rw
                (
                  list_del-snoc s.kmem_list entry v.ids,
                  remove_attr-snoc s.attrs s.kmem_count v.attr_ids,
                )
                refl,
      )

free_each-empties :
    (es : List KmemEntry) (s : Kmem) → s.kmem_list ≡ es → (free_each es s).kmem_list ≡ []
unfolding free_each
free_each-empties [] s e = e
free_each-empties (x ∷ xs) s e =
    free_each-empties xs (kmem_free_entry x s) (rw e (rw (==_self x.id) refl))

-- `kmem_free_all` leaves no buffer.
pub kmem_free_all-empties : (s : Kmem) → (kmem_free_all s).kmem_list ≡ []
unfolding kmem_free_all
kmem_free_all-empties s = free_each-empties s.kmem_list s refl

not-false : (b : Bool) → (not b && false) ≡ false
not-false true = refl
not-false false = refl

-- Where the latest buffer has a page or more, a mapping of any size is accepted if the kernel accepts
-- it, a larger one than the buffer among them.
pub mmap_kmem-any_size :
    (remap : KmemEntry → ℕ → ℕ) (vm_start vm_end : ℕ) (s : Kmem) (e : KmemEntry)
    → last_entry s.kmem_list ≡ some e
    → page_size ≤ e.size
    → vm_start ≤ vm_end
    → vm_end < 2 ^ 64
    → remap e (vm_end - vm_start) ≡ 0
    → mmap_kmem remap vm_start vm_end s ≡ pos 0
unfolding mmap_kmem mmap_entry
mmap_kmem-any_size remap vm_start vm_end s e last large order bound accepted =
    let size : (vm_end + 2 ^ 64 - vm_start) % 2 ^ 64 ≡ vm_end - vm_start =
      omega (arith, order, bound) in
    let no_page : ltb e.size page_size ≡ false = ground (arith, large) in
    ap (λ (o : Option KmemEntry). mmap_entry o remap ((vm_end + 2 ^ 64 - vm_start) % 2 ^ 64)) last
    ∙ rw (size, no_page, accepted, not-false (vm_end - vm_start == e.size)) refl
