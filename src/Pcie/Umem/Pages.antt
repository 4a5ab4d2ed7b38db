-- ===== src/Pcie/Umem/Pages.antt =====
-- history/sw/drivers/pcie/src/umem.c, `pcidriver_umem_sgmap`: the pages of a buffer of user memory and
-- the length that the scatter-gather list has in each of them, before the kernel maps the list. Pages
-- have 4096 bytes.
mod Tests
use bpm_gw.Base.{
  ℕ, zero, suc, ◌+◌, ◌-◌, ◌*◌, ◌/◌, ◌%◌, ◌^◌, ◌≤◌, ◌<◌, ◌≡◌, refl, Bool, true, false, List, [], ◌∷◌,
  ltb, if◌then◌else◌, arith, All, length, inl, inr, Bool-cases,
}

abbrev pub page_size : ℕ
page_size = 4096

-- `nr_pages`, an `int`
unfoldable pub nr_pages : ℕ → ℕ → ℕ
nr_pages vma size = ((vma % page_size + size + (page_size - 1)) % 2 ^ 64) / page_size % 2 ^ 32

-- The loop from page 1 on, with `n` pages left and `count` bytes left.
unfoldable pub page_loop : ℕ → ℕ → List ℕ
page_loop zero count = []
page_loop (suc n) count =
    let len = if ltb page_size count then page_size else count in len ∷ page_loop n (count - len)

unfoldable pub page_lengths : ℕ → ℕ → List ℕ
unfolding page_loop nr_pages
page_lengths vma size =
    let offset = vma % page_size in
    let len = if ltb (page_size - offset) size then page_size - offset else size in
    len ∷ page_loop (nr_pages vma size - 1) (size - len)

abbrev pub sum : List ℕ → ℕ
sum [] = 0
sum (n ∷ ns) = n + sum ns

-- A page of the buffer holds something, and no more than a page.
abbrev pub InPage : ℕ → Type 0
InPage n = (0 < n) × (n ≤ page_size)

-- The lengths add up, each is in its page, and there are so many.
abbrev Splits : ℕ → ℕ → List ℕ → Type 0
Splits n count ls = (sum ls ≡ count) × All InPage ls × (length ls ≡ n)

page_loop-Splits :
    (n count : ℕ)
    → count ≤ n * page_size
    → n * page_size < count + page_size
    → Splits n count (page_loop n count)
unfolding page_loop
page_loop-Splits zero count h k = (omega (arith, h), tt, refl)
page_loop-Splits (suc n) count h k = elim (Bool-cases (ltb page_size count)) [
  | inl full ↦
      let more : page_size < count = ground (arith, full) in
      let (total, pages, len) =
        page_loop-Splits n (count - page_size) (omega (arith, h)) (omega (arith, k, more)) in
      rw full (omega (arith, total, more), ((omega arith, omega arith), pages), omega (arith, len))
  | inr last ↦
      let rest : count ≤ page_size = ground (arith, last) in
      let none_left : count - count ≡ 0 = omega arith in
      let (total, pages, len) = page_loop-Splits n 0 (omega arith) (omega (arith, k, rest)) in
      rw (last, none_left)
        (omega (arith, total), ((omega (arith, k, h), rest), pages), omega (arith, len))
]

-- The first page, and the others where there are any.
first_page :
    (offset size n : ℕ)
    → 0 < size
    → offset < page_size
    → n ≡ (offset + size + (page_size - 1)) / page_size
    → (len : ℕ) → len ≡ (if ltb (page_size - offset) size then page_size - offset else size)
    → Splits n size (len ∷ page_loop (n - 1) (size - len))
first_page offset size n h off en len el =
    let small : (0 < len) × (len ≤ page_size) × (len ≤ size) = ground (arith, el, h, off) in
    let (total, pages, count) =
      page_loop-Splits (n - 1) (size - len) (ground (arith, el, en, h, off))
        (ground (arith, el, en, h, off)) in
    (omega (arith, total, small), ((small.0, small.1), pages), omega (arith, count, en, h))

pub nr_pages-exact :
    (vma size : ℕ)
    → size < 2 ^ 43
    → nr_pages vma size ≡ (vma % page_size + size + (page_size - 1)) / page_size
unfolding nr_pages
nr_pages-exact vma size k = omega (arith, k)

-- For a buffer of at least one byte and less than 2 ^ 43, the lengths that `umem_sgmap` gives to the
-- pages add up to the size of the buffer, there are `nr_pages` of them, and each is positive and at
-- most a page.
pub page_lengths-sum :
    (vma size : ℕ)
    → 0 < size
    → size < 2 ^ 43
    → (sum (page_lengths vma size) ≡ size)
      × All InPage (page_lengths vma size)
      × (length (page_lengths vma size) ≡ nr_pages vma size)
unfolding page_lengths
page_lengths-sum vma size h k =
    let pages : nr_pages vma size ≡ (vma % page_size + size + (page_size - 1)) / page_size =
      nr_pages-exact vma size k in
    first_page (vma % page_size) size (nr_pages vma size) h (omega arith) pages _ refl
