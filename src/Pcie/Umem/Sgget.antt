-- ===== src/Pcie/Umem/Sgget.antt =====
-- The results on `pcidriver_umem_sgget` of history/sw/drivers/pcie/src/umem.c.
mod Tests
use bpm_gw.Base.{
  ℤ, pos, ℕ, zero, suc, ◌+◌, ◌≤◌, ◌<◌, ◌≡◌, refl, sym, ap, subst, ◌∙◌, Bool, true, false, Option,
  some, none, List, [], ◌∷◌, ◌++◌, ◌==◌, ltb, inl, inr, Bool-cases, if◌then◌else◌, arith, All,
  length, set, get_or, take, take-suc, take-set, length-set, get_or-set_self, append-snoc,
  append_assoc, append-nil,
}
use bpm_gw.Pcie.Umem.{
  Segment, no_segment, SgList, UmemEntry, segments, merge_loop, copy_loop, fill, umem_find_entry_id,
  sgget_entry, umem_sgget, einval,
}
use bpm_gw.Pcie.Umem.Merge.{
  Fits, Separate, cover, range, empty_range, merge_from, merge_from-cover, merge_from-Separate,
  merge_loop-merge_from,
}

-- A call that finds its entry and has room for it stores what `fill` gives.
umem_sgget-fill :
    (umem_list : List UmemEntry) (l : SgList) (e : UmemEntry)
    → umem_find_entry_id umem_list l.handle_id ≡ some e
    → length (segments e) ≤ l.nents
    → umem_sgget umem_list l
      ≡ (pos 0, record l { nents = (fill l.merged e l.sg).0; sg = (fill l.merged e l.sg).1 })
unfolding umem_sgget sgget_entry
umem_sgget-fill umem_list l e found room =
    let enough : ltb l.nents (length (segments e)) ≡ false = ground (arith, room) in
    ap (λ (o : Option UmemEntry). sgget_entry o l) found ∙ rw enough refl

-- For a merged list, if the handle names an entry whose segments do not reach the end of the address
-- space, and the user's array has at least as many places as it says, which is no less than the entry
-- has segments, then `umem_sgget` returns 0 and at most as many segments as the entry has; they cover
-- the same addresses in the same order, and none of them begins where the one before it ends.
pub umem_sgget-merged :
    (umem_list : List UmemEntry) (l : SgList) (e : UmemEntry)
    → umem_find_entry_id umem_list l.handle_id ≡ some e
    → l.merged ≡ true
    → All Fits (segments e)
    → length (segments e) ≤ l.nents
    → l.nents ≤ length l.sg
    → (l' : SgList) × (umem_sgget umem_list l ≡ (pos 0, l'))
      × (l'.nents ≤ length (segments e))
      × (cover (take l'.nents l'.sg) ≡ cover (segments e))
      × Separate (take l'.nents l'.sg)
unfolding fill
umem_sgget-merged umem_list l e found merged fits room array =
    let sg0 = set l.sg 0 e.first in
    let stored =
      merge_loop-merge_from e.more 0 sg0 (omega (arith, room, array, length-set l.sg 0 e.first)) in
    let list =
      simp (get_or-set_self l.sg 0 e.first no_segment (omega (arith, room, array))) at stored.1 in
    (
      record l { nents = (fill l.merged e l.sg).0; sg = (fill l.merged e l.sg).1 },
      umem_sgget-fill umem_list l e found room,
      rw merged (omega (arith, stored.0)),
      rw (merged, list) (merge_from-cover e.first e.more fits.0 fits.1),
      rw (merged, list) (merge_from-Separate e.first e.more),
    )

copy_loop-take :
    (es : List Segment) (i : ℕ) (sg : List Segment)
    → i + length es ≤ length sg
    → take (i + length es) (copy_loop es i sg) ≡ take i sg ++ es
unfolding copy_loop
copy_loop-take [] i sg h =
    let whole : i + 0 ≡ i = omega arith in
    ap (λ (n : ℕ). take n sg) whole ∙ sym (append-nil (take i sg))
copy_loop-take (e ∷ es) i sg h =
    let whole : i + length (e ∷ es) ≡ suc i + length es = omega arith in
    let kept = length-set sg i e in
    ap (λ (n : ℕ). take n (copy_loop es (suc i) (set sg i e))) whole
    ∙ copy_loop-take es (suc i) (set sg i e) (omega (arith, h, kept))
    ∙ ap (λ (l : List Segment). l ++ es)
        (take-suc (set sg i e) i no_segment (omega (arith, h, kept)))
    ∙ rw (take-set sg i i e (omega arith), get_or-set_self sg i e no_segment (omega (arith, h)))
        (append-snoc (take i sg) e es)

cover-append : (xs ys : List Segment) → cover (xs ++ ys) ≡ cover xs ++ cover ys
cover-append [] ys = refl
cover-append (x ∷ xs) ys =
    ap (λ (l : List ℕ). range x.addr x.size ++ l) (cover-append xs ys)
    ∙ sym (append_assoc (range x.addr x.size) (cover xs) (cover ys))

-- An empty last segment can be left out.
cover-trim :
    (sg : List Segment) (k : ℕ)
    → k < length sg
    → ((get_or sg k no_segment).size == 0) ≡ true
    → cover (take k sg) ≡ cover (take (suc k) sg)
cover-trim sg k h empty =
    let last = get_or sg k no_segment in
    sym (
      ap cover (take-suc sg k no_segment h)
      ∙ cover-append (take k sg) (last ∷ [])
      ∙ rw (empty_range last empty) (append-nil (cover (take k sg))))

-- The count with or without the last segment.
trim_either :
    (b : Bool) (n : ℕ) (sg full : List Segment)
    → (b ≡ true → cover (take n sg) ≡ cover (take (suc n) sg))
    → take (suc n) sg ≡ full
    → ((if b then n else suc n) ≤ suc n) × (cover (take (if b then n else suc n) sg) ≡ cover full)
trim_either true n sg full trim taken = (omega arith, trim refl ∙ ap cover taken)
trim_either false n sg full trim taken = (omega arith, ap cover taken)

length-copy_loop :
    (es : List Segment) (i : ℕ) (sg : List Segment) → length (copy_loop es i sg) ≡ length sg
unfolding copy_loop
length-copy_loop [] i sg = refl
length-copy_loop (e ∷ es) i sg = length-copy_loop es (suc i) (set sg i e) ∙ length-set sg i e

-- For a list that is not merged, if the handle names an entry and the user's array has at least as many
-- places as it says, which is no less than the entry has segments, then `umem_sgget` returns 0, the
-- array begins with the segments of the entry, and the segments that the returned count takes in cover
-- the same addresses in the same order.
pub umem_sgget-copied :
    (umem_list : List UmemEntry) (l : SgList) (e : UmemEntry)
    → umem_find_entry_id umem_list l.handle_id ≡ some e
    → l.merged ≡ false
    → length (segments e) ≤ l.nents
    → l.nents ≤ length l.sg
    → (l' : SgList) × (umem_sgget umem_list l ≡ (pos 0, l'))
      × (take (length (segments e)) l'.sg ≡ segments e)
      × (l'.nents ≤ length (segments e))
      × (cover (take l'.nents l'.sg) ≡ cover (segments e))
unfolding fill
umem_sgget-copied umem_list l e found copied room array =
    let sg = copy_loop (segments e) 0 l.sg in
    let whole : 0 + length (segments e) ≡ suc (length e.more) = omega arith in
    let taken : take (suc (length e.more)) sg ≡ segments e =
      ap (λ (n : ℕ). take n sg) (sym whole)
      ∙ copy_loop-take (segments e) 0 l.sg (omega (arith, room, array)) in
    let (small, same) =
      trim_either ((get_or sg (length e.more) no_segment).size == 0) (length e.more) sg (segments e)
        (cover-trim sg (length e.more)
          (omega (arith, room, array, length-copy_loop (segments e) 0 l.sg)))
        taken in
    (
      record l { nents = (fill l.merged e l.sg).0; sg = (fill l.merged e l.sg).1 },
      umem_sgget-fill umem_list l e found room,
      rw copied taken,
      rw copied small,
      rw copied same,
    )
