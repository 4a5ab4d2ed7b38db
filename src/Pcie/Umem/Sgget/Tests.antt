-- ===== src/Pcie/Umem/Sgget/Tests.antt =====
-- `umem_sgget` on a buffer of three segments, two of which are adjacent.
use bpm_gw.Base.{pos, ℕ, ◌≤◌, ◌≡◌, refl, Bool, true, [], ◌∷◌, arith, take, replicate}
use bpm_gw.Pcie.Umem.{
  Segment, no_segment, SgList, UmemEntry, segments, umem_find_entry_id, umem_sgget,
}
use bpm_gw.Pcie.Umem.Merge.{Separate, cover}
use bpm_gw.Pcie.Umem.Sgget.{umem_sgget-merged}

abbrev segment : ℕ → ℕ → Segment
segment a n = record { addr = a; size = n }

abbrev buffer : UmemEntry
buffer = record {
  id = 4;
  first = segment 0x1000 3;
  more = segment 0x1003 2 ∷ segment 0x8000 1 ∷ [];
}

abbrev request : Bool → SgList
request m = record { handle_id = 4; merged = m; nents = 3; sg = replicate 3 no_segment }

merges : umem_sgget (buffer ∷ []) (request true) ≡ (
  pos 0,
  record {
    handle_id = 4;
    merged = true;
    nents = 2;
    sg = segment 0x1000 5 ∷ segment 0x8000 1 ∷ no_segment ∷ [];
  },
)
unfolding umem_sgget
merges = refl

umem_sgget-merged_example :
    (l' : SgList) × (umem_sgget (buffer ∷ []) (request true) ≡ (pos 0, l'))
    × (l'.nents ≤ 3)
    × (cover (take l'.nents l'.sg) ≡ cover (segments buffer))
    × Separate (take l'.nents l'.sg)
unfolding umem_find_entry_id
umem_sgget-merged_example =
    umem_sgget-merged (buffer ∷ []) (request true) buffer refl refl
      (omega arith, (omega arith, (omega arith, tt))) (omega arith) (omega arith)
