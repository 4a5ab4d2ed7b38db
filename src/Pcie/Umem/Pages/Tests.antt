-- ===== src/Pcie/Umem/Pages/Tests.antt =====
-- The pages of concrete buffers.
use bpm_gw.Base.{◌≡◌, refl, [], ◌∷◌}
use bpm_gw.Pcie.Umem.Pages.{page_lengths}

two_and_a_bit : page_lengths 0x10F00 0x1200 ≡ 0x100 ∷ 0x1000 ∷ 0x100 ∷ []
unfolding page_lengths
two_and_a_bit = refl
