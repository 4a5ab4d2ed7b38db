-- ===== src/Etherbone/Checksum/Tests.antt =====
-- The checksum of a known IP header.
use bpm_gw.Base.{◌≡◌, refl, [], ◌∷◌, arith, get_or}
use bpm_gw.Etherbone.{Buffer, checksum, store_word}
use bpm_gw.Etherbone.Checksum.{checksum-verifies}

-- 4500 0073 0000 4000 4011 0000 c0a8 0001 c0a8 00c7
abbrev header : Buffer
header j =
    get_or
      (0x45 ∷ 0 ∷ 0 ∷ 0x73 ∷ 0 ∷ 0 ∷ 0x40 ∷ 0 ∷ 0x40 ∷ 0x11 ∷ 0 ∷ 0 ∷ 0xc0 ∷ 0xa8 ∷ 0 ∷ 0x01 ∷ 0xc0
        ∷ 0xa8 ∷ 0 ∷ 0xc7 ∷ [])
      j 0

known : checksum header 0 10 ≡ 0xb861
unfolding checksum
known = refl

abbrev constant : Buffer
constant j = 0

checksum-verifies_example : checksum (store_word constant 10 (checksum constant 0 10)) 0 10 ≡ 0
checksum-verifies_example =
    checksum-verifies constant 0 10 5 10 (λ j. omega arith) (omega arith) (omega arith) refl refl
