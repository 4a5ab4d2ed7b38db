-- ===== src/Etherbone/Checksum.antt =====
-- The Internet checksum of history/embedded-sw/lib/ethmac/etherbone.c.
mod Tests
use bpm_gw.Base.{
  ℕ, zero, suc, ◌+◌, ◌-◌, ◌*◌, ◌/◌, ◌%◌, ◌^◌, ◌≤◌, ◌<◌, ◌≡◌, ◌≢◌, refl, sym, ap, ap₂, ◌∙◌, true,
  false, bit_and, arith, ◌==◌, ==_self, ==_ne, if◌then◌else◌,
}
use bpm_gw.Base.Bits.{bit_and_mask}
use bpm_gw.Etherbone.{Buffer, store, word, sum_loop, fold, checksum, store_word}

-- The sum of the words of a region.
abbrev pub words_sum : Buffer → ℕ → ℕ → ℕ
words_sum m a zero = 0
words_sum m a (suc n) = word m a + words_sum m (suc (suc a)) n

abbrev pub Bytes : Buffer → Type 0
Bytes m = (j : ℕ) → m j < 2 ^ 8

words_sum-bound : (m : Buffer) (a n : ℕ) → Bytes m → words_sum m a n ≤ n * 2 ^ 16
words_sum-bound m a zero b = omega arith
words_sum-bound m a (suc n) b = omega (arith, b a, b (suc a), words_sum-bound m (suc (suc a)) n b)

sum_loop-words_sum :
    (m : Buffer) (a n sum : ℕ)
    → sum + words_sum m a n < 2 ^ 32
    → sum_loop m a n sum ≡ sum + words_sum m a n
unfolding sum_loop
sum_loop-words_sum m a zero sum h = omega arith
sum_loop-words_sum m a (suc n) sum h =
    let exact : (sum + word m a) % 2 ^ 32 ≡ sum + word m a = omega (arith, h) in
    let rest = sum_loop-words_sum m (suc (suc a)) n (sum + word m a) (omega (arith, h)) in
    ap (λ (s : ℕ). sum_loop m (suc (suc a)) n s) exact ∙ omega (arith, rest)

-- Regions that agree have the same sum.
words_sum-frame :
    (m m' : Buffer) (a n : ℕ) → ((j : ℕ) → a ≤ j → m' j ≡ m j) → words_sum m' a n ≡ words_sum m a n
words_sum-frame m m' a zero same = refl
words_sum-frame m m' a (suc n) same = omega (
  arith,
  same a (omega arith),
  same (suc a) (omega arith),
  words_sum-frame m m' (suc (suc a)) n λ j h. same j (omega (arith, h)),
)

-- The folded sum of `s` and its own checksum is all ones.
fold-value :
    (s : ℕ)
    → s < 2 ^ 32
    → fold s
      ≡ (2 ^ 32 - 1 - ((s / 2 ^ 16 + s % 2 ^ 16) + (s / 2 ^ 16 + s % 2 ^ 16) / 2 ^ 16)) % 2 ^ 16
fold-value s h = omega (
  arith,
  h,
  bit_and_mask 16 s,
  bit_and_mask 16 (
      2 ^ 32
      - 1
      - ((s / 2 ^ 16 + bit_and s 0xFFFF) % 2 ^ 32
          + (s / 2 ^ 16 + bit_and s 0xFFFF) % 2 ^ 32 / 2 ^ 16)
        % 2 ^ 32),
)

-- The one's complement sum of a sum and its own checksum is all ones.
folded :
    (s f g : ℕ)
    → s < 2 ^ 31
    → f ≡ (2 ^ 32 - 1 - ((s / 2 ^ 16 + s % 2 ^ 16) + (s / 2 ^ 16 + s % 2 ^ 16) / 2 ^ 16)) % 2 ^ 16
    → g
      ≡ (2 ^ 32
          - 1
          - (((s + f) / 2 ^ 16 + (s + f) % 2 ^ 16)
              + ((s + f) / 2 ^ 16 + (s + f) % 2 ^ 16) / 2 ^ 16))
        % 2 ^ 16
    → g ≡ 0
folded s f g h ef eg = omega (arith, h, ef, eg)

fold-bound : (s : ℕ) → s < 2 ^ 32 → fold s < 2 ^ 16
fold-bound s h = let f = fold-value s h in omega (arith, f)

fold_self : (s : ℕ) → s < 2 ^ 31 → fold (s + fold s) ≡ 0
fold_self s h =
    let small = fold-bound s (omega (arith, h)) in
    folded s (fold s) (fold (s + fold s)) h (fold-value s (omega (arith, h)))
      (fold-value (s + fold s) (omega (arith, h, small)))

pub store_word-other : (m : Buffer) (a v j : ℕ) → j ≢ a → j ≢ suc a → store_word m a v j ≡ m j
store_word-other m a v j h k = rw (==_ne j a h, ==_ne j (suc a) k) refl

store_word-word : (m : Buffer) (a v : ℕ) → v < 2 ^ 16 → word (store_word m a v) a ≡ v
store_word-word m a v h =
    rw (==_self a, ==_self (suc a), ==_ne a (suc a) (λ e. omega (arith, e)))
      (omega (arith, h, bit_and_mask 8 v))

-- A word that was zero is stored in the region.
words_sum-store_word :
    (m : Buffer) (a n k p v : ℕ)
    → k < n
    → p ≡ a + 2 * k
    → v < 2 ^ 16
    → word m p ≡ 0
    → words_sum (store_word m p v) a n ≡ words_sum m a n + v
words_sum-store_word m a zero k p v h e hv z = absurd (omega arith)
words_sum-store_word m a (suc n) zero p v h e hv z =
    let here : p ≡ a = omega (arith, e) in
    let stored : word (store_word m p v) a ≡ v =
      ap (λ (q : ℕ). word (store_word m p v) q) (sym here) ∙ store_word-word m p v hv in
    let was : word m a ≡ 0 = ap (λ (q : ℕ). word m q) (sym here) ∙ z in
    omega (
      arith,
      stored,
      was,
      words_sum-frame m (store_word m p v) (suc (suc a)) n λ j hj.
          store_word-other m p v j (λ ej. omega (arith, ej, hj, e))
            (λ ej. omega (arith, ej, hj, e)),
    )
words_sum-store_word m a (suc n) (suc k) p v h e hv z =
    let rest =
      words_sum-store_word m (suc (suc a)) n k p v (omega (arith, h)) (omega (arith, e)) hv z in
    let high = store_word-other m p v a (λ ea. omega (arith, ea, e)) (λ ea. omega (arith, ea, e)) in
    let low =
      store_word-other m p v (suc a) (λ ea. omega (arith, ea, e)) (λ ea. omega (arith, ea, e)) in
    omega (arith, rest, high, low)

checksum-words_sum :
    (m : Buffer) (a n : ℕ) → words_sum m a n < 2 ^ 32 → checksum m a n ≡ fold (words_sum m a n)
unfolding checksum
checksum-words_sum m a n h =
    let start : 0 + words_sum m a n ≡ words_sum m a n = omega arith in
    ap fold (sum_loop-words_sum m a n 0 (omega (arith, h)) ∙ start)

-- In a region of fewer than 2 ^ 15 words with a zero word, storing the checksum of the region in that
-- word makes the checksum of the region zero, which is what a receiver tests.
pub checksum-verifies :
    (m : Buffer) (a n k p : ℕ)
    → Bytes m
    → n < 2 ^ 15
    → k < n
    → p ≡ a + 2 * k
    → word m p ≡ 0
    → checksum (store_word m p (checksum m a n)) a n ≡ 0
checksum-verifies m a n k p b small h e z =
    let bound = words_sum-bound m a n b in
    let total = words_sum m a n in
    let value : checksum m a n ≡ fold total =
      checksum-words_sum m a n (omega (arith, bound, small)) in
    let fits = fold-bound total (omega (arith, bound, small)) in
    let sum = words_sum-store_word m a n k p (checksum m a n) h e (omega (arith, value, fits)) z in
    checksum-words_sum (store_word m p (checksum m a n)) a n
      (omega (arith, sum, value, fits, bound, small))
    ∙ ap fold (sum ∙ ap (λ (v : ℕ). total + v) value)
    ∙ fold_self total (omega (arith, bound, small))
