-- ===== src/FileStore/Mailbox/Ids.antt =====
-- The identifiers of messages.
use inbucket.Common.{
  ℕ, zero, suc, ◌+◌, ◌%◌, ◌<◌, ◌≡◌, ◌≢◌, refl, sym, ap, ◌∙◌, arith, [], ◌∷◌, ◌++◌, length, drop,
  Bytes,
}
use inbucket.FileStore.{Library}
use inbucket.FileStore.Mailbox.{next_count, four_digits, generate_prefix, generate_id}

-- The counter behind so many identifiers.
abbrev pub count_after : ℕ → ℕ → ℕ
count_after zero c = c
count_after (suc k) c = count_after k (next_count c)

count_after_lem : (k c : ℕ) → c < 10000 → count_after k c ≡ (c + k) % 10000
unfolding next_count
count_after_lem zero c h = omega arith
count_after_lem (suc k) c h = omega (arith, count_after_lem k ((c + 1) % 10000) (omega arith))

four_digits_injective : (m n : ℕ) → m < 10000 → n < 10000 → four_digits m ≡ four_digits n → m ≡ n
unfolding four_digits
four_digits_injective m n a b e = ground arith

drop-prefix : (s t : Bytes) → drop (length s) (s ++ t) ≡ t
drop-prefix [] t = refl
drop-prefix (c ∷ s) t = drop-prefix s t

module _ (lib : Library) where
  -- Where the formatted times have one length, the identifiers of 10000 messages in a row, whatever
  -- their times, are different.
  pub generate_id-distinct :
      (count k : ℕ) (date later : ℕ)
      → length (lib.format date) ≡ length (lib.format later)
      → count < 10000
      → 0 < k
      → k < 10000
      → generate_id lib date count ≢ generate_id lib later (count_after k count)
  unfolding generate_id generate_prefix
  generate_id-distinct count k date later same c p b e =
      let n = count_after k count in
      let s = lib.format date in
      let r = lib.format later in
      let tail : b'-' ∷ four_digits count ≡ b'-' ∷ four_digits n =
        sym (drop-prefix s (b'-' ∷ four_digits count))
        ∙ ap (drop (length s)) e
        ∙ ap (λ i. drop i (r ++ b'-' ∷ four_digits n)) same
        ∙ drop-prefix r (b'-' ∷ four_digits n) in
      let last = count_after_lem k count c in
      let equal = four_digits_injective count n c (omega (arith, last)) (ap (drop 1) tail) in
      absurd (omega (arith, last, equal))
