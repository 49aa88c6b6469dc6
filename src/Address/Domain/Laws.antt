-- ===== src/Address/Domain/Laws.antt =====
-- The bound of `ValidateDomainPart` on a label does not count its hyphens.
use inbucket.Common.{
  ℕ, zero, suc, ◌+◌, ◌≤◌, ◌≡◌, refl, ◌∙◌, ap, arith, true, [], ◌∷◌, ◌++◌, ◌==◌, not, Bytes,
  replicate, length-replicate, length-append, split, all,
}
use inbucket.Address.Domain.{validate_domain_part, is_alpha_num}
use inbucket.Address.Domain.Labels.{
  is_label_byte, alpha_nums, ends_well, drop_root, validate_domain_part-valid_domain,
}

abbrev HasNoDot : Bytes → Type 0
HasNoDot s = all (λ c. not (c == b'.')) s ≡ true

split-whole : (s : Bytes) → HasNoDot s → split b'.' s ≡ s ∷ []
unfolding split
split-whole [] h = refl
split-whole (c ∷ cs) h = ground (arith, split-whole cs)

drop_root-whole : (s : Bytes) → HasNoDot s → drop_root s ≡ s
drop_root-whole [] h = refl
drop_root-whole (c ∷ []) h = ground arith
drop_root-whole (c ∷ d ∷ ds) h = ap (◌∷◌ c) (drop_root-whole (d ∷ ds) (ground arith))

abbrev hyphens : ℕ → Bytes
hyphens n = replicate n b'-' ++ b'b' ∷ []

hyphens_facts :
    (n c : ℕ)
    → HasNoDot (hyphens n)
      × (all is_label_byte (hyphens n) ≡ true)
      × (ends_well c (hyphens n) ≡ true)
      × (alpha_nums (hyphens n) ≡ 1)
unfolding is_alpha_num
hyphens_facts zero c = (refl, refl, refl, refl)
hyphens_facts (suc n) c = let (d, l, e, a) = hyphens_facts n b'-' in (d, l, e, ground arith)

-- A label with any number of inner hyphens is accepted while the domain has at most 255 bytes.
pub validate_domain_part-hyphen_run :
    (n : ℕ) → n + 2 ≤ 255 → validate_domain_part (b'a' ∷ (replicate n b'-' ++ b'b' ∷ [])) ≡ true
unfolding is_alpha_num
validate_domain_part-hyphen_run n h =
    let (d, l, e, a) = hyphens_facts n b'a' in
    validate_domain_part-valid_domain (b'a' ∷ hyphens n)
    ∙ rw (drop_root-whole (b'a' ∷ hyphens n) d) (
        rw (split-whole (b'a' ∷ hyphens n) d) (
          ground (
            arith,
            length-append {A = ℕ} (replicate n b'-') (b'b' ∷ []),
            length-replicate {A = ℕ} n b'-',
          )))
