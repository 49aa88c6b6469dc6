-- ===== src/Address/Domain.antt =====
-- `ValidateDomainPart` of smtpd/utils.go. A byte over 127 is no ASCII rune, so the loop over the
-- runes and a loop over the bytes refuse the same domains.
pub mod Labels
pub mod Laws
use inbucket.Common.{
  ℕ, ◌+◌, Bool, true, false, not, ◌||◌, Option, none, some, List, [], ◌∷◌, ◌++◌, ltb, ◌==◌,
  if◌then◌else◌, within, length, is_nil, Bytes,
}

-- The variables of the loop.
pub record LabelState : Type 0 where
  pub prev : ℕ
  pub label_len : ℕ
  pub has_alpha_num : Bool

unfoldable pub is_alpha_num : ℕ → Bool
is_alpha_num c = within b'a' b'z' c || within b'A' b'Z' c || within b'0' b'9' c || c == b'_'

-- One round of the loop; `none` is `return false`.
unfoldable pub domain_step : LabelState → ℕ → Option LabelState
domain_step s c =
    if is_alpha_num c
    then some (record { prev = c; label_len = s.label_len + 1; has_alpha_num = true })
    else if c == b'-'
    then (if s.prev == b'.' then none else some (record s { prev = c }))
    else if c == b'.'
    then (if s.prev == b'.' || s.prev == b'-'
        then none
        else if ltb 63 s.label_len
        then none
        else if not s.has_alpha_num
        then none
        else some (record { prev = c; label_len = 0; has_alpha_num = false }))
    else none

unfoldable pub domain_loop : LabelState → Bytes → Bool
domain_loop s [] = true
domain_loop s (c ∷ cs) = elim (domain_step s c) [ none ↦ false | some t ↦ domain_loop t cs ]

abbrev pub label_start : LabelState
label_start = record { prev = b'.'; label_len = 0; has_alpha_num = false }

-- `if domain[len(domain)-1] != '.' { domain += "." }`
unfoldable pub end_with_dot : Bytes → Bytes
end_with_dot [] = b'.' ∷ []
end_with_dot (c ∷ []) = if c == b'.' then c ∷ [] else c ∷ b'.' ∷ []
end_with_dot (c ∷ d ∷ ds) = c ∷ end_with_dot (d ∷ ds)

unfoldable pub validate_domain_part : Bytes → Bool
unfolding end_with_dot domain_loop domain_step is_alpha_num
validate_domain_part domain =
    if is_nil domain
    then false
    else if ltb 255 (length domain)
    then false
    else domain_loop label_start (end_with_dot domain)
