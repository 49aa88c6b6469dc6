-- ===== src/Address/Domain/Labels.antt =====
-- A domain part by its labels: what `ValidateDomainPart` is to accept, with no loop variables.
use inbucket.Common.{
  ℕ, ◌+◌, ◌≡◌, refl, ap, arith, Bool, true, false, not, ◌&&◌, ◌||◌, List, [], ◌∷◌, ◌++◌, leb, ◌==◌,
  if◌then◌else◌, length, all, is_nil, Bytes, split, onto_first,
}
use inbucket.Address.Domain.{
  LabelState, is_alpha_num, domain_step, domain_loop, label_start, end_with_dot,
  validate_domain_part,
}

abbrev pub is_label_byte : ℕ → Bool
is_label_byte c = is_alpha_num c || c == b'-'

-- The letters, digits and underscores of a label; a hyphen is not counted.
abbrev pub alpha_nums : Bytes → ℕ
alpha_nums [] = 0
alpha_nums (c ∷ cs) = (if is_alpha_num c then 1 else 0) + alpha_nums cs

-- Whether the last byte of `c ∷ cs` is a letter, a digit or an underscore.
abbrev pub ends_well : ℕ → Bytes → Bool
ends_well c [] = is_alpha_num c
ends_well c (d ∷ ds) = ends_well d ds

-- Not empty, of label bytes, with no hyphen at either end, and at most 63 bytes beside hyphens.
abbrev pub valid_label : Bytes → Bool
valid_label [] = false
valid_label (c ∷ cs) =
    is_alpha_num c && (all is_label_byte cs && ends_well c cs && leb (alpha_nums (c ∷ cs)) 63)

-- One trailing period is the root and is taken off.
abbrev pub drop_root : Bytes → Bytes
drop_root [] = []
drop_root (c ∷ []) = if c == b'.' then [] else c ∷ []
drop_root (c ∷ d ∷ ds) = c ∷ drop_root (d ∷ ds)

abbrev pub valid_domain : Bytes → Bool
valid_domain d = not (is_nil d) && leb (length d) 255 && all valid_label (split b'.' (drop_root d))

alpha_num_ne : (c : ℕ) → is_alpha_num c ≡ true → ((c == b'-') ≡ false) × ((c == b'.') ≡ false)
unfolding is_alpha_num
alpha_num_ne c h = ground arith

-- What the loop does with the rest `w` of a label and the period behind it.
abbrev rest_ok : LabelState → Bytes → Bool
rest_ok s [] = not (s.prev == b'.' || s.prev == b'-') && (leb s.label_len 63 && s.has_alpha_num)
rest_ok s (c ∷ cs) =
    let counted =
      rest_ok (record { prev = c; label_len = s.label_len + 1; has_alpha_num = true }) cs in
    let hyphened = rest_ok (record s { prev = c }) cs in
    if is_alpha_num c then counted else c == b'-' && (not (s.prev == b'.') && hyphened)

rest_ok-inner :
    (w : Bytes) (s : LabelState)
    → s.has_alpha_num ≡ true
    → is_label_byte s.prev ≡ true
    → rest_ok s w
      ≡ (all is_label_byte w && ends_well s.prev w && leb (s.label_len + alpha_nums w) 63)
rest_ok-inner [] s h p = ground (arith, alpha_num_ne s.prev)
rest_ok-inner (c ∷ cs) s h p = ground (
  arith,
  alpha_num_ne c,
  alpha_num_ne s.prev,
  rest_ok-inner cs (record { prev = c; label_len = s.label_len + 1; has_alpha_num = true }) refl,
  rest_ok-inner cs (record s { prev = c }) h,
)

rest_ok-valid_label : (w : Bytes) → rest_ok label_start w ≡ valid_label w
rest_ok-valid_label [] = refl
rest_ok-valid_label (c ∷ cs) =
    ground
      (arith, rest_ok-inner cs (record { prev = c; label_len = 0 + 1; has_alpha_num = true }) refl)

abbrev words_ok : LabelState → List Bytes → Bool
words_ok s [] = false
words_ok s (w ∷ ws) = rest_ok s w && all valid_label ws

words_ok-start :
    (ws : List Bytes) → words_ok label_start ws ≡ (not (is_nil ws) && all valid_label ws)
words_ok-start [] = refl
words_ok-start (w ∷ ws) = ap (λ b. b && all valid_label ws) (rest_ok-valid_label w)

split-ne-nil : (sep : ℕ) (s : Bytes) → is_nil (split sep s) ≡ false
unfolding split
split-ne-nil sep [] = refl
split-ne-nil sep (c ∷ cs) =
    elim (split sep cs) as (λ ws. is_nil (if c == sep then [] ∷ ws else onto_first c ws) ≡ false) [
      | [] ↦ ground arith
      | w ∷ ws ↦ ground arith
    ]

abbrev counted : LabelState → ℕ → LabelState
counted s c = record { prev = c; label_len = s.label_len + 1; has_alpha_num = true }

abbrev hyphened : LabelState → ℕ → LabelState
hyphened s c = record s { prev = c }

words_ok-onto_first :
    (s : LabelState) (c : ℕ) (ws : List Bytes)
    → is_nil ws ≡ false
    → words_ok s (onto_first c ws) ≡ (
        if is_alpha_num c
        then words_ok (counted s c) ws
        else c == b'-' && (not (s.prev == b'.') && words_ok (hyphened s c) ws))
words_ok-onto_first s c [] h = cc
words_ok-onto_first s c (w ∷ ws) h = ground (arith, alpha_num_ne c)

domain_loop-words_ok :
    (cs : Bytes) (s : LabelState) → domain_loop s (cs ++ b'.' ∷ []) ≡ words_ok s (split b'.' cs)
unfolding domain_loop domain_step split
domain_loop-words_ok [] s = ground (arith, alpha_num_ne b'.')
domain_loop-words_ok (c ∷ cs) s = ground (
  arith,
  alpha_num_ne c,
  split-ne-nil b'.' cs,
  words_ok-onto_first s c (split b'.' cs),
  domain_loop-words_ok cs (counted s c),
  domain_loop-words_ok cs (hyphened s c),
  domain_loop-words_ok cs label_start,
  words_ok-start (split b'.' cs),
)

end_with_dot-drop_root : (d : Bytes) → end_with_dot d ≡ drop_root d ++ b'.' ∷ []
unfolding end_with_dot
end_with_dot-drop_root [] = refl
end_with_dot-drop_root (c ∷ []) = ground arith
end_with_dot-drop_root (c ∷ d ∷ ds) = ap (◌∷◌ c) (end_with_dot-drop_root (d ∷ ds))

-- `ValidateDomainPart` accepts exactly the domains of 1 to 255 bytes whose labels, a trailing
-- period apart, are not empty, hold letters, digits, `_` and `-` with no `-` at either end, and
-- count at most 63 bytes other than `-`.
pub validate_domain_part-valid_domain : (d : Bytes) → validate_domain_part d ≡ valid_domain d
unfolding validate_domain_part
validate_domain_part-valid_domain d = rw (end_with_dot-drop_root d) (
    ground (
      arith,
      domain_loop-words_ok (drop_root d) label_start,
      split-ne-nil b'.' (drop_root d),
      words_ok-start (split b'.' (drop_root d)),
    ))
