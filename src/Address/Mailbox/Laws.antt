-- ===== src/Address/Mailbox/Laws.antt =====
-- What the names that `ParseMailboxName` returns are, and that naming is stable.
use inbucket.Common.{
  ℕ, ◌≡◌, ◌≢◌, refl, ◌∙◌, ap, arith, Bool, true, not, ◌&&◌, [], ◌∷◌, ◌++◌, map, ◌==◌, all, Bytes,
  contains, is_ascii, is_folded, lower_byte, to_lower, before, Unicode, all-contains, all-append,
  all_mono, all-before, all-before_ne, before_absent, before-append, to_lower_folded,
  to_lower-eq_map, map-lower_byte_twice, all-is_ascii_lower, is_nil,
}
use inbucket.Address.Mailbox.{
  named, refused, empty_name, is_mailbox_byte, mailbox_specials, invalid_bytes, check_name,
  parse_mailbox_name,
}

is_mailbox_byte-folded : (c : ℕ) → is_mailbox_byte c ≡ true → is_folded c ≡ true
unfolding is_mailbox_byte
is_mailbox_byte-folded c h = ground (arith, all-contains is_folded mailbox_specials c)

all-is_folded : (s : Bytes) → all is_mailbox_byte s ≡ true → all is_folded s ≡ true
all-is_folded = all_mono is_mailbox_byte is_folded is_mailbox_byte-folded

invalid_bytes-nil : (s : Bytes) → invalid_bytes s ≡ [] → all is_mailbox_byte s ≡ true
unfolding invalid_bytes
invalid_bytes-nil [] h = refl
invalid_bytes-nil (c ∷ cs) h = ground (arith, invalid_bytes-nil cs)

invalid_bytes-valid : (s : Bytes) → all is_mailbox_byte s ≡ true → invalid_bytes s ≡ []
unfolding invalid_bytes
invalid_bytes-valid [] h = refl
invalid_bytes-valid (c ∷ cs) h = ground (arith, invalid_bytes-valid cs)

check_name-named :
    (s bad : Bytes) {r : Bytes} → check_name s bad ≡ named r → (bad ≡ []) × (before b'+' s ≡ r)
unfolding check_name
check_name-named s [] h = ground arith
check_name-named s (c ∷ cs) h = ground arith

-- A byte that a mailbox name may hold once its `+` extension is cut.
abbrev pub is_name_byte : ℕ → Bool
is_name_byte c = is_mailbox_byte c && not (c == b'+')

all-both :
    (p q : ℕ → Bool) (s : Bytes) → all p s ≡ true → all q s ≡ true → all (λ c. p c && q c) s ≡ true
all-both p q [] h k = refl
all-both p q (c ∷ cs) h k = ground (arith, all-both p q cs)

-- A name that `ParseMailboxName` returns holds only accepted bytes, none of them a `+`.
pub parse_mailbox_name-name_bytes :
    (u : Unicode) (s r : Bytes) → parse_mailbox_name u s ≡ named r → all is_name_byte r ≡ true
unfolding parse_mailbox_name
parse_mailbox_name-name_bytes u (c ∷ cs) r h =
    let s = to_lower u (c ∷ cs) in
    let (valid, cut) = check_name-named s (invalid_bytes s) h in
    rw (← cut) (
      all-both is_mailbox_byte _ (before b'+' s)
        (all-before is_mailbox_byte b'+' s (invalid_bytes-nil s valid)) (all-before_ne b'+' s))
parse_mailbox_name-name_bytes u [] r h = cc

-- Naming a text of accepted bytes cuts it before the first `+`.
pub parse_mailbox_name_valid :
    (u : Unicode) (s : Bytes)
    → s ≢ []
    → all is_mailbox_byte s ≡ true
    → parse_mailbox_name u s ≡ named (before b'+' s)
unfolding parse_mailbox_name check_name
parse_mailbox_name_valid u [] ne h = absurd (ne refl)
parse_mailbox_name_valid u (c ∷ cs) ne h =
    rw (to_lower_folded u (c ∷ cs) (all-is_folded (c ∷ cs) h)) (rw (invalid_bytes-valid (c ∷ cs) h))

name_byte-mailbox : (c : ℕ) → is_name_byte c ≡ true → is_mailbox_byte c ≡ true
name_byte-mailbox c h = ground arith

name_byte-no_plus : (c : ℕ) → is_name_byte c ≡ true → not (c == b'+') ≡ true
name_byte-no_plus c h = ground arith

-- A name that `ParseMailboxName` returned and that is not empty names itself.
pub parse_mailbox_name_twice :
    (u : Unicode) (s r : Bytes)
    → parse_mailbox_name u s ≡ named r
    → r ≢ []
    → parse_mailbox_name u r ≡ named r
parse_mailbox_name_twice u s r h ne =
    let bytes = parse_mailbox_name-name_bytes u s r h in
    parse_mailbox_name_valid u r ne
      (all_mono is_name_byte is_mailbox_byte name_byte-mailbox r bytes)
    ∙ ap named (before_absent b'+' r (all_mono is_name_byte _ name_byte-no_plus r bytes))

all-extended :
    (s ext : Bytes)
    → all is_mailbox_byte s ≡ true
    → all is_mailbox_byte ext ≡ true
    → all is_mailbox_byte (s ++ b'+' ∷ ext) ≡ true
unfolding is_mailbox_byte contains
all-extended s ext h k = rw all-append (rw (h, k))

append-ne-nil : (s : Bytes) (c : ℕ) (t : Bytes) → s ++ c ∷ t ≢ []
append-ne-nil [] c t h = cc
append-ne-nil (x ∷ xs) c t h = cc

-- For a text of accepted bytes that is not empty, `user+ext` and `user` are the same mailbox.
pub parse_mailbox_name-extension :
    (u : Unicode) (s ext : Bytes)
    → s ≢ []
    → all is_mailbox_byte s ≡ true
    → all is_mailbox_byte ext ≡ true
    → parse_mailbox_name u (s ++ b'+' ∷ ext) ≡ parse_mailbox_name u s
parse_mailbox_name-extension u s ext ne h k =
    parse_mailbox_name_valid u _ (append-ne-nil s b'+' ext) (all-extended s ext h k)
    ∙ ap named (before-append b'+' s ext)
    ∙ (rw (parse_mailbox_name_valid u s ne h))

-- A local part that begins with `+` has the empty name, and the empty name is refused by the same
-- function.
pub parse_mailbox_name_unnamed :
    (u : Unicode) (ext : Bytes)
    → all is_mailbox_byte ext ≡ true
    → (parse_mailbox_name u (b'+' ∷ ext) ≡ named [])
      × (parse_mailbox_name u [] ≡ refused empty_name)
unfolding parse_mailbox_name before
parse_mailbox_name_unnamed u ext h =
    (parse_mailbox_name_valid u (b'+' ∷ ext) (λ e. cc) (all-extended [] ext refl h), refl)

is_nil-map : (s : Bytes) → is_nil (map lower_byte s) ≡ is_nil s
is_nil-map [] = refl
is_nil-map (c ∷ cs) = refl

-- Mailbox names do not depend on the case of an ASCII local part.
pub parse_mailbox_name-lower :
    (u : Unicode) (s : Bytes)
    → all is_ascii s ≡ true
    → parse_mailbox_name u (map lower_byte s) ≡ parse_mailbox_name u s
unfolding parse_mailbox_name
parse_mailbox_name-lower u s h = rw (
  is_nil-map s,
  to_lower-eq_map u s h,
  to_lower-eq_map u (map lower_byte s) (all-is_ascii_lower s h),
  map-lower_byte_twice s,
)
