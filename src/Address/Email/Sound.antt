-- ===== src/Address/Email/Sound.antt =====
-- What `ParseEmailAddress` returns, related to the address it was given.
use inbucket.Common.{
  ℕ, ◌+◌, ◌≤◌, ◌≡◌, ◌⊎◌, inl, inr, refl, sym, ap, ◌∙◌, arith, true, [], ◌∷◌, ◌++◌, length, all,
  is_ascii, Bytes, length-append, all-append, all-contains,
}
use mathlib.Core.List.{append_assoc, append-nil}
use mathlib.Core.Path.{subst}
use inbucket.Address.Domain.{validate_domain_part}
use inbucket.Address.Email.{
  parsed, failed, Scan, Round, next, leave, stop, is_plain, specials, round, finish, scan,
  scan_start, parse_email_address,
}

-- A text from which some backslashes and double quotes are left out.
pub data Unescaped : Bytes → Bytes → Type 0 where
  ends : Unescaped [] []
  keeps : (c : ℕ) {cs ds : Bytes} → Unescaped cs ds → Unescaped (c ∷ cs) (c ∷ ds)
  drops_backslash : {cs ds : Bytes} → Unescaped cs ds → Unescaped cs (b'\\' ∷ ds)
  drops_quote : {cs ds : Bytes} → Unescaped cs ds → Unescaped cs (b'"' ∷ ds)

-- What a round that goes on does to the text read so far.
Written : Scan → ℕ → Scan → Type 0
Written s c t =
    (t.buf ≡ s.buf ++ c ∷ []) ⊎ ((t.buf ≡ s.buf) × (c ≡ b'\\')) ⊎ ((t.buf ≡ s.buf) × (c ≡ b'"'))

round-Written : (s t : Scan) (c : ℕ) → round s c ≡ next t → Written s c t
unfolding round Written is_plain
round-Written s t c e = ground (arith, e)

abbrev WithinWritten : Scan → Scan → Type 0
WithinWritten s t = (t.index ≡ s.index + 1) × (length t.buf ≤ length s.buf + 1)

-- What one round does to the variables that the bounds are about.
abbrev RoundFacts : Scan → ℕ → Round → Type 0
RoundFacts s c (next t) =
    WithinWritten s t × (all is_ascii s.buf ≡ true → all is_ascii t.buf ≡ true)
RoundFacts s c (leave t) = (t ≡ s) × (c ≡ b'@') × (s.index ≤ 128)
RoundFacts s c (stop e) = Unit {0}

is_plain-is_ascii : (c : ℕ) → is_plain c ≡ true → is_ascii c ≡ true
unfolding is_plain
is_plain-is_ascii c h = ground (arith, all-contains is_ascii specials c)

round-RoundFacts : (s : Scan) (c : ℕ) → RoundFacts s c (round s c)
unfolding round
round-RoundFacts s c =
    ground
      (arith, length-append s.buf (c ∷ []), all-append is_ascii s.buf (c ∷ []), is_plain-is_ascii c)

-- The local part that was read ends at an `@`, and the domain behind it was validated.
pub record IsSplit (address : Bytes) (buf : Bytes) (index : ℕ) (local domain : Bytes) : Type 0 where
  pub quoted : Bytes
  pub splits : address ≡ quoted ++ b'@' ∷ domain
  pub within_limit : index + length quoted ≤ 128
  pub copy : Bytes
  pub copied : local ≡ buf ++ copy
  pub unescaped : Unescaped copy quoted
  pub valid_domain : validate_domain_part domain ≡ true
  pub local_ascii : all is_ascii buf ≡ true → all is_ascii local ≡ true

finish-parsed :
    (s : Scan) (d : Bytes) {l e : Bytes}
    → finish s d ≡ parsed l e
    → (l ≡ s.buf) × (e ≡ d) × (validate_domain_part d ≡ true)
unfolding finish
finish-parsed s d h = ground arith

finish-nil : (s : Scan) {l e : Bytes} → finish s [] ≡ parsed l e → ⊥
unfolding finish validate_domain_part
finish-nil s h = ground arith

Unescaped-length : {cs ds : Bytes} → Unescaped cs ds → length cs ≤ length ds
Unescaped-length ends = omega arith
Unescaped-length (keeps c u) = omega (arith, Unescaped-length u)
Unescaped-length (drops_backslash u) = omega (arith, Unescaped-length u)
Unescaped-length (drops_quote u) = omega (arith, Unescaped-length u)

-- One byte more of the text, in front of what is copied behind it.
Written-Unescaped :
    (s t : Scan) (c : ℕ) (local copy quoted : Bytes)
    → Written s c t
    → local ≡ t.buf ++ copy
    → Unescaped copy quoted
    → (more : Bytes) × (local ≡ s.buf ++ more) × Unescaped more (c ∷ quoted)
unfolding Written
Written-Unescaped s t c local copy quoted (inl e) f u =
    (c ∷ copy, f ∙ ap (λ b. b ++ copy) e ∙ append_assoc s.buf (c ∷ []) copy, keeps c u)
Written-Unescaped s t c local copy quoted (inr (inl (e, g))) f u = (
  copy,
  f ∙ ap (λ b. b ++ copy) e,
  subst (λ d. Unescaped copy (d ∷ quoted)) (sym g) (drops_backslash u),
)
Written-Unescaped s t c local copy quoted (inr (inr (e, g))) f u = (
  copy,
  f ∙ ap (λ b. b ++ copy) e,
  subst (λ d. Unescaped copy (d ∷ quoted)) (sym g) (drops_quote u),
)

scan-IsSplit :
    (cs : Bytes) (s : Scan) (l d : Bytes) → scan s cs ≡ parsed l d → IsSplit cs s.buf s.index l d
unfolding scan
scan-IsSplit [] s l d h = absurd (finish-nil s h)
scan-IsSplit (c ∷ cs) s l d h =
    go (round s c) (round-RoundFacts s c) (λ t. round-Written s t c) (λ t. scan-IsSplit cs t l d) h
  where
    go :
        (r : Round)
        → RoundFacts s c r
        → ((t : Scan) → r ≡ next t → Written s c t)
        → ((t : Scan) → scan t cs ≡ parsed l d → IsSplit cs t.buf t.index l d)
        → (elim r [ next t ↦ scan t cs | leave t ↦ finish t cs | stop e ↦ failed e ]) ≡ parsed l d
        → IsSplit (c ∷ cs) s.buf s.index l d
    go (next t) f w ih h =
        let i = ih t h in
        let (more, copied, u) =
          Written-Unescaped s t c l i.copy i.quoted (w t refl) i.copied i.unescaped in
        record {
          quoted = c ∷ i.quoted;
          splits = ap (◌∷◌ c) i.splits;
          within_limit = omega (arith, f.0, i.within_limit);
          copy = more;
          copied = copied;
          unescaped = u;
          valid_domain = i.valid_domain;
          local_ascii = λ a. i.local_ascii (f.1 a);
        }
    go (leave t) f w ih h =
        let e = finish-parsed t cs h in
        record {
          quoted = [];
          splits = cc;
          within_limit = omega arith;
          copy = [];
          copied = e.0 ∙ ap (λ x. x.buf) f.0 ∙ sym (append-nil s.buf);
          unescaped = ends;
          valid_domain = ground arith;
          local_ascii = ground arith;
        }
    go (stop e) f w ih h = cc

-- An accepted address is a text of at most 128 bytes, an `@`, and a domain that the validation
-- accepts; it has at most 320 bytes. The local part is ASCII, and is that text without some of its
-- backslashes and double quotes, its other bytes in their order.
pub parse_email_address-parsed :
    (a l d : Bytes)
    → parse_email_address a ≡ parsed l d
    → (quoted : Bytes) × (a ≡ quoted ++ b'@' ∷ d)
      × (length quoted ≤ 128)
      × Unescaped l quoted
      × (length l ≤ length quoted)
      × (all is_ascii l ≡ true)
      × (validate_domain_part d ≡ true)
      × (length a ≤ 320)
unfolding parse_email_address
parse_email_address-parsed [] l d h = cc
parse_email_address-parsed (c ∷ cs) l d h =
    let i = scan-IsSplit (c ∷ cs) scan_start l d (ground arith) in
    (
      i.quoted,
      i.splits,
      omega (arith, i.within_limit),
      subst (λ x. Unescaped x i.quoted) (sym i.copied) i.unescaped,
      omega (arith, Unescaped-length i.unescaped, ap length i.copied),
      i.local_ascii refl,
      i.valid_domain,
      ground arith,
    )
