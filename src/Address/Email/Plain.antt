-- ===== src/Address/Email/Plain.antt =====
-- Addresses that need no quoting are read as they stand.
use inbucket.Common.{
  ℕ, ◌+◌, ◌≤◌, ◌≡◌, refl, ap, ◌∙◌, arith, Bool, true, false, not, ◌&&◌, ◌||◌, [], ◌∷◌, ◌++◌, ◌==◌,
  length, Bytes,
}
use mathlib.Core.List.{append_assoc, append-nil}
use inbucket.Address.Domain.{validate_domain_part}
use inbucket.Address.Email.{
  parsed, Scan, next, leave, advance, write_byte, is_plain, round, finish, scan, scan_start,
  parse_email_address,
}

-- A run of unquoted bytes and single periods that neither begins nor ends with a period; `prev` is
-- the byte before it, a period at the start.
abbrev pub is_dot_atom : ℕ → Bytes → Bool
is_dot_atom prev [] = not (prev == b'.')
is_dot_atom prev (c ∷ cs) = (is_plain c || (c == b'.' && not (prev == b'.'))) && is_dot_atom c cs

round-plain :
    (s : Scan) (c : ℕ)
    → (is_plain c || (c == b'.' && not (s.prev == b'.'))) ≡ true
    → round s c ≡ next (advance c (write_byte c s))
unfolding round
round-plain s c h = ground arith

round-at :
    (s : Scan)
    → s.in_char_quote ≡ false
    → s.in_string_quote ≡ false
    → s.index ≤ 128
    → not (s.prev == b'.') ≡ true
    → round s b'@' ≡ leave s
unfolding round is_plain
round-at s p q i h = ground arith

scan-is_dot_atom :
    (l d : Bytes) (s : Scan)
    → is_dot_atom s.prev l ≡ true
    → s.in_char_quote ≡ false
    → s.in_string_quote ≡ false
    → s.index + length l ≤ 128
    → validate_domain_part d ≡ true
    → scan s (l ++ b'@' ∷ d) ≡ parsed (s.buf ++ l) d
unfolding scan finish
scan-is_dot_atom [] d s h p q i v =
    rw (round-at s p q (omega arith) h, scan) (ground (arith, append-nil s.buf))
scan-is_dot_atom (c ∷ cs) d s h p q i v =
    rw (round-plain s c (ground arith), scan)
      (scan-is_dot_atom cs d (advance c (write_byte c s)) (ground arith) refl q (omega arith) v
        ∙ ap (λ (b : Bytes). parsed b d) (append_assoc s.buf (c ∷ []) cs))

-- A local part of plain bytes and single inner periods, of at most 128 bytes, in front of a valid
-- domain, in an address of at most 320 bytes, is returned unchanged.
pub parse_email_address_plain :
    (l d : Bytes)
    → is_dot_atom b'.' l ≡ true
    → length l ≤ 128
    → validate_domain_part d ≡ true
    → length (l ++ b'@' ∷ d) ≤ 320
    → parse_email_address (l ++ b'@' ∷ d) ≡ parsed l d
unfolding parse_email_address is_plain
parse_email_address_plain [] d h n v t = cc
parse_email_address_plain (c ∷ cs) d h n v t =
    ground (arith, scan-is_dot_atom (c ∷ cs) d scan_start h refl refl (omega arith) v)
