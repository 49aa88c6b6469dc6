-- ===== src/Address/Email.antt =====
-- `ParseEmailAddress` of smtpd/utils.go.
pub mod Sound
pub mod Plain
use inbucket.Common.{
  ℕ, ◌+◌, Bool, true, false, not, ◌||◌, List, [], ◌∷◌, ◌++◌, ltb, ◌==◌, if◌then◌else◌, within,
  length, Bytes, codes, contains,
}
use inbucket.Address.Domain.{validate_domain_part}

pub data AddressError : Type 0 where
  empty_address too_long starts_with_at starts_with_period period_sequence : AddressError
  late_quote local_too_long ends_with_period not_ascii must_be_quoted : AddressError
  open_char_quote open_string_quote bad_domain : AddressError

pub data Parsed : Type 0 where
  parsed : Bytes → Bytes → Parsed
  failed : AddressError → Parsed

-- The variables of the loop; `index` is the loop's `i`.
pub record Scan : Type 0 where
  pub index : ℕ
  pub buf : Bytes
  pub prev : ℕ
  pub in_char_quote : Bool
  pub in_string_quote : Bool

-- What a round does: it goes on, it leaves the loop at the `@`, or it returns an error.
pub data Round : Type 0 where
  next : Scan → Round
  leave : Scan → Round
  stop : AddressError → Round

abbrev pub specials : Bytes
specials = codes "!#$%&'*+-/=?^_`{|}~"

unfoldable pub is_plain : ℕ → Bool
unfolding contains
is_plain c = within b'a' b'z' c || within b'A' b'Z' c || within b'0' b'9' c || contains specials c

-- `prev = c` at the end of a round.
abbrev pub advance : ℕ → Scan → Scan
advance c s = record s { index = s.index + 1; prev = c }

-- `buf.WriteByte(c)`, `inCharQuote = false`
abbrev pub write_byte : ℕ → Scan → Scan
write_byte c s = record s { buf = s.buf ++ c ∷ []; in_char_quote = false }

abbrev double_quote : ℕ → Scan → Round
double_quote c s =
    if s.in_char_quote
    then next (advance c (write_byte c s))
    else if s.in_string_quote
    then next (advance c (record s { in_string_quote = false }))
    else if s.index == 0
    then next (advance c (record s { in_string_quote = true }))
    else stop late_quote

abbrev at_sign : ℕ → Scan → Round
at_sign c s =
    if s.in_char_quote || s.in_string_quote
    then next (advance c (write_byte c s))
    else if ltb 128 s.index
    then stop local_too_long
    else if s.prev == b'.'
    then stop ends_with_period
    else leave s

-- The `switch` over the byte `c`.
unfoldable pub round : Scan → ℕ → Round
round s c =
    if is_plain c
    then next (advance c (write_byte c s))
    else if c == b'.'
    then (if s.prev == b'.' then stop period_sequence else next (advance c (write_byte c s)))
    else if c == b'\\'
    then next (advance c (record s { in_char_quote = true }))
    else if c == b'"'
    then double_quote c s
    else if c == b'@'
    then at_sign c s
    else if ltb 127 c
    then stop not_ascii
    else if s.in_char_quote || s.in_string_quote
    then next (advance c (write_byte c s))
    else stop must_be_quoted

-- What follows the loop.
unfoldable pub finish : Scan → Bytes → Parsed
finish s domain =
    if s.in_char_quote
    then failed open_char_quote
    else if s.in_string_quote
    then failed open_string_quote
    else if not (validate_domain_part domain)
    then failed bad_domain
    else parsed s.buf domain

unfoldable pub scan : Scan → Bytes → Parsed
unfolding finish
scan s [] = finish s []
scan s (c ∷ cs) = elim (round s c) [
  | next t ↦ scan t cs
  | leave t ↦ finish t cs
  | stop e ↦ failed e
]

abbrev pub scan_start : Scan
scan_start = record {
  index = 0;
  buf = [];
  prev = b'.';
  in_char_quote = false;
  in_string_quote = false;
}

-- The guards on the first byte.
unfoldable pub parse_email_address : Bytes → Parsed
parse_email_address [] = failed empty_address
parse_email_address (c ∷ cs) =
    if ltb 320 (length (c ∷ cs))
    then failed too_long
    else if c == b'@'
    then failed starts_with_at
    else if c == b'.'
    then failed starts_with_period
    else scan scan_start (c ∷ cs)
