-- ===== src/Tests/Address.antt =====
-- The address functions at inputs of smtpd/utils_test.go.
use inbucket.Common.{
  true, false, [], ◌∷◌, ◌≡◌, refl, codes, Unicode, Bytes, to_lower, before, is_ascii,
}
use inbucket.Address.Mailbox.{
  parse_mailbox_name, named, refused, invalid_characters, is_mailbox_byte, invalid_bytes,
}
use inbucket.Common.{◌≤◌, ◌++◌, length, all, arith}
use inbucket.Address.Mailbox.Laws.{is_name_byte, parse_mailbox_name-name_bytes}
use inbucket.Address.Domain.Labels.{valid_domain, validate_domain_part-valid_domain}
use inbucket.Address.Email.Sound.{Unescaped, parse_email_address-parsed}
use inbucket.Address.Email.Plain.{parse_email_address_plain}
use inbucket.Address.Domain.{validate_domain_part}
use inbucket.Address.Email.{
  parse_email_address, parsed, failed, scan, round, is_plain, must_be_quoted,
}

abbrev pub tables : Unicode
tables = record { lower = λ s. s; upper = λ s. s }

mailbox_names :
    (parse_mailbox_name tables (codes "First.Last+x") ≡ named (codes "first.last"))
    × (parse_mailbox_name tables (codes "user@host") ≡ refused (invalid_characters (b'@' ∷ [])))
unfolding parse_mailbox_name to_lower invalid_bytes is_mailbox_byte before
mailbox_names = (refl, refl)

domains :
    (validate_domain_part (codes "my-domain.com.") ≡ true)
    × (validate_domain_part (codes "google..com") ≡ false)
    × (validate_domain_part (codes "-a.com") ≡ false)
unfolding validate_domain_part
domains = (refl, refl, refl)

addresses :
    (parse_email_address (codes "\"a\\@ b\"@example.com")
      ≡ parsed (codes "a@ b") (codes "example.com"))
    × (parse_email_address (codes "a b@x") ≡ failed must_be_quoted)
unfolding parse_email_address scan round is_plain validate_domain_part
addresses = (refl, refl)

-- The premises of the instances below.
first_last : parse_mailbox_name tables (codes "First.Last+x") ≡ named (codes "first.last")
first_last = mailbox_names.0

name_bytes_example : all is_name_byte (codes "first.last") ≡ true
name_bytes_example =
    parse_mailbox_name-name_bytes tables (codes "First.Last+x") (codes "first.last") first_last

valid_domain_example :
    validate_domain_part (codes "my-domain.com.") ≡ valid_domain (codes "my-domain.com.")
valid_domain_example = validate_domain_part-valid_domain (codes "my-domain.com.")

parsed_example :
    (quoted : Bytes) × (codes "\"a\\@ b\"@example.com" ≡ quoted ++ b'@' ∷ codes "example.com")
    × (length quoted ≤ 128)
    × Unescaped (codes "a@ b") quoted
    × (length (codes "a@ b") ≤ length quoted)
    × (all is_ascii (codes "a@ b") ≡ true)
    × (validate_domain_part (codes "example.com") ≡ true)
    × (length (codes "\"a\\@ b\"@example.com") ≤ 320)
parsed_example =
    parse_email_address-parsed (codes "\"a\\@ b\"@example.com") (codes "a@ b") (codes "example.com")
      addresses.0

plain_example :
    parse_email_address (codes "fred.x" ++ b'@' ∷ codes "example.com")
    ≡ parsed (codes "fred.x") (codes "example.com")
unfolding is_plain validate_domain_part
plain_example =
    parse_email_address_plain (codes "fred.x") (codes "example.com") refl (omega arith) refl
      (omega arith)
