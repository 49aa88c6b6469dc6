-- ===== src/Address/Mailbox.antt =====
-- `ParseMailboxName`, `HashMailboxName` and `JoinStringList` of smtpd/utils.go.
pub mod Laws
use inbucket.Common.{
  ℕ, ◌||◌, not, Bool, true, List, [], ◌∷◌, if◌then◌else◌, is_nil, within, Bytes, codes, contains,
  Unicode, to_lower, before, join,
}

pub data MailboxError : Type 0 where
  empty_name : MailboxError
  invalid_characters : Bytes → MailboxError

pub data MailboxResult : Type 0 where
  named : Bytes → MailboxResult
  refused : MailboxError → MailboxResult

abbrev pub mailbox_specials : Bytes
mailbox_specials = codes "!#$%&'*+-=/?^_`.{|}~"

-- The cases of the `switch` that accept a byte.
unfoldable pub is_mailbox_byte : ℕ → Bool
unfolding contains
is_mailbox_byte c = within b'a' b'z' c || within b'0' b'9' c || contains mailbox_specials c

-- The loop that collects the other bytes.
unfoldable pub invalid_bytes : Bytes → Bytes
invalid_bytes [] = []
invalid_bytes (c ∷ cs) = let rest = invalid_bytes cs in if is_mailbox_byte c then rest else c ∷ rest

unfoldable pub check_name : Bytes → Bytes → MailboxResult
check_name result [] = named (before b'+' result)
check_name result (c ∷ cs) = refused (invalid_characters (c ∷ cs))

unfoldable pub parse_mailbox_name : Unicode → Bytes → MailboxResult
unfolding check_name
parse_mailbox_name u local_part =
    let result = to_lower u local_part in
    if is_nil local_part then refused empty_name else check_name result (invalid_bytes result)

-- The library's digest (crypto/sha1), printed in hexadecimal.
unfoldable pub hash_mailbox_name : (Bytes → Bytes) → Bytes → Bytes
hash_mailbox_name sha1_hex mailbox = sha1_hex mailbox

unfoldable pub join_string_list : List Bytes → Bytes
join_string_list [] = []
join_string_list (s ∷ rest) = join b',' (s ∷ rest)
