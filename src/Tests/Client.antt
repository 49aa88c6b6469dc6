-- ===== src/Tests/Client.antt =====
-- The client against the server at concrete inputs.
use inbucket.Common.{
  ltb, ℕ, ◌≡◌, refl, ◌==◌, some, List, [], ◌∷◌, length, map, drop, if◌then◌else◌, Bytes, codes,
  to_lower, lower_byte, before, contains, equal, arith,
}
use inbucket.Address.Mailbox.{
  parse_mailbox_name, invalid_bytes, is_mailbox_byte, check_name, hash_mailbox_name,
}
use inbucket.Client.{Urls, Json, sent_header, base, list_mailbox}
use inbucket.Client.Server.{server, list_mailbox-listing}
use inbucket.FileStore.{Store}
use inbucket.FileStore.Files.{find}
use inbucket.FileStore.Index.Written.{calm, listing}
use inbucket.FileStore.Mailbox.{mailbox_path}
use inbucket.Rest.Listing.{header_of}
use inbucket.Tests.FileStore.{plain}
use inbucket.Tests.Rest.{no_parts, stored, box}

-- The segments of a path, for names that need no escape.
abbrev split_path : Bytes → List Bytes
split_path [] = [] ∷ []
split_path (c ∷ cs) = add_byte c (split_path cs)
  where
    add_byte : ℕ → List Bytes → List Bytes
    add_byte c [] = []
    add_byte c (s ∷ ss) = if c == b'/' then [] ∷ s ∷ ss else (c ∷ s) ∷ ss

abbrev plain_urls : Urls
plain_urls = record {
  query_escape = λ s. s;
  segments = λ uri. some (split_path (drop (length base) uri));
}

-- A codec that replaces bytes that are not ASCII.
abbrev replacing : Json plain.Header
replacing = record { text = map (λ c. if ltb 127 c then b'?' else c); header = λ h. h }

list_mailbox-listing_example :
    (t : Store) × (list_mailbox plain_urls replacing
        (server plain 0 no_parts plain_urls replacing (codes "here"))
        (codes "box")
        (calm stored)
      ≡ (
        some
            (map (sent_header replacing) (map (header_of (codes "box")) (listing box stored.disk))),
        t,
      ))
    × (t.disk ≡ stored.disk)
unfolding find equal parse_mailbox_name invalid_bytes is_mailbox_byte check_name to_lower lower_byte
    before contains mailbox_path hash_mailbox_name
list_mailbox-listing_example =
    list_mailbox-listing plain 0 no_parts plain_urls replacing (codes "here") (codes "box")
      (codes "box") stored refl refl refl (grind arith) refl
