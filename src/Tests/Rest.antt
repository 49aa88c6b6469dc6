-- ===== src/Tests/Rest.antt =====
-- The REST handlers on the file store at concrete inputs.
use inbucket.Common.{
  ◌≡◌, refl, true, not, [], ◌∷◌, Bytes, codes, to_lower, lower_byte, before, contains, equal, arith,
}
use inbucket.Address.Mailbox.{
  parse_mailbox_name, invalid_bytes, is_mailbox_byte, check_name, hash_mailbox_name,
}
use inbucket.FileStore.{Store}
use inbucket.FileStore.Files.{FilePath, directory, index_file, raw_file, find}
use inbucket.FileStore.Index.{index_path}
use inbucket.FileStore.Index.Written.{calm, listing}
use inbucket.FileStore.Mailbox.{mailbox_path}
use inbucket.FileStore.Message.{raw_path}
use inbucket.Rest.{Request, Mime, mailbox_delete}
use inbucket.Rest.Deleting.{has_id, without_id, is_not_found, mailbox_delete-listing}
use inbucket.Rest.Listing.{files, path_of}
use inbucket.Tests.FileStore.{plain, empty_store, old}

abbrev pub no_parts : Mime Bytes
no_parts = record { text = λ b. b; html = λ b. []; attachments = λ b. []; md5_hex = λ b. b }

abbrev pub request : Request
request = record { name = codes "Box+tag"; id = codes "old"; host = codes "here" }

abbrev pub box : FilePath
box = path_of plain 0 no_parts (codes "box")

abbrev pub stored : Store
stored = record empty_store {
  disk =
      (box, directory)
      ∷ (index_path box, index_file (old ∷ record old { fid = codes "new" } ∷ []) true)
      ∷ (raw_path box (codes "old"), raw_file (codes "text"))
      ∷ [];
}

mailbox_delete-listing_example :
    let r = mailbox_delete plain.unicode (files plain 0 no_parts) no_parts request (calm stored) in
    (listing box r.1.disk ≡ without_id (codes "old") (listing box stored.disk))
    × (is_not_found r.0 ≡ not (has_id (codes "old") (listing box stored.disk)))
unfolding find equal parse_mailbox_name invalid_bytes is_mailbox_byte check_name to_lower lower_byte
    before contains mailbox_path hash_mailbox_name
mailbox_delete-listing_example =
    mailbox_delete-listing plain 0 no_parts request (codes "box") stored refl (grind arith) refl
