-- ===== src/Tests/Quit.antt =====
-- A POP3 session on the file store at a concrete input.
use inbucket.Common.{◌≡◌, refl, true, false, some, [], ◌∷◌, codes, equal}
use inbucket.FileStore.{Store, call}
use inbucket.FileStore.Files.{directory, index_file, raw_file, find, exists}
use inbucket.FileStore.Index
use inbucket.FileStore.Index.{index_path}
use inbucket.FileStore.Index.Written.{calm, listing}
use inbucket.FileStore.Interface.{file_store}
use inbucket.FileStore.Mailbox
use inbucket.FileStore.Message.{raw_path}
use inbucket.FileStore.Quit.{kept, quit_command-listing}
use inbucket.Pop3.Messages.{quit_command}
use inbucket.Pop3.Session.{World, new_session, load_mailbox}
use inbucket.Pop3.Session.Flags.{Inv}
use inbucket.Tests.FileStore.{plain, old, box, two_objects}

-- A session that loaded a mailbox of two entries, and marked the first.
abbrev two_entries : Store
two_entries = record two_objects {
  disk =
      (box, directory)
      ∷ (index_path box, index_file (old ∷ record old { fid = codes "new" } ∷ []) true)
      ∷ (raw_path box (codes "old"), raw_file (codes "text"))
      ∷ [];
}

abbrev pop3_loaded : World (file_store plain 0)
pop3_loaded =
    load_mailbox (file_store plain 0) 1
      (record { session = new_session (file_store plain 0) [] []; store = calm two_entries })

abbrev pop3_marked : World (file_store plain 0)
pop3_marked = record pop3_loaded {
  session = record pop3_loaded.session { retain = false ∷ true ∷ []; msg_count = 1 };
}

pop3_marked-Inv : Inv (file_store plain 0) pop3_marked.session
unfolding find equal exists load_mailbox Mailbox.get_messages Mailbox.load_index Index.read_index
    Index.stat Index.decode_index Index.load_messages call
pop3_marked-Inv = record { flagged = refl; counted = refl }

quit_command-listing_example :
    (w' : World (file_store plain 0)) × (quit_command (file_store plain 0) pop3_marked ≡ some w')
    × (listing box w'.store.disk ≡ kept (false ∷ true ∷ []) (listing box two_entries.disk))
unfolding find equal
quit_command-listing_example =
    quit_command-listing plain 0 1 two_entries (new_session (file_store plain 0) [] []) pop3_marked
      refl refl refl refl pop3_marked-Inv
