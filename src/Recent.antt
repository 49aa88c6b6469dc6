-- ===== src/Recent.antt =====
-- webui/recent.go: the list of recent mailboxes that a web session keeps. The value of the session
-- under `recentMailboxes` is the list; one of another type, or none, reads as the empty list.
pub mod Latest
use inbucket.Common.{
  ℕ, Bool, true, false, not, ◌&&◌, List, [], ◌∷◌, ◌++◌, ltb, if◌then◌else◌, length, Bytes, equal,
}

abbrev pub max_remembered : ℕ
max_remembered = 8

-- The loop of `RememberMailbox` over the recent mailboxes.
unfoldable pub insert_recent : Bytes → List Bytes → List Bytes → List Bytes
insert_recent mailbox new_recent [] = new_recent
insert_recent mailbox new_recent (rec_box ∷ recent) =
    insert_recent mailbox
      (if ltb (length new_recent) max_remembered && not (equal mailbox rec_box)
        then new_recent ++ rec_box ∷ []
        else new_recent)
      recent

-- `RememberMailbox`.
unfoldable pub remember_mailbox : Bytes → List Bytes → List Bytes
remember_mailbox mailbox recent = insert_recent mailbox (mailbox ∷ []) recent
