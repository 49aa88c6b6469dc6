-- ===== src/Recent/Latest.antt =====
-- What the list of recent mailboxes holds.
use inbucket.Common.{
  ℕ, zero, suc, ◌-◌, ◌≤◌, ◌≡◌, refl, sym, ◌∙◌, arith, List, [], ◌∷◌, ◌++◌, ltb, if◌then◌else◌,
  length, length-append, take, Bytes, equal, inl, inr, Bool-cases,
}
use mathlib.Core.List.{append_assoc, append-nil}
use inbucket.Recent.{insert_recent, remember_mailbox}

abbrev pub others : Bytes → List Bytes → List Bytes
others mailbox [] = []
others mailbox (b ∷ bs) = let rest = others mailbox bs in if equal mailbox b then rest else b ∷ rest

take-nil : (n : ℕ) → take {A = Bytes} n [] ≡ []
take-nil zero = refl
take-nil (suc n) = refl

insert_recent-take :
    (mailbox : Bytes) (new recent : List Bytes)
    → length new ≤ 8
    → insert_recent mailbox new recent ≡ new ++ take (8 - length new) (others mailbox recent)
unfolding insert_recent
insert_recent-take mailbox new [] h = sym (rw (take-nil (8 - length new)) (append-nil new))
insert_recent-take mailbox new (b ∷ bs) h = elim (Bool-cases (equal mailbox b)) [
  | inl same ↦ ground (arith, same, insert_recent-take mailbox new bs h)
  | inr other ↦ elim (Bool-cases (ltb (length new) 8)) [
    | inl room ↦
        let longer = length-append new (b ∷ []) in
        let left : 8 - length new ≡ suc (8 - length (new ++ b ∷ [])) = ground (arith, longer) in
        rw (other, room, left)
          (insert_recent-take mailbox (new ++ b ∷ []) bs (ground (arith, longer))
            ∙ append_assoc new (b ∷ []) _)
    | inr full ↦
        let none_left : 8 - length new ≡ 0 = ground arith in
        rw (other, full) (insert_recent-take mailbox new bs h ∙ rw none_left refl)
  ]
]

-- The recent mailboxes behind a visit are the mailbox visited and the first seven of the others
-- that were there, in their order.
pub remember_mailbox-latest :
    (mailbox : Bytes) (recent : List Bytes)
    → remember_mailbox mailbox recent ≡ mailbox ∷ take 7 (others mailbox recent)
unfolding remember_mailbox
remember_mailbox-latest mailbox recent =
    insert_recent-take mailbox (mailbox ∷ []) recent (omega arith)
