-- ===== src/Pop3/Session/Flags.antt =====
-- The flags of a session: one for each message, and the count of those retained.
use inbucket.Common.{
  ℕ, zero, suc, ◌+◌, ◌≡◌, refl, arith, Bool, true, false, some, List, [], ◌∷◌, if◌then◌else◌,
  length, length-replicate, replicate, get_elem?, set,
}
use inbucket.DataStore.{DataStore}
use inbucket.Pop3.Reply.{Reply}
use inbucket.Pop3.Session.{
  Session, State, enter_state, World, send, send_all, retain_all, load_mailbox, process_deletes,
}

abbrev pub trues : List Bool → ℕ
trues [] = 0
trues (b ∷ bs) = (if b then 1 else 0) + trues bs

pub trues-set :
    (flags : List Bool) (i : ℕ)
    → get_elem? flags i ≡ some true
    → trues (set flags i false) + 1 ≡ trues flags
trues-set [] i h = cc
trues-set (b ∷ bs) zero h = ground arith
trues-set (b ∷ bs) (suc i) h = omega (arith, trues-set bs i h)

trues-replicate : (n : ℕ) → trues (replicate n true) ≡ n
trues-replicate zero = refl
trues-replicate (suc n) = omega (arith, trues-replicate n)

module _ (ds : DataStore) where
  -- A flag for each message, and the right count.
  pub record Inv (s : Session ds) : Type 0 where
    pub flagged : length s.retain ≡ length s.messages
    pub counted : s.msg_count ≡ trues s.retain

  pub send-Inv : (r : Reply) (s : Session ds) → Inv s → Inv (send ds r s)
  unfolding send
  send-Inv r s h = ground arith

  pub enter_state-Inv : (state : State) (s : Session ds) → Inv s → Inv (enter_state ds state s)
  enter_state-Inv state s h = record { flagged = h.flagged; counted = h.counted }

  pub send_all-Inv : (rs : List Reply) (s : Session ds) → Inv s → Inv (send_all ds rs s)
  unfolding send_all
  send_all-Inv [] s h = h
  send_all-Inv (r ∷ rs) s h = send_all-Inv rs (send ds r s) (send-Inv r s h)

  pub retain_all-Inv : (s : Session ds) → Inv (retain_all ds s)
  unfolding retain_all
  retain_all-Inv s = record {
    flagged = length-replicate (length s.messages) true;
    counted = omega (arith, trues-replicate (length s.messages));
  }

  pub load_mailbox-Inv : (mb : ds.Mailbox) (w : World ds) → Inv (load_mailbox ds mb w).session
  unfolding load_mailbox
  load_mailbox-Inv mb w = retain_all-Inv (record w.session { messages = _ })

  pub process_deletes-some :
      (ms : List ds.Message) (flags : List Bool) (st : ds.Store)
      → length flags ≡ length ms
      → (st' : ds.Store) × (process_deletes ds ms flags st ≡ some st')
  unfolding process_deletes
  process_deletes-some [] flags st h = (st, refl)
  process_deletes-some (m ∷ ms) [] st h = absurd (omega arith)
  process_deletes-some (m ∷ ms) (true ∷ flags) st h = process_deletes-some ms flags st (omega arith)
  process_deletes-some (m ∷ ms) (false ∷ flags) st h =
      process_deletes-some ms flags (ds.delete m st).1 (omega arith)
