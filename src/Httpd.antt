-- ===== src/Httpd.antt =====
-- httpd/context.go and `ServeHTTP` of httpd/server.go.
pub mod Templates
use inbucket.Common.{
  ℕ, Bool, false, ◌||◌, Option, none, some, List, [], ◌∷◌, Unicode, Bytes, codes, equal, to_lower,
}

-- The values of a header of a request, by its canonical name.
unfoldable pub header_match : Unicode → List Bytes → Bytes → Bool
header_match unicode [] value = false
header_match unicode (hv ∷ header) value =
    let rest = header_match unicode header value in
    equal (to_lower unicode value) (to_lower unicode hv) || rest

pub record Context (Vars Session : Type 0) : Type 0 where
  pub vars : Vars
  pub session : Session
  pub is_json : Bool

-- `NewContext`, from the session that gorilla finds or makes; none is an error.
unfoldable pub new_context :
    {Vars Session : Type 0}
    → Unicode
    → Option Session
    → List Bytes
    → Vars
    → Option (Context Vars Session)
unfolding header_match
new_context unicode none accept vars = none
new_context unicode (some session) accept vars = some (record {
  vars = vars;
  session = session;
  is_json = header_match unicode accept (codes "application/json");
})

-- What a handler does: it writes a status and a body, or returns an error.
pub data Handled (A : Type 0) : Type 0 where
  wrote : ℕ → A → Handled A
  failed : Handled A

-- The status of an answer, and its body unless that is the text of an error.
pub record Answer (A : Type 0) : Type 0 where
  pub status : ℕ
  pub body : Option A

abbrev pub internal_error : {A : Type 0} → Answer A
internal_error = record { status = 500; body = none }

-- `ServeHTTP`
unfoldable pub serve_http : {C A S : Type 0} → Option C → (C → S → Handled A × S) → S → Answer A × S
serve_http none handler st = (internal_error, st)
serve_http (some ctx) handler st =
    let (handled, st') = handler ctx st in
    elim handled [
      | failed ↦ (internal_error, st')
      | wrote status body ↦ (record { status = status; body = some body }, st')
    ]
