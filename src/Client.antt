-- ===== src/Client.antt =====
-- rest/client: the calls of the REST interface, over a server that answers each request, or an error
-- on the way to it.
pub mod Server
use inbucket.Common.{
  ℕ, ◌==◌, Bool, true, false, Option, none, some, List, [], ◌∷◌, ◌++◌, map, if◌then◌else◌, Bytes,
  codes,
}
use inbucket.Httpd.{Answer}
use inbucket.Rest.{Response, JsonMessageHeader, JsonAttachment, JsonMessage, listed, shown, source}
use inbucket.Rest.Routes.{Method, get, delete}

-- The URLs of net/url: `QueryEscape`, and the segments that a server finds in a relative URL behind
-- `/api/v1/mailbox`, where it can be parsed.
pub record Urls : Type 0 where
  pub query_escape : Bytes → Bytes
  pub segments : Bytes → Option (List Bytes)

abbrev pub base : Bytes
base = codes "/api/v1/mailbox/"

-- What encoding/json makes of a text and of the header of a mail that it encodes and decodes: bytes
-- that are not UTF-8 are replaced.
pub record Json (H : Type 0) : Type 0 where
  pub text : Bytes → Bytes
  pub header : H → H

module _ {H : Type 0} (json : Json H) where
  abbrev pub sent_header : JsonMessageHeader → JsonMessageHeader
  sent_header h = record {
    mailbox = json.text h.mailbox;
    id = json.text h.id;
    from = json.text h.from;
    to = map json.text h.to;
    subject = json.text h.subject;
    date = h.date;
    size = h.size;
  }

  abbrev sent_attachment : JsonAttachment → JsonAttachment
  sent_attachment a = record {
    file_name = json.text a.file_name;
    content_type = json.text a.content_type;
    download_link = json.text a.download_link;
    view_link = json.text a.view_link;
    md5 = json.text a.md5;
  }

  -- The JSON of an answer, decoded into a value of the type that is asked for.
  abbrev pub as_headers : Response H → Option (List JsonMessageHeader)
  as_headers (listed hs) = some (map sent_header hs)
  as_headers _ = none

  abbrev pub as_message : Response H → Option (JsonMessage H)
  as_message (shown m) = some (record {
    summary = sent_header m.summary;
    header = json.header m.header;
    text = json.text m.text;
    html = json.text m.html;
    attachments = map sent_attachment m.attachments;
  })
  as_message _ = none

abbrev pub as_text : {H : Type 0} → Response H → Option Bytes
as_text (source bytes) = some bytes
as_text _ = none

module _ {H S : Type 0} (urls : Urls) (json : Json H)
    (server : Method → List Bytes → S → Answer (Response H) × S) where
  -- `do`; none is an error.
  unfoldable pub send_request : Method → Bytes → S → Option (Answer (Response H)) × S
  send_request method uri st = elim (urls.segments uri) [
    | none ↦ (none, st)
    | some path ↦ let (answer, st') = server method path st in (some answer, st')
  ]

  abbrev decode : {A : Type 0} → (Response H → Option A) → Option (Answer (Response H)) → Option A
  decode as_value none = none
  decode as_value (some answer) =
      if answer.status == 200 then elim answer.body [ none ↦ none | some r ↦ as_value r ] else none

  -- `doJSON`, and the check of the status by hand.
  unfoldable pub do_json :
      {A : Type 0} → (Response H → Option A) → Method → Bytes → S → Option A × S
  unfolding send_request
  do_json as_value method uri st =
      let (answer, st') = send_request method uri st in (decode as_value answer, st')

  unfoldable pub list_mailbox : Bytes → S → Option (List JsonMessageHeader) × S
  unfolding do_json
  list_mailbox name = do_json (as_headers json) get (base ++ urls.query_escape name)

  unfoldable pub get_message : Bytes → Bytes → S → Option (JsonMessage H) × S
  unfolding do_json
  get_message name id =
      do_json (as_message json) get (base ++ (urls.query_escape name ++ b'/' ∷ id))

  unfoldable pub get_message_source : Bytes → Bytes → S → Option Bytes × S
  unfolding do_json
  get_message_source name id =
      do_json as_text get (base ++ (urls.query_escape name ++ (b'/' ∷ (id ++ codes "/source"))))

  -- Whether an answer came, with the status of success.
  abbrev succeeds : Option (Answer (Response H)) → Bool
  succeeds none = false
  succeeds (some answer) = answer.status == 200

  unfoldable pub delete_message : Bytes → Bytes → S → Bool × S
  unfolding send_request
  delete_message name id st =
      let (answer, st') = send_request delete (base ++ (urls.query_escape name ++ b'/' ∷ id)) st in
      (succeeds answer, st')

  unfoldable pub purge_mailbox : Bytes → S → Bool × S
  unfolding send_request
  purge_mailbox name st =
      let (answer, st') = send_request delete (base ++ urls.query_escape name) st in
      (succeeds answer, st')
