-- ===== src/Rest.antt =====
-- rest/apiv1_controller.go: the handlers of mailboxes and messages, over any data store. The router
-- passes a name and an identifier that are not empty; what is written of a response is taken to
-- reach the client.
pub mod Listing
pub mod Deleting
pub mod Routes
use inbucket.Common.{
  ℕ, suc, ◌+◌, Bool, true, false, Option, none, some, List, [], ◌∷◌, ◌++◌, map, if◌then◌else◌,
  Unicode, Bytes, codes, show_nat,
}
use inbucket.Address.Mailbox.{MailboxResult, named, refused, parse_mailbox_name}
use inbucket.DataStore.{DataStore, Lookup, found, not_exist, lookup_failed}

-- `JSONMessageHeaderV1` of rest/model/apiv1_model.go.
pub record JsonMessageHeader : Type 0 where
  pub mailbox : Bytes
  pub id : Bytes
  pub from : Bytes
  pub to : List Bytes
  pub subject : Bytes
  pub date : ℕ
  pub size : ℕ

-- `JSONMessageAttachmentV1`
pub record JsonAttachment : Type 0 where
  pub file_name : Bytes
  pub content_type : Bytes
  pub download_link : Bytes
  pub view_link : Bytes
  pub md5 : Bytes

-- An attachment of enmime, with the bytes that reading it gives, whether or not it then fails.
pub record Attachment : Type 0 where
  pub file_name : Bytes
  pub content_type : Bytes
  pub content : Bytes

-- What the handlers see of an envelope, and MD5 in hexadecimal.
pub record Mime (Body : Type 0) : Type 0 where
  pub text : Body → Bytes
  pub html : Body → Bytes
  pub attachments : Body → List Attachment
  pub md5_hex : Bytes → Bytes

-- `ctx.Vars` and `req.Host`.
pub record Request : Type 0 where
  pub name : Bytes
  pub id : Bytes
  pub host : Bytes

-- `JSONMessageV1`, with the header as net/mail read it.
pub record JsonMessage (Header : Type 0) : Type 0 where
  pub summary : JsonMessageHeader
  pub header : Header
  pub text : Bytes
  pub html : Bytes
  pub attachments : List JsonAttachment

-- What a handler renders, or the error that it returns.
pub data Response (Header : Type 0) : Type 0 where
  listed : List JsonMessageHeader → Response Header
  shown : JsonMessage Header → Response Header
  source : Bytes → Response Header
  ok not_found error : Response Header

-- The link to an attachment by its position.
abbrev link : Bytes → Bytes → Request → Bytes → ℕ → Bytes → Bytes
link host kind req name i file =
    codes "http://"
    ++ (host
        ++ (codes "/mailbox/"
            ++ (kind
                ++ (b'/' ∷ (name ++ (b'/' ∷ (req.id ++ (b'/' ∷ (show_nat i ++ b'/' ∷ file)))))))))

unfoldable pub json_attachments :
    (Bytes → Bytes) → Request → Bytes → ℕ → List Attachment → List JsonAttachment
json_attachments md5_hex req name i [] = []
json_attachments md5_hex req name i (a ∷ attachments) =
    record {
      file_name = a.file_name;
      content_type = a.content_type;
      download_link = link req.host (codes "dattach") req name i a.file_name;
      view_link = link req.host (codes "vattach") req name i a.file_name;
      md5 = md5_hex a.content;
    }
    ∷ json_attachments md5_hex req name (suc i) attachments

module _ (unicode : Unicode) (ds : DataStore) (mime : Mime ds.Body) where
  abbrev pub Reply : Type 0
  Reply = Response ds.Header × ds.Store

  unfoldable pub json_header : Bytes → ds.Message → ds.Store → JsonMessageHeader
  json_header name m st = record {
    mailbox = name;
    id = ds.id m st;
    from = ds.from m st;
    to = ds.to m st;
    subject = ds.subject m st;
    date = ds.date m st;
    size = ds.size m st;
  }

  -- The beginning of each handler: the name is parsed, and the mailbox opened.
  unfoldable pub with_mailbox : Request → (Bytes → ds.Mailbox → ds.Store → Reply) → ds.Store → Reply
  with_mailbox req handle st = elim (parse_mailbox_name unicode req.name) [
    | refused e ↦ (error, st)
    | named name ↦
        let (mailbox, st') = ds.mailbox_for name st in
        elim mailbox [ none ↦ (error, st') | some mb ↦ handle name mb st' ]
  ]

  -- The message of the request, for the handlers of one message.
  unfoldable pub with_message : Request → (Bytes → ds.Message → ds.Store → Reply) → ds.Store → Reply
  unfolding with_mailbox
  with_message req handle = with_mailbox req λ name mb st.
      let (result, st') = ds.get_message mb req.id st in
      elim result [
        | found m ↦ handle name m st'
        | not_exist ↦ (not_found, st')
        | lookup_failed ↦ (error, st')
      ]

  -- `MailboxListV1`
  unfoldable pub mailbox_list : Request → ds.Store → Reply
  mailbox_list req = with_mailbox req λ name mb st.
      let (messages, st') = ds.get_messages mb st in
      elim messages [
        | none ↦ (error, st')
        | some ms ↦ (listed (map (λ m. json_header name m st') ms), st')
      ]

  -- `MailboxShowV1`
  unfoldable pub mailbox_show : Request → ds.Store → Reply
  mailbox_show req = with_message req λ name m st.
      let (header, st') = ds.read_header m st in
      let (body, st'') = ds.read_body m st' in
      elim header [
        | none ↦ (error, st')
        | some h ↦ elim body [
          | none ↦ (error, st'')
          | some b ↦ (
            shown (record {
              summary = json_header name m st'';
              header = h;
              text = mime.text b;
              html = mime.html b;
              attachments = json_attachments mime.md5_hex req name 0 (mime.attachments b);
            }),
            st'',
          )
        ]
      ]

  -- `MailboxPurgeV1`
  unfoldable pub mailbox_purge : Request → ds.Store → Reply
  mailbox_purge req =
      with_mailbox req λ name mb st.
        let (purged, st') = ds.purge mb st in if purged then (ok, st') else (error, st')

  -- `MailboxSourceV1`
  unfoldable pub mailbox_source : Request → ds.Store → Reply
  mailbox_source req =
      with_message req
        λ name m st. elim (ds.raw m st) [ none ↦ (error, st) | some bytes ↦ (source bytes, st) ]

  -- `MailboxDeleteV1`
  unfoldable pub mailbox_delete : Request → ds.Store → Reply
  mailbox_delete req = with_message req λ name m st.
      let (deleted, st') = ds.delete m st in if deleted then (ok, st') else (error, st')
