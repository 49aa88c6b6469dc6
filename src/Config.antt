-- ===== src/Config.antt =====
-- config/config.go: `LoadConfig`. The parsed file of robfig/config and the addresses of net are
-- parameters; what is printed of the messages is not modelled.
pub mod Rows
pub mod Accepted
use inbucket.Common.{
  Bool, true, false, not, ◌&&◌, ◌||◌, Option, none, some, List, [], ◌∷◌, ◌++◌, if◌then◌else◌,
  is_nil, Unicode, Bytes, codes, equal, to_upper, ℤ,
}

-- What reading an option gives: a value, and whether there was no error.
pub record Read (A : Type 0) : Type 0 where
  pub value : A
  pub ok : Bool

pub record File : Type 0 where
  pub has_section : Bytes → Bool
  pub has_option : Bytes → Bytes → Bool
  pub string : Bytes → Bytes → Read Bytes
  pub flag : Bytes → Bytes → Read Bool
  pub number : Bytes → Bytes → Read ℤ

-- `net.ParseIP` and `To4`.
pub record Net : Type 1 where
  pub Ip : Type 0
  pub parse_ip : Bytes → Option Ip
  pub to4 : Ip → Option Ip

pub record SmtpConfig (Ip : Type 0) : Type 0 where
  pub ip4_address : Option Ip
  pub ip4_port : ℤ
  pub domain : Bytes
  pub domain_no_store : Bytes
  pub max_recipients : ℤ
  pub max_idle_seconds : ℤ
  pub max_message_bytes : ℤ
  pub store_messages : Bool

pub record Pop3Config (Ip : Type 0) : Type 0 where
  pub ip4_address : Option Ip
  pub ip4_port : ℤ
  pub domain : Bytes
  pub max_idle_seconds : ℤ

pub record WebConfig (Ip : Type 0) : Type 0 where
  pub ip4_address : Option Ip
  pub ip4_port : ℤ
  pub template_dir : Bytes
  pub template_cache : Bool
  pub public_dir : Bytes
  pub greeting_file : Bytes
  pub mailbox_prompt : Bytes
  pub cookie_auth_key : Bytes
  pub monitor_visible : Bool
  pub monitor_history : ℤ

pub record DataStoreConfig : Type 0 where
  pub path : Bytes
  pub retention_minutes : ℤ
  pub retention_sleep : ℤ
  pub mailbox_msg_cap : ℤ

-- The variables of the package.
pub record Settings (Ip : Type 0) : Type 0 where
  pub log_level : Bytes
  pub smtp : SmtpConfig Ip
  pub pop3 : Pop3Config Ip
  pub web : WebConfig Ip
  pub data_store : DataStoreConfig

-- The messages, by section and option.
pub data Message : Type 0 where
  no_section : Bytes → Message
  unreadable missing bad_ip not_ip4 : Bytes → Bytes → Message
  bad_level : Bytes → Message

-- A row of a table of options: its target is what it sets.
pub record Row (A S : Type 0) : Type 0 where
  pub section : Bytes
  pub name : Bytes
  pub target : A → S → S
  pub required : Bool

-- The messages so far and the variables.
pub record Loading (S : Type 0) : Type 0 where
  pub messages : List Message
  pub settings : S

module _ {S : Type 0} where
  abbrev pub add : Message → Loading S → Loading S
  add m ld = record ld { messages = ld.messages ++ m ∷ [] }

  abbrev pub set : {A : Type 0} → Row A S → A → Loading S → Loading S
  set row value ld = record ld { settings = row.target value ld.settings }

  abbrev pub add_missing : {A : Type 0} → Row A S → Loading S → Loading S
  add_missing row ld = if row.required then add (missing row.section row.name) ld else ld

  -- The loop body over `stringOptions`.
  unfoldable pub load_string : File → Row Bytes S → Loading S → Loading S
  load_string file row ld =
      let str = file.string row.section row.name in
      if file.has_option row.section row.name && not str.ok
      then add (unreadable row.section row.name) ld
      else set row str.value (if is_nil str.value then add_missing row ld else ld)

  -- The loop bodies over `boolOptions` and `intOptions`.
  unfoldable pub load_value :
      {A : Type 0} → File → (Bytes → Bytes → Read A) → Row A S → Loading S → Loading S
  load_value file read row ld =
      let value = read row.section row.name in
      if file.has_option row.section row.name
      then set row value.value (if value.ok then ld else add (unreadable row.section row.name) ld)
      else add_missing row ld

  -- The loop body over `ipOptions`.
  unfoldable pub load_ip : (net : Net) → File → Row (Option net.Ip) S → Loading S → Loading S
  load_ip net file row ld =
      let str = file.string row.section row.name in
      if file.has_option row.section row.name
      then if not str.ok
        then add (unreadable row.section row.name) ld
        else elim (net.parse_ip str.value) [
          | none ↦ add (bad_ip row.section row.name) ld
          | some ip ↦ elim (net.to4 ip) [
            | none ↦ set row none (add (not_ip4 row.section row.name) ld)
            | some ip4 ↦ set row (some ip4) ld
          ]
        ]
      else add_missing row ld

  -- A loop over a table.
  unfoldable pub load_rows :
      {A : Type 0} → (Row A S → Loading S → Loading S) → List (Row A S) → Loading S → Loading S
  load_rows body [] ld = ld
  load_rows body (row ∷ rows) ld = load_rows body rows (body row ld)

  abbrev pub check_section : File → Bytes → Loading S → Loading S
  check_section file s ld = if file.has_section s then ld else add (no_section s) ld

  unfoldable pub check_sections : File → List Bytes → Loading S → Loading S
  check_sections file [] ld = ld
  check_sections file (s ∷ ss) ld = check_sections file ss (check_section file s ld)

abbrev pub sections : List Bytes
sections = codes "logging" ∷ codes "smtp" ∷ codes "pop3" ∷ codes "web" ∷ codes "datastore" ∷ []

module _ {Ip : Type 0} where
  abbrev pub on_smtp : (SmtpConfig Ip → SmtpConfig Ip) → Settings Ip → Settings Ip
  on_smtp f s = record s { smtp = f s.smtp }

  abbrev pub on_pop3 : (Pop3Config Ip → Pop3Config Ip) → Settings Ip → Settings Ip
  on_pop3 f s = record s { pop3 = f s.pop3 }

  abbrev pub on_web : (WebConfig Ip → WebConfig Ip) → Settings Ip → Settings Ip
  on_web f s = record s { web = f s.web }

  abbrev pub on_data_store : (DataStoreConfig → DataStoreConfig) → Settings Ip → Settings Ip
  on_data_store f s = record s { data_store = f s.data_store }

  abbrev row :
      {A : Type 0} → Bytes → Bytes → (A → Settings Ip → Settings Ip) → Bool → Row A (Settings Ip)
  row section name target required = record {
    section = section;
    name = name;
    target = target;
    required = required;
  }

  abbrev pub string_options : List (Row Bytes (Settings Ip))
  string_options =
      row (codes "logging") (codes "level") (λ v s. record s { log_level = v }) true
      ∷ row (codes "smtp") (codes "domain") (λ v. on_smtp λ c. record c { domain = v }) true
      ∷ row (codes "smtp") (codes "domain.nostore")
          (λ v. on_smtp λ c. record c { domain_no_store = v }) false
      ∷ row (codes "pop3") (codes "domain") (λ v. on_pop3 λ c. record c { domain = v }) true
      ∷ row (codes "web") (codes "template.dir") (λ v. on_web λ c. record c { template_dir = v })
          true
      ∷ row (codes "web") (codes "public.dir") (λ v. on_web λ c. record c { public_dir = v }) true
      ∷ row (codes "web") (codes "greeting.file") (λ v. on_web λ c. record c { greeting_file = v })
          true
      ∷ row (codes "web") (codes "mailbox.prompt")
          (λ v. on_web λ c. record c { mailbox_prompt = v }) false
      ∷ row (codes "web") (codes "cookie.auth.key")
          (λ v. on_web λ c. record c { cookie_auth_key = v }) false
      ∷ row (codes "datastore") (codes "path") (λ v. on_data_store λ c. record c { path = v }) true
      ∷ []

  abbrev pub bool_options : List (Row Bool (Settings Ip))
  bool_options =
      row (codes "smtp") (codes "store.messages")
        (λ v. on_smtp λ c. record c { store_messages = v }) true
      ∷ row (codes "web") (codes "template.cache")
          (λ v. on_web λ c. record c { template_cache = v }) true
      ∷ row (codes "web") (codes "monitor.visible")
          (λ v. on_web λ c. record c { monitor_visible = v }) true
      ∷ []

  abbrev pub int_options : List (Row ℤ (Settings Ip))
  int_options =
      row (codes "smtp") (codes "ip4.port") (λ v. on_smtp λ c. record c { ip4_port = v }) true
      ∷ row (codes "smtp") (codes "max.recipients")
          (λ v. on_smtp λ c. record c { max_recipients = v }) true
      ∷ row (codes "smtp") (codes "max.idle.seconds")
          (λ v. on_smtp λ c. record c { max_idle_seconds = v }) true
      ∷ row (codes "smtp") (codes "max.message.bytes")
          (λ v. on_smtp λ c. record c { max_message_bytes = v }) true
      ∷ row (codes "pop3") (codes "ip4.port") (λ v. on_pop3 λ c. record c { ip4_port = v }) true
      ∷ row (codes "pop3") (codes "max.idle.seconds")
          (λ v. on_pop3 λ c. record c { max_idle_seconds = v }) true
      ∷ row (codes "web") (codes "ip4.port") (λ v. on_web λ c. record c { ip4_port = v }) true
      ∷ row (codes "web") (codes "monitor.history")
          (λ v. on_web λ c. record c { monitor_history = v }) true
      ∷ row (codes "datastore") (codes "retention.minutes")
          (λ v. on_data_store λ c. record c { retention_minutes = v }) true
      ∷ row (codes "datastore") (codes "retention.sleep.millis")
          (λ v. on_data_store λ c. record c { retention_sleep = v }) true
      ∷ row (codes "datastore") (codes "mailbox.message.cap")
          (λ v. on_data_store λ c. record c { mailbox_msg_cap = v }) true
      ∷ []

  abbrev pub ip_options : List (Row (Option Ip) (Settings Ip))
  ip_options =
      row (codes "smtp") (codes "ip4.address") (λ v. on_smtp λ c. record c { ip4_address = v }) true
      ∷ row (codes "pop3") (codes "ip4.address") (λ v. on_pop3 λ c. record c { ip4_address = v })
          true
      ∷ row (codes "web") (codes "ip4.address") (λ v. on_web λ c. record c { ip4_address = v }) true
      ∷ []

-- The levels of the log; the empty one was reported as missing.
abbrev pub is_level : Unicode → Bytes → Bool
is_level unicode level =
    let upper = to_upper unicode level in
    is_nil upper
    || equal upper (codes "TRACE")
    || equal upper (codes "INFO")
    || equal upper (codes "WARN")
    || equal upper (codes "ERROR")

unfoldable pub check_level : {Ip : Type 0} → Unicode → Loading (Settings Ip) → Loading (Settings Ip)
check_level unicode ld =
    if is_level unicode ld.settings.log_level then ld else add (bad_level ld.settings.log_level) ld

module _ (unicode : Unicode) (net : Net) where
  -- The options, behind the check of the sections.
  unfoldable pub load_options : File → Loading (Settings net.Ip) → Loading (Settings net.Ip)
  unfolding load_string load_value load_ip check_level
  load_options file ld = check_level unicode (
      load_rows (load_ip net file) ip_options (
        load_rows (load_value file file.number) int_options (
          load_rows (load_value file file.flag) bool_options
            (load_rows (load_string file) string_options ld))))

  -- `LoadConfig`: whether it succeeds, with the messages that it prints and the variables.
  unfoldable pub load_config : Option File → Settings net.Ip → Bool × Loading (Settings net.Ip)
  unfolding load_options
  load_config none s = (false, record { messages = []; settings = s })
  load_config (some file) s =
      let checked = check_sections file sections (record { messages = []; settings = s }) in
      let loaded = load_options file checked in
      if not (is_nil checked.messages) then (false, checked) else (is_nil loaded.messages, loaded)
