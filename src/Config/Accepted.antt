-- ===== src/Config/Accepted.antt =====
-- Which files `LoadConfig` accepts, and what it sets.
use inbucket.Common.{
  ◌≡◌, refl, ap, ◌∙◌, arith, Bool, true, false, not, ◌&&◌, some, List, [], ◌∷◌, is_nil,
  if◌then◌else◌, all, Unicode, Bytes, codes, ℤ, Bool-cases, inl, inr,
}
use inbucket.Config.{
  File, Net, Settings, Loading, load_string, load_value, load_ip, load_rows, check_section,
  check_sections, sections, string_options, bool_options, int_options, ip_options, add, bad_level,
  is_level, check_level, load_options, load_config,
}
use inbucket.Config.Rows.{
  assign, load_rows-is_nil, load_rows-assign, string_ok, value_ok, value_of, ip4, ip_ok, ip_of,
  load_string-nils, load_string-sets, load_value-nils, load_value-sets, load_ip-nils, load_ip-sets,
}

check_sections-is_nil :
    {S : Type 0} (file : File) (ss : List Bytes) (ld : Loading S)
    → is_nil (check_sections file ss ld).messages ≡ (is_nil ld.messages && all file.has_section ss)
unfolding check_sections
check_sections-is_nil file [] ld = ground arith
check_sections-is_nil file (s ∷ ss) ld =
    check_sections-is_nil file ss (check_section file s ld) ∙ ground arith

-- The tests of four loops in a row.
all_four :
    (n n1 n2 n3 n4 a b c d : Bool)
    → n1 ≡ (n && a)
    → n2 ≡ (n1 && b)
    → n3 ≡ (n2 && c)
    → n4 ≡ (n3 && d)
    → n4 ≡ (n && (a && (b && (c && d))))
all_four n n1 n2 n3 n4 a b c d e f g h = ground arith

of_and : (a b c : Bool) → (a && (b && c)) ≡ true → (a ≡ true) × (b ≡ true)
of_and a b c e = (ground arith, ground arith)

not_both : (a : Bool) → a ≡ true → a ≡ false → ⊥
not_both a e f = ground arith

last_of : (a b c : Bool) → (a && (b && c)) ≡ true → c ≡ true
last_of a b c e = ground arith

filled : (a n b : Bool) → ((not a && not n) && b) ≡ true → n ≡ false
filled a n b e = ground arith

with_level :
    (n a o l l' m : Bool)
    → n ≡ true
    → a ≡ (n && o)
    → m ≡ (a && l)
    → (o ≡ true → l ≡ l')
    → m ≡ (o && l')
with_level n a o l l' m e f g h = ground arith

each_of :
    (a b c d : Bool)
    → (a && (b && (c && d))) ≡ true
    → (a ≡ true) × (b ≡ true) × (c ≡ true) × (d ≡ true)
each_of a b c d e = ground arith

check_level-is_nil :
    {Ip : Type 0} (unicode : Unicode) (ld : Loading (Settings Ip))
    → is_nil (check_level unicode ld).messages
      ≡ (is_nil ld.messages && is_level unicode ld.settings.log_level)
unfolding check_level
check_level-is_nil unicode ld = go (is_level unicode ld.settings.log_level)
  where
    go :
        (b : Bool)
        → is_nil (if b then ld else add (bad_level ld.settings.log_level) ld).messages
          ≡ (is_nil ld.messages && b)
    go b = ground arith

check_level-settings :
    {Ip : Type 0} (unicode : Unicode) (ld : Loading (Settings Ip))
    → (check_level unicode ld).settings ≡ ld.settings
unfolding check_level
check_level-settings unicode ld = go (is_level unicode ld.settings.log_level)
  where
    go :
        (b : Bool)
        → (if b then ld else add (bad_level ld.settings.log_level) ld).settings ≡ ld.settings
    go b = ground arith

module _ (unicode : Unicode) (net : Net) (file : File) where
  abbrev string : Bytes → Bytes → Bytes
  string section name = (file.string section name).value

  abbrev number : Bytes → Bytes → ℤ
  number section name = (file.number section name).value

  abbrev flag : Bytes → Bytes → Bool
  flag section name = (file.flag section name).value

  -- The values of a file, option by option.
  abbrev pub settings_of : Settings net.Ip
  settings_of = record {
    log_level = string (codes "logging") (codes "level");
    smtp = record {
      ip4_address = ip4 net (string (codes "smtp") (codes "ip4.address"));
      ip4_port = number (codes "smtp") (codes "ip4.port");
      domain = string (codes "smtp") (codes "domain");
      domain_no_store = string (codes "smtp") (codes "domain.nostore");
      max_recipients = number (codes "smtp") (codes "max.recipients");
      max_idle_seconds = number (codes "smtp") (codes "max.idle.seconds");
      max_message_bytes = number (codes "smtp") (codes "max.message.bytes");
      store_messages = flag (codes "smtp") (codes "store.messages");
    };
    pop3 = record {
      ip4_address = ip4 net (string (codes "pop3") (codes "ip4.address"));
      ip4_port = number (codes "pop3") (codes "ip4.port");
      domain = string (codes "pop3") (codes "domain");
      max_idle_seconds = number (codes "pop3") (codes "max.idle.seconds");
    };
    web = record {
      ip4_address = ip4 net (string (codes "web") (codes "ip4.address"));
      ip4_port = number (codes "web") (codes "ip4.port");
      template_dir = string (codes "web") (codes "template.dir");
      template_cache = flag (codes "web") (codes "template.cache");
      public_dir = string (codes "web") (codes "public.dir");
      greeting_file = string (codes "web") (codes "greeting.file");
      mailbox_prompt = string (codes "web") (codes "mailbox.prompt");
      cookie_auth_key = string (codes "web") (codes "cookie.auth.key");
      monitor_visible = flag (codes "web") (codes "monitor.visible");
      monitor_history = number (codes "web") (codes "monitor.history");
    };
    data_store = record {
      path = string (codes "datastore") (codes "path");
      retention_minutes = number (codes "datastore") (codes "retention.minutes");
      retention_sleep = number (codes "datastore") (codes "retention.sleep.millis");
      mailbox_msg_cap = number (codes "datastore") (codes "mailbox.message.cap");
    };
  }

  -- Each option of the tables is well.
  abbrev options_ok : Bool
  options_ok =
      all (string_ok {S = Settings net.Ip} file) string_options
      && (all (value_ok file file.flag) (bool_options {Ip = net.Ip})
          && (all (value_ok file file.number) (int_options {Ip = net.Ip})
              && all (ip_ok file net) ip_options))

  -- The file has the sections, its options are well, and it names a level of the log.
  abbrev pub is_valid : Bool
  is_valid =
      all file.has_section sections
      && (options_ok && is_level unicode (string (codes "logging") (codes "level")))

  valid-parts : is_valid ≡ true → (all file.has_section sections ≡ true) × (options_ok ≡ true)
  valid-parts v =
      of_and (all file.has_section sections) options_ok
        (is_level unicode (string (codes "logging") (codes "level"))) v

  -- A file that is accepted names a level.
  pub valid-level :
      is_valid ≡ true
      → (is_level unicode (string (codes "logging") (codes "level")) ≡ true)
        × (is_nil (string (codes "logging") (codes "level")) ≡ false)
  valid-level v = (
    last_of (all file.has_section sections) options_ok
        (is_level unicode (string (codes "logging") (codes "level"))) v,
    filled _ _ _
        (each_of (all (string_ok {S = Settings net.Ip} file) string_options)
          (all (value_ok file file.flag) (bool_options {Ip = net.Ip}))
          (all (value_ok file file.number) (int_options {Ip = net.Ip}))
          (all (ip_ok file net) (ip_options {Ip = net.Ip})) (valid-parts v).1).0,
  )

  -- The loops of `LoadConfig`, in order.
  module _ (ld : Loading (Settings net.Ip)) where
    unfoldable strings : Loading (Settings net.Ip)
    strings = load_rows (load_string file) string_options ld

    unfoldable flags : Loading (Settings net.Ip)
    flags = load_rows (load_value file file.flag) bool_options strings

    unfoldable numbers : Loading (Settings net.Ip)
    numbers = load_rows (load_value file file.number) int_options flags

    unfoldable addresses : Loading (Settings net.Ip)
    addresses = load_rows (load_ip net file) ip_options numbers

    addresses-is_nil : is_nil addresses.messages ≡ (is_nil ld.messages && options_ok)
    unfolding addresses numbers flags strings
    addresses-is_nil =
        all_four _ _ _ _ _ _ _ _ _
          (load_rows-is_nil (load_string file) (string_ok file) (λ r. true)
            (value_of file file.string) (load_string-nils file) (load_string-sets file)
            string_options ld)
          (load_rows-is_nil (load_value file file.flag) (value_ok file file.flag) (λ r. r.required)
            (value_of file file.flag) (load_value-nils file file.flag)
            (load_value-sets file file.flag) bool_options strings)
          (load_rows-is_nil (load_value file file.number) (value_ok file file.number)
            (λ r. r.required) (value_of file file.number) (load_value-nils file file.number)
            (load_value-sets file file.number) int_options flags)
          (load_rows-is_nil (load_ip net file) (ip_ok file net) (λ r. r.required) (ip_of file net)
            (load_ip-nils file net) (load_ip-sets file net) ip_options numbers)

    addresses-settings : options_ok ≡ true → addresses.settings ≡ settings_of
    unfolding addresses numbers flags strings
    addresses-settings e =
        let (a, b, c, d) = each_of _ _ _ _ e in
        load_rows-assign (load_ip net file) (ip_ok file net) (λ r. r.required) (ip_of file net)
          (load_ip-nils file net) (load_ip-sets file net) ip_options numbers d refl
        ∙ ap (assign (ip_of file net) ip_options) (
            load_rows-assign (load_value file file.number) (value_ok file file.number)
              (λ r. r.required) (value_of file file.number) (load_value-nils file file.number)
              (load_value-sets file file.number) int_options flags c refl)
        ∙ ap
            (λ s.
              assign (ip_of file net) ip_options (assign (value_of file file.number) int_options s))
            (load_rows-assign (load_value file file.flag) (value_ok file file.flag)
              (λ r. r.required) (value_of file file.flag) (load_value-nils file file.flag)
              (load_value-sets file file.flag) bool_options strings b refl)
        ∙ ap
            (λ s. assign (ip_of file net) ip_options (
              assign (value_of file file.number) int_options
                (assign (value_of file file.flag) bool_options s)))
            (load_rows-assign (load_string file) (string_ok file) (λ r. true)
              (value_of file file.string) (load_string-nils file) (load_string-sets file)
              string_options ld a refl)

    load_options-addresses : load_options unicode net file ld ≡ check_level unicode addresses
    unfolding load_options addresses numbers flags strings
    load_options-addresses = refl

    loaded-is_nil :
        is_nil ld.messages ≡ true
        → is_nil (load_options unicode net file ld).messages
          ≡ (options_ok && is_level unicode (string (codes "logging") (codes "level")))
    loaded-is_nil e =
        with_level _ _ _ _ _ _ e addresses-is_nil
          (ap (λ l. is_nil l.messages) load_options-addresses
            ∙ check_level-is_nil unicode addresses)
          (λ o. ap (λ s. is_level unicode s.log_level) (addresses-settings o))

    loaded-settings : options_ok ≡ true → (load_options unicode net file ld).settings ≡ settings_of
    loaded-settings o =
        ap (λ l. l.settings) load_options-addresses
        ∙ check_level-settings unicode addresses
        ∙ addresses-settings o

  -- `LoadConfig` accepts a parsed file exactly if it has the sections, every option of the tables
  -- is there or not required, can be read and, for an address, is one of IPv4, the required texts
  -- are not empty, and the level is one of the log's. Then each variable has the value that the
  -- file gives its option, whatever it was before.
  pub load_config-is_valid :
      (s : Settings net.Ip)
      → ((load_config unicode net (some file) s).0 ≡ is_valid)
        × (is_valid ≡ true → (load_config unicode net (some file) s).1.settings ≡ settings_of)
  unfolding load_config
  load_config-is_valid s =
      let start : Loading (Settings net.Ip) = record { messages = []; settings = s } in
      let checked = check_sections-is_nil file sections start in
      elim (Bool-cases (all file.has_section sections)) [
        | inl e ↦
            let none : is_nil (check_sections file sections start).messages ≡ true = checked ∙ e in
            (
              rw (none, e) (loaded-is_nil (check_sections file sections start) none),
              λ v. rw none (loaded-settings (check_sections file sections start) (valid-parts v).1),
            )
        | inr e ↦
            let some_missing : is_nil (check_sections file sections start).messages ≡ false =
              checked ∙ e in
            (rw (some_missing, e) refl, λ v. absurd (not_both _ (valid-parts v).0 e))
      ]
