-- ===== src/Config/Rows.antt =====
-- The loops of `LoadConfig` over its tables of options.
use inbucket.Common.{
  ◌≡◌, refl, ap, ◌∙◌, arith, Bool, true, false, not, ◌&&◌, Option, none, some, List, [], ◌∷◌,
  if◌then◌else◌, is_nil, all, Bytes,
}
use inbucket.Config.{Read, File, Net, Row, Loading, load_string, load_value, load_ip, load_rows}

-- The assignments of a table, each with a value of its row.
abbrev pub assign : {A S : Type 0} → (Row A S → A) → List (Row A S) → S → S
assign value [] s = s
assign value (row ∷ rows) s = assign value rows (row.target (value row) s)

-- A loop over a table, from what its body does: it adds a message exactly if the row is not well,
-- and sets a row that is well.
module _ {A S : Type 0} (body : Row A S → Loading S → Loading S) (ok req : Row A S → Bool)
    (value : Row A S → A)
    (nils : (row : Row A S) (ld : Loading S)
      → is_nil (body row ld).messages ≡ (is_nil ld.messages && ok row))
    (sets : (row : Row A S) (ld : Loading S)
      → ok row ≡ true
      → req row ≡ true
      → (body row ld).settings ≡ row.target (value row) ld.settings) where
  pub load_rows-is_nil :
      (rows : List (Row A S)) (ld : Loading S)
      → is_nil (load_rows body rows ld).messages ≡ (is_nil ld.messages && all ok rows)
  unfolding load_rows
  load_rows-is_nil [] ld = ground arith
  load_rows-is_nil (row ∷ rows) ld =
      ground (arith, load_rows-is_nil rows (body row ld), nils row ld)

  pub load_rows-assign :
      (rows : List (Row A S)) (ld : Loading S)
      → all ok rows ≡ true
      → all req rows ≡ true
      → (load_rows body rows ld).settings ≡ assign value rows ld.settings
  unfolding load_rows
  load_rows-assign [] ld e f = refl
  load_rows-assign (row ∷ rows) ld e f =
      load_rows-assign rows (body row ld) (ground arith) (ground arith)
      ∙ ap (assign value rows) (sets row ld (ground arith) (ground arith))

module _ {S : Type 0} (file : File) where
  -- An option that is missing is not required, and one that is there can be read.
  abbrev pub string_ok : Row Bytes S → Bool
  string_ok row =
      let str = file.string row.section row.name in
      not (file.has_option row.section row.name && not str.ok)
      && not (row.required && is_nil str.value)

  abbrev pub value_ok : {A : Type 0} → (Bytes → Bytes → Read A) → Row A S → Bool
  value_ok read row =
      if file.has_option row.section row.name
      then (read row.section row.name).ok
      else not row.required

  abbrev pub value_of : {A : Type 0} → (Bytes → Bytes → Read A) → Row A S → A
  value_of read row = (read row.section row.name).value

  pub load_string-nils :
      (row : Row Bytes S) (ld : Loading S)
      → is_nil (load_string file row ld).messages ≡ (is_nil ld.messages && string_ok row)
  unfolding load_string
  load_string-nils row ld = ground arith

  pub load_string-sets :
      (row : Row Bytes S) (ld : Loading S)
      → string_ok row ≡ true
      → true ≡ true
      → (load_string file row ld).settings ≡ row.target (value_of file.string row) ld.settings
  unfolding load_string
  load_string-sets row ld e f = ground arith

  pub load_value-nils :
      {A : Type 0} (read : Bytes → Bytes → Read A) (row : Row A S) (ld : Loading S)
      → is_nil (load_value file read row ld).messages ≡ (is_nil ld.messages && value_ok read row)
  unfolding load_value
  load_value-nils read row ld = ground arith

  pub load_value-sets :
      {A : Type 0} (read : Bytes → Bytes → Read A) (row : Row A S) (ld : Loading S)
      → value_ok read row ≡ true
      → row.required ≡ true
      → (load_value file read row ld).settings ≡ row.target (value_of read row) ld.settings
  unfolding load_value
  load_value-sets read row ld e f = ground arith

-- The IPv4 address of a text.
abbrev pub ip4 : (net : Net) → Bytes → Option net.Ip
ip4 net text = elim (net.parse_ip text) [ none ↦ none | some ip ↦ net.to4 ip ]

abbrev has_ip4 : {A : Type 0} → Option A → Bool
has_ip4 none = false
has_ip4 (some ip) = true

module _ {S : Type 0} (file : File) (net : Net) where
  abbrev pub ip_ok : Row (Option net.Ip) S → Bool
  ip_ok row =
      let str = file.string row.section row.name in
      if file.has_option row.section row.name
      then str.ok && has_ip4 (ip4 net str.value)
      else not row.required

  abbrev pub ip_of : Row (Option net.Ip) S → Option net.Ip
  ip_of row = ip4 net (file.string row.section row.name).value

  pub load_ip-nils :
      (row : Row (Option net.Ip) S) (ld : Loading S)
      → is_nil (load_ip net file row ld).messages ≡ (is_nil ld.messages && ip_ok row)
  unfolding load_ip
  load_ip-nils row ld = ground arith

  pub load_ip-sets :
      (row : Row (Option net.Ip) S) (ld : Loading S)
      → ip_ok row ≡ true
      → row.required ≡ true
      → (load_ip net file row ld).settings ≡ row.target (ip_of row) ld.settings
  unfolding load_ip
  load_ip-sets row ld e f = ground arith
