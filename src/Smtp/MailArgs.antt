-- ===== src/Smtp/MailArgs.antt =====
-- The arguments of HELO, EHLO, MAIL and RCPT: `parseHelloArgument`, the regular expression of
-- `readyHandler`, `parseArgs`, and the checks of the RCPT argument in `mailHandler`.
use inbucket.Common.{
  ℕ, ◌-◌, map, Bool, true, false, not, ◌&&◌, ◌||◌, Option, none, some, List, [], ◌∷◌, ◌++◌, ltb,
  ◌==◌, if◌then◌else◌, within, is_nil, length, take, drop, all, Bytes, codes, equal, before,
  Unicode, to_upper, trim, trim_left,
}

unfoldable pub parse_hello_argument : Bytes → Option Bytes
parse_hello_argument arg =
    let domain = before b' ' arg in if is_nil domain then none else some domain

-- `\w`
abbrev pub is_word : ℕ → Bool
is_word c = within b'0' b'9' c || within b'A' b'Z' c || within b'a' b'z' c || c == b'_'

-- `[\w= ]*` under `(?i)`, whose folding adds the long s (bytes 0xc5 0xbf) and the Kelvin sign
-- (0xe2 0x84 0xaa); the first argument is what stands of such a sequence.
unfoldable pub params_class : Bytes → Bytes → Bool
params_class part [] = is_nil part
params_class part (c ∷ cs) =
    let fresh = params_class [] cs in
    let more = params_class (part ++ c ∷ []) cs in
    if is_nil part
    then (if is_word c || c == b'=' || c == b' ' then fresh else (c == 0xc5 || c == 0xe2) && more)
    else if equal (part ++ c ∷ []) (0xc5 ∷ 0xbf ∷ [])
        || equal (part ++ c ∷ []) (0xe2 ∷ 0x84 ∷ 0xaa ∷ [])
    then fresh
    else equal (part ++ c ∷ []) (0xe2 ∷ 0x84 ∷ []) && more

-- `( [\w= ]+)?$`
unfoldable pub params_match : Bytes → Bool
unfolding params_class
params_match [] = true
params_match (c ∷ cs) = c == b' ' && (not (is_nil cs) && params_class [] cs)

-- The text before the last `>`, and the text behind it.
unfoldable pub split_last_gt : Bytes → Option (Bytes × Bytes)
split_last_gt [] = none
split_last_gt (c ∷ cs) = elim (split_last_gt cs) [
  | some (a, b) ↦ some (c ∷ a, b)
  | none ↦ if c == b'>' then some ([], cs) else none
]

-- `(?:\\>|[^>])*`: each `>` stands behind a backslash; `escaped` says that one precedes.
unfoldable pub escaped_gts : Bool → Bytes → Bool
escaped_gts escaped [] = true
escaped_gts escaped (c ∷ cs) =
    let rest = escaped_gts (c == b'\\') cs in (not (c == b'>') || escaped) && rest

-- `[^"]+"@[^>]+` behind the opening quote; `inside` says that a byte was read.
unfoldable pub quoted_rest : Bool → Bytes → Bool
quoted_rest inside [] = false
quoted_rest inside (c ∷ cs) =
    let rest = quoted_rest true cs in
    if c == b'"'
    then inside
      && (equal (take 1 cs) (codes "@")
          && (not (is_nil (drop 1 cs)) && all (λ d. not (d == b'>')) (drop 1 cs)))
    else rest

unfoldable pub path_match : Bytes → Bool
unfolding escaped_gts quoted_rest
path_match [] = false
path_match (c ∷ cs) = escaped_gts false (c ∷ cs) || c == b'"' && quoted_rest false cs

abbrev match_path : Option (Bytes × Bytes) → Option (Bytes × Bytes)
match_path none = none
match_path (some (path, params)) =
    if path_match path && params_match params then some (path, params) else none

abbrev match_open : Bytes → Option (Bytes × Bytes)
match_open [] = none
match_open (c ∷ cs) = if c == b'<' then match_path (split_last_gt cs) else none

-- `^FROM:`, where no other rune folds to one of these letters.
abbrev upper_ascii : ℕ → ℕ
upper_ascii c = if within b'a' b'z' c then c - 32 else c

-- The regular expression of `readyHandler`: the groups `m[1]` and `m[2]`. What follows the path
-- holds no `>`, so the path ends at the last `>`.
unfoldable pub match_from : Bytes → Option (Bytes × Bytes)
unfolding path_match params_match split_last_gt
match_from arg =
    if equal (map upper_ascii (take 5 arg)) (codes "FROM:")
    then match_open (trim_left (codes "\t\n\u{c}\r ") (drop 5 arg))
    else none

-- Where the search of `parseArgs` stands: between matches, in `\w+` behind a space, or in `\w+`
-- behind the `=`.
pub data ArgState : Type 0 where
  outside : ArgState
  in_key : Bytes → ArgState
  in_value : Bytes → Bytes → ArgState

abbrev emit : Unicode → ArgState → List (Bytes × Bytes) → List (Bytes × Bytes)
emit u (in_value k (c ∷ v)) rest = (to_upper u k, c ∷ v) ∷ rest
emit u _ rest = rest

-- The state behind a byte that does not go on with the match.
abbrev restart : ℕ → ArgState
restart c = if c == b' ' then in_key [] else outside

abbrev arg_step : ArgState → ℕ → ArgState
arg_step outside c = restart c
arg_step (in_key k) c =
    if is_word c
    then in_key (k ++ c ∷ [])
    else if c == b'=' && not (is_nil k)
    then in_value k []
    else restart c
arg_step (in_value k v) c = if is_word c then in_value k (v ++ c ∷ []) else restart c

-- `FindAllStringSubmatch` for ` (\w+)=(\w+)`, with each key in upper case.
unfoldable pub find_args : Unicode → ArgState → Bytes → List (Bytes × Bytes)
find_args u s [] = emit u s []
find_args u s (c ∷ cs) =
    let later = find_args u (arg_step s c) cs in
    elim s [ in_value k v ↦ if is_word c then later else emit u (in_value k v) later | _ ↦ later ]

-- `args[key]` of the map that the matches fill in order: the last one stays.
unfoldable pub last_value : Bytes → List (Bytes × Bytes) → Option Bytes
last_value key [] = none
last_value key ((k, v) ∷ rest) = elim (last_value key rest) [
  | some w ↦ some w
  | none ↦ if equal k key then some v else none
]

-- `parseArgs`; `none` where nothing matches.
unfoldable pub parse_args : Unicode → Bytes → Option (List (Bytes × Bytes))
unfolding find_args
parse_args u arg = elim (find_args u outside arg) [ [] ↦ none | m ∷ ms ↦ some (m ∷ ms) ]

-- The address of RCPT: `none` where the argument does not begin with TO:.
unfoldable pub rcpt_argument : Unicode → Bytes → Option Bytes
rcpt_argument u arg =
    if ltb (length arg) 4 || not (equal (to_upper u (take 3 arg)) (codes "TO:"))
    then none
    else some (trim (codes "<> ") (drop 3 arg))
