-- ===== src/Common/Text.antt =====
-- Go strings as lists of bytes, and the functions of Go's `strings` package that the program uses.
use Prim.Native.Nat.{ℕ, ◌+◌, ◌-◌}
use Prim.Native.Char.{code}
use Prim.Native.String.{String}
use mathlib.Core.Bool.{Bool, true, false, ◌&&◌, ◌||◌}
use mathlib.Core.List.{List, [], ◌∷◌, ◌++◌, map}
use mathlib.Core.Logic.{◌↔◌}
use mathlib.Core.Path.{◌≡◌}
use native.Mathlib.Omega.{arith}
use inbucket.Common.Tests.{leb, ◌==◌, if◌then◌else◌, within}
use inbucket.Common.Lists.{all, is_nil}

abbrev pub Bytes : Type 0
Bytes = List ℕ

-- The bytes of a literal, which is ASCII throughout.
abbrev pub codes : String → Bytes
codes String.[] = []
codes (String.◌∷◌ c s) = code c ∷ codes s

-- `==` on strings.
unfoldable pub equal : Bytes → Bytes → Bool
equal [] t = is_nil t
equal (c ∷ s) [] = false
equal (c ∷ s) (d ∷ t) = c == d && equal s t

-- The test decides equality.
pub equal_iff : (s t : Bytes) → (equal s t ≡ true) ↔ (s ≡ t)
unfolding equal
equal_iff [] [] = ground arith
equal_iff [] (d ∷ t) = ground arith
equal_iff (c ∷ s) [] = ground arith
equal_iff (c ∷ s) (d ∷ t) = ground (arith, equal_iff s t)

-- Membership of a byte in a set of bytes, `bytes.IndexByte(set, c) >= 0`.
unfoldable pub contains : Bytes → ℕ → Bool
contains [] c = false
contains (x ∷ xs) c = x == c || contains xs c

abbrev pub is_ascii : ℕ → Bool
is_ascii c = leb c 127

-- The case mappings of Go's `unicode` tables, which apply to a string with a byte over 127.
pub record Unicode : Type 0 where
  pub lower : Bytes → Bytes
  pub upper : Bytes → Bytes

unfoldable pub lower_byte : ℕ → ℕ
lower_byte c = if within b'A' b'Z' c then c + 32 else c

unfoldable pub upper_byte : ℕ → ℕ
upper_byte c = if within b'a' b'z' c then c - 32 else c

-- `strings.ToLower` and `strings.ToUpper`: bytewise on ASCII, by the tables otherwise.
unfoldable pub to_lower : Unicode → Bytes → Bytes
unfolding lower_byte
to_lower u s = if all is_ascii s then map lower_byte s else u.lower s

unfoldable pub to_upper : Unicode → Bytes → Bytes
unfolding upper_byte
to_upper u s = if all is_ascii s then map upper_byte s else u.upper s

-- `s[0:idx]` for the first `sep`, and all of `s` where there is none.
unfoldable pub before : ℕ → Bytes → Bytes
before sep [] = []
before sep (c ∷ cs) = if c == sep then [] else c ∷ before sep cs

-- `strings.TrimLeft(s, cutset)`, `TrimRight` and `Trim`.
unfoldable pub trim_left : Bytes → Bytes → Bytes
unfolding contains
trim_left cutset [] = []
trim_left cutset (c ∷ cs) =
    let rest = trim_left cutset cs in if contains cutset c then rest else c ∷ cs

unfoldable pub trim_right : Bytes → Bytes → Bytes
unfolding contains
trim_right cutset [] = []
trim_right cutset (c ∷ cs) =
    let rest = trim_right cutset cs in if is_nil rest && contains cutset c then [] else c ∷ rest

unfoldable pub trim : Bytes → Bytes → Bytes
unfolding trim_left trim_right
trim cutset s = trim_left cutset (trim_right cutset s)

abbrev pub onto_first : ℕ → List Bytes → List Bytes
onto_first c [] = (c ∷ []) ∷ []
onto_first c (w ∷ ws) = (c ∷ w) ∷ ws

-- `strings.Split(s, sep)` for a separator of one byte.
unfoldable pub split : ℕ → Bytes → List Bytes
split sep [] = [] ∷ []
split sep (c ∷ cs) = let rest = split sep cs in if c == sep then [] ∷ rest else onto_first c rest

-- `strings.Join(ws, sep)` for a separator of one byte.
unfoldable pub join : ℕ → List Bytes → Bytes
join sep [] = []
join sep (w ∷ []) = w
join sep (w ∷ v ∷ vs) = w ++ (sep ∷ join sep (v ∷ vs))
