-- ===== src/Common/Go.antt =====
-- The numbers of Go's `strconv` and `fmt` that the program prints and parses.
use Prim.Native.Nat.{ℕ, zero, suc, ◌+◌, ◌-◌, ◌*◌, ◌/◌, ◌%◌}
use mathlib.Core.Bool.{Bool, true, false}
use mathlib.Core.List.{[], ◌∷◌}
use mathlib.Core.Option.{Option, none, some}
use inbucket.Common.Tests.{ltb, ◌==◌, if◌then◌else◌, within}
use inbucket.Common.Text.{Bytes}

-- A signed integer; `negsuc n` is -(n + 1).
pub data ℤ : Type 0 where
  pos : ℕ → ℤ
  negsuc : ℕ → ℤ

-- The value where it is at least 0, and 0 below.
abbrev pub pos_part : ℤ → ℕ
pos_part (pos n) = n
pos_part (negsuc n) = 0

-- The decimal digits in front of `acc`; the fuel bounds their number.
decimal : ℕ → ℕ → Bytes → Bytes
decimal zero n acc = acc
decimal (suc fuel) n acc = elim (ltb n 10) [
  | true ↦ (b'0' + n) ∷ acc
  | false ↦ decimal fuel (n / 10) ((b'0' + n % 10) ∷ acc)
]

-- `%v` of a non-negative integer.
unfoldable pub show_nat : ℕ → Bytes
unfolding decimal
show_nat n = decimal (suc n) n []

abbrev pub is_digit : ℕ → Bool
is_digit c = within b'0' b'9' c

-- The value of a run of digits behind the value read so far.
unfoldable pub read_digits : ℕ → Bytes → Option ℕ
read_digits n [] = some n
read_digits n (c ∷ cs) = elim (is_digit c) [
  | true ↦ read_digits (n * 10 + (c - b'0')) cs
  | false ↦ none
]

abbrev pub digits : Bytes → Option ℕ
digits [] = none
digits (c ∷ cs) = read_digits 0 (c ∷ cs)

abbrev pub int32_bound : ℕ
int32_bound = 2147483648

abbrev positive : Option ℕ → Option ℤ
positive none = none
positive (some n) = if ltb n int32_bound then some (pos n) else none

abbrev negative : Option ℕ → Option ℤ
negative none = none
negative (some zero) = some (pos 0)
negative (some (suc n)) = if ltb n int32_bound then some (negsuc n) else none

-- `strconv.ParseInt(s, 10, 32)`; `none` is an error.
unfoldable pub parse_int32 : Bytes → Option ℤ
unfolding read_digits
parse_int32 [] = none
parse_int32 (c ∷ cs) =
    if c == b'-'
    then negative (digits cs)
    else if c == b'+'
    then positive (digits cs)
    else positive (digits (c ∷ cs))

abbrev below_bound : ℕ → Option ℕ → Option ℕ
below_bound bound none = none
below_bound bound (some n) = if ltb n bound then some n else none

-- `strconv.ParseUint(s, 10, 32)`
unfoldable pub parse_uint32 : Bytes → Option ℕ
unfolding read_digits
parse_uint32 s = below_bound 4294967296 (digits s)
