-- ===== src/Common/Bytewise.antt =====
-- Laws of the functions on bytes.
use Prim.Native.Nat.{ℕ}
use mathlib.Core.Bool.{Bool, true, not, ◌&&◌}
use mathlib.Core.List.{[], ◌∷◌, ◌++◌, map}
use mathlib.Core.Path.{◌≡◌, refl}
use native.Mathlib.Omega.{arith}
use inbucket.Common.Tests.{◌==◌, within}
use inbucket.Common.Lists.{all}
use inbucket.Common.Text.{Bytes, contains, is_ascii, lower_byte, to_lower, Unicode, before}

-- A property of every member of a set of bytes holds of a byte in it.
pub all-contains :
    (p : ℕ → Bool) (xs : Bytes) (c : ℕ) → contains xs c ≡ true → all p xs ≡ true → p c ≡ true
unfolding contains
all-contains p [] c h a = cc
all-contains p (x ∷ xs) c h a = ground (arith, all-contains p xs c)

pub all_mono :
    (p q : ℕ → Bool)
    → ((c : ℕ) → p c ≡ true → q c ≡ true)
    → (xs : Bytes) → all p xs ≡ true
    → all q xs ≡ true
all_mono p q h [] a = refl
all_mono p q h (x ∷ xs) a = ground (arith, h x, all_mono p q h xs)

pub to_lower-eq_map :
    (u : Unicode) (s : Bytes) → all is_ascii s ≡ true → to_lower u s ≡ map lower_byte s
unfolding to_lower
to_lower-eq_map u s h = rw h

-- A byte that no case mapping changes, and that is ASCII.
abbrev pub is_folded : ℕ → Bool
is_folded c = is_ascii c && not (within b'A' b'Z' c)

pub map-lower_byte_folded : (s : Bytes) → all is_folded s ≡ true → map lower_byte s ≡ s
unfolding lower_byte
map-lower_byte_folded [] h = refl
map-lower_byte_folded (c ∷ cs) h = ground (arith, map-lower_byte_folded cs)

pub all-is_ascii_folded : (s : Bytes) → all is_folded s ≡ true → all is_ascii s ≡ true
all-is_ascii_folded [] h = refl
all-is_ascii_folded (c ∷ cs) h = ground (arith, all-is_ascii_folded cs)

pub to_lower_folded : (u : Unicode) (s : Bytes) → all is_folded s ≡ true → to_lower u s ≡ s
unfolding to_lower
to_lower_folded u s h = rw (all-is_ascii_folded s h) (map-lower_byte_folded s h)

pub lower_byte_twice : (c : ℕ) → lower_byte (lower_byte c) ≡ lower_byte c
unfolding lower_byte
lower_byte_twice c = ground arith

pub map-lower_byte_twice : (s : Bytes) → map lower_byte (map lower_byte s) ≡ map lower_byte s
map-lower_byte_twice [] = refl
map-lower_byte_twice (c ∷ cs) = simp (lower_byte_twice, map-lower_byte_twice cs)

pub all-is_ascii_lower :
    (s : Bytes) → all is_ascii s ≡ true → all is_ascii (map lower_byte s) ≡ true
unfolding lower_byte
all-is_ascii_lower [] h = refl
all-is_ascii_lower (c ∷ cs) h = ground (arith, all-is_ascii_lower cs)

pub all-before : (p : ℕ → Bool) (sep : ℕ) (s : Bytes) → all p s ≡ true → all p (before sep s) ≡ true
unfolding before
all-before p sep [] h = refl
all-before p sep (c ∷ cs) h = ground (arith, all-before p sep cs)

-- What `before` keeps has no separator.
pub all-before_ne : (sep : ℕ) (s : Bytes) → all (λ c. not (c == sep)) (before sep s) ≡ true
unfolding before
all-before_ne sep [] = refl
all-before_ne sep (c ∷ cs) = ground (arith, all-before_ne sep cs)

pub before_absent : (sep : ℕ) (s : Bytes) → all (λ c. not (c == sep)) s ≡ true → before sep s ≡ s
unfolding before
before_absent sep [] h = refl
before_absent sep (c ∷ cs) h = ground (arith, before_absent sep cs)

pub before-append : (sep : ℕ) (s t : Bytes) → before sep (s ++ sep ∷ t) ≡ before sep s
unfolding before
before-append sep [] t = ground arith
before-append sep (c ∷ cs) t = ground (arith, before-append sep cs t)
