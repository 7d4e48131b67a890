-- ===== src/Base/Bytes.antt =====
-- Go strings and byte slices: both are sequences of bytes, here lists of numbers.
use Prim.Native.Nat.{ℕ, zero, suc, ◌+◌, ◌/◌, ◌%◌}
use Prim.Native.Char.{code}
use Prim.Native.String.{String}
use mathlib.Core.Path.{◌≡◌, refl}
use mathlib.Core.Logic.{◌↔◌}
use mathlib.Core.Bool.{Bool, true, false, ◌&&◌}
use mathlib.Core.List.{List, [], ◌∷◌, ◌++◌}
use native.Mathlib.Omega.{arith}
use atreo_agent.Base.Tests.{ltb, eqb, if◌then◌else◌}

abbrev pub Text : Type 0
Text = List ℕ

-- The bytes of an ASCII literal.
abbrev pub lit : String → Text
lit String.[] = []
lit (String.◌∷◌ c s) = code c ∷ lit s

infix 50 ◌==◌
-- Go's `==` on strings.
unfoldable pub ◌==◌ : Text → Text → Bool
[] == [] = true
[] == (y ∷ ys) = false
(x ∷ xs) == [] = false
(x ∷ xs) == (y ∷ ys) = eqb x y && xs == ys

pub ==_refl : (s : Text) → (s == s) ≡ true
unfolding ◌==◌
==_refl [] = refl
==_refl (x ∷ xs) = ground (arith, ==_refl xs)

pub ==_sound : (s t : Text) → (s == t) ≡ true → s ≡ t
unfolding ◌==◌
==_sound [] [] h = refl
==_sound [] (y ∷ ys) h = cc
==_sound (x ∷ xs) [] h = cc
==_sound (x ∷ xs) (y ∷ ys) h = ground (arith, ==_sound xs ys)

pub ==_iff : (s t : Text) → ((s == t) ≡ true) ↔ (s ≡ t)
==_iff s t = (==_sound s t, λ e. rw e (==_refl t))

-- The test `s == ""`.
abbrev pub is_empty : Text → Bool
is_empty [] = true
is_empty (x ∷ xs) = false

-- `strings.HasPrefix`.
unfoldable pub has_prefix : Text → Text → Bool
has_prefix s [] = true
has_prefix [] (p ∷ ps) = false
has_prefix (c ∷ s) (p ∷ ps) = eqb c p && has_prefix s ps

pub has_prefix-append : (p s : Text) → has_prefix (p ++ s) p ≡ true
unfolding has_prefix
has_prefix-append [] [] = refl
has_prefix-append [] (c ∷ s) = refl
has_prefix-append (c ∷ p) s = ground (arith, has_prefix-append p s)

-- `%d` of a number that is not negative; the fuel is above the number of its digits.
digits : ℕ → ℕ → Text
digits zero n = []
digits (suc f) n =
    let more = digits f (n / 10) in if ltb n 10 then (48 + n) ∷ [] else more ++ (48 + n % 10) ∷ []

unfoldable pub decimal : ℕ → Text
unfolding digits
decimal n = digits (suc n) n

-- How often a text stands in a list.
unfoldable pub copies : Text → List Text → ℕ
copies k [] = 0
copies k (x ∷ xs) = let n = copies k xs in if x == k then suc n else n

pub copies-snoc :
    (k x : Text) (xs : List Text)
    → copies k (xs ++ x ∷ []) ≡ (if x == k then suc (copies k xs) else copies k xs)
unfolding copies
copies-snoc k x [] = refl
copies-snoc k x (y ∷ ys) = ground (arith, copies-snoc k x ys)
