-- ===== src/Base/Base64.antt =====
-- `base64.StdEncoding`: encoding, decoding, and the round trip.
use Prim.Native.Nat.{ℕ, ◌+◌, ◌-◌, ◌*◌, ◌/◌, ◌%◌, ◌<◌}
use mathlib.Core.Path.{◌≡◌, refl, ◌∙◌}
use mathlib.Core.Bool.{false, ◌&&◌, ◌||◌}
use mathlib.Core.List.{[], ◌∷◌}
use mathlib.Core.Option.{Option, none, some}
use native.Mathlib.Omega.{arith}
use atreo_agent.Base.Tests.{ltb, leb, eqb, if◌then◌else◌}
use atreo_agent.Base.Lists.{All, length}
use atreo_agent.Base.Bytes.{Text, is_empty}

-- The character for six bits.
char : ℕ → ℕ
char v =
    if ltb v 26
    then v + 65
    else if ltb v 52
    then v + 71
    else if ltb v 62
    then v - 4
    else if eqb v 62
    then 43
    else 47

value : ℕ → Option ℕ
value c =
    if leb 65 c && leb c 90
    then some (c - 65)
    else if leb 97 c && leb c 122
    then some (c - 71)
    else if leb 48 c && leb c 57
    then some (c + 4)
    else if eqb c 43
    then some 62
    else if eqb c 47
    then some 63
    else none

unfoldable pub encode : Text → Text
unfolding char
encode [] = []
encode (a ∷ []) = char (a / 4) ∷ char (a % 4 * 16) ∷ 61 ∷ 61 ∷ []
encode (a ∷ b ∷ []) = char (a / 4) ∷ char (a % 4 * 16 + b / 16) ∷ char (b % 16 * 4) ∷ 61 ∷ []
encode (a ∷ b ∷ c ∷ rest) =
    char (a / 4)
    ∷ char (a % 4 * 16 + b / 16)
    ∷ char (b % 16 * 4 + c / 64)
    ∷ char (c % 64)
    ∷ encode rest

-- Line ends are skipped wherever they stand.
drop_newlines : Text → Text
drop_newlines [] = []
drop_newlines (c ∷ s) =
    let rest = drop_newlines s in if eqb c 10 || eqb c 13 then rest else c ∷ rest

byte1 : ℕ → ℕ → ℕ
byte1 w x = w * 4 + x / 16

byte2 : ℕ → ℕ → ℕ
byte2 x y = x % 16 * 16 + y / 4

byte3 : ℕ → ℕ → ℕ
byte3 y z = y % 4 * 64 + z

infixl 5 ◌>>=◌
abbrev ◌>>=◌ {ℓ κ} : {A : Type ℓ} {B : Type κ} → Option A → (A → Option B) → Option B
none >>= f = none
some a >>= f = f a

-- A quantum that ends in `==` or `=`. The bits that it leaves over are not looked at.
padded : ℕ → ℕ → ℕ → Option Text
unfolding value byte1 byte2
padded w x y = do
  a ← value w
  b ← value x
  if eqb y 61 then some (byte1 a b ∷ []) else do c ← value y; some (byte1 a b ∷ byte2 b c ∷ [])

full : ℕ → ℕ → ℕ → ℕ → Option Text → Option Text
unfolding value byte1 byte2 byte3
full w x y z rest = do
  a ← value w
  b ← value x
  c ← value y
  d ← value z
  r ← rest
  some (byte1 a b ∷ byte2 b c ∷ byte3 c d ∷ r)

quanta : Text → Option Text
unfolding padded full
quanta [] = some []
quanta (w ∷ x ∷ y ∷ z ∷ []) = if eqb z 61 then padded w x y else full w x y z (some [])
quanta (w ∷ x ∷ y ∷ z ∷ t ∷ rest) = full w x y z (quanta (t ∷ rest))
quanta _ = none

-- `DecodeString`; `none` is a `CorruptInputError`.
unfoldable pub decode : Text → Option Text
unfolding quanta drop_newlines
decode s = quanta (drop_newlines s)

abbrev pub IsBytes : Text → Type 0
IsBytes = All (λ b. b < 256)

value-char : (v : ℕ) → v < 64 → value (char v) ≡ some v
unfolding value char
value-char v h = ground arith

char_plain :
    (v : ℕ) → v < 64 → (eqb (char v) 10 || eqb (char v) 13 ≡ false) × (eqb (char v) 61 ≡ false)
unfolding char
char_plain v h = ground arith

drop_newlines-encode : (s : Text) → IsBytes s → drop_newlines (encode s) ≡ encode s
unfolding drop_newlines encode
drop_newlines-encode [] h = refl
drop_newlines-encode (a ∷ []) h = ground (arith, char_plain (a / 4), char_plain (a % 4 * 16))
drop_newlines-encode (a ∷ b ∷ []) h =
    ground (arith, char_plain (a / 4), char_plain (a % 4 * 16 + b / 16), char_plain (b % 16 * 4))
drop_newlines-encode (a ∷ b ∷ c ∷ rest) h = ground (
  arith,
  char_plain (a / 4),
  char_plain (a % 4 * 16 + b / 16),
  char_plain (b % 16 * 4 + c / 64),
  char_plain (c % 64),
  drop_newlines-encode rest h.1.1.1,
)

encode_head : (a : ℕ) (s : Text) → (x : ℕ) × (t : Text) × (encode (a ∷ s) ≡ x ∷ t)
unfolding encode
encode_head a [] = (_, _, refl)
encode_head a (b ∷ []) = (_, _, refl)
encode_head a (b ∷ c ∷ s) = (_, _, refl)

bytes_back :
    (a b c : ℕ)
    → a < 256
    → b < 256
    → c < 256
    → (byte1 (a / 4) (a % 4 * 16 + b / 16) ≡ a)
      × (byte2 (a % 4 * 16 + b / 16) (b % 16 * 4 + c / 64) ≡ b)
      × (byte3 (b % 16 * 4 + c / 64) (c % 64) ≡ c)
unfolding byte1 byte2 byte3
bytes_back a b c ha hb hc = omega arith

full-char :
    (a b c : ℕ) (r : Text)
    → a < 256
    → b < 256
    → c < 256
    → full
        (char (a / 4))
        (char (a % 4 * 16 + b / 16))
        (char (b % 16 * 4 + c / 64))
        (char (c % 64))
        (some r)
      ≡ some (a ∷ b ∷ c ∷ r)
unfolding full
full-char a b c r ha hb hc =
    rw
      (
        value-char (a / 4) (omega arith),
        value-char (a % 4 * 16 + b / 16) (omega arith),
        value-char (b % 16 * 4 + c / 64) (omega arith),
        value-char (c % 64) (omega arith),
      )
      (let back = bytes_back a b c ha hb hc in cc (back.0, back.1, back.2))

padded-one : (a : ℕ) → a < 256 → padded (char (a / 4)) (char (a % 4 * 16)) 61 ≡ some (a ∷ [])
unfolding padded
padded-one a h = ground (arith, value-char (a / 4), value-char (a % 4 * 16))

padded-two :
    (a b : ℕ)
    → a < 256
    → b < 256
    → padded (char (a / 4)) (char (a % 4 * 16 + b / 16)) (char (b % 16 * 4)) ≡ some (a ∷ b ∷ [])
unfolding padded
padded-two a b ha hb = ground (
  arith,
  value-char (a / 4),
  value-char (a % 4 * 16 + b / 16),
  value-char (b % 16 * 4),
  char_plain (b % 16 * 4),
)

-- With more to come, the next quantum is a full one.
quanta_more :
    (w x y z : ℕ) (rest : Text)
    → ((t : ℕ) × (u : Text) × (rest ≡ t ∷ u))
    → quanta (w ∷ x ∷ y ∷ z ∷ rest) ≡ full w x y z (quanta rest)
unfolding quanta
quanta_more w x y z [] (t, u, e) = cc
quanta_more w x y z (t ∷ u) h = refl

quanta-encode : (s : Text) → IsBytes s → quanta (encode s) ≡ some s
unfolding quanta encode
quanta-encode [] h = refl
quanta-encode (a ∷ []) h = padded-one a h.0
quanta-encode (a ∷ b ∷ []) h = padded-two a b h.0 h.1.0
quanta-encode (a ∷ b ∷ c ∷ []) h =
    rw ((char_plain (c % 64) (omega arith)).1) (full-char a b c [] h.0 h.1.0 h.1.1.0)
quanta-encode (a ∷ b ∷ c ∷ d ∷ rest) h =
    quanta_more (char (a / 4)) (char (a % 4 * 16 + b / 16)) (char (b % 16 * 4 + c / 64))
      (char (c % 64)) (encode (d ∷ rest)) (encode_head d rest)
    ∙ rw (quanta-encode (d ∷ rest) h.1.1.1) (full-char a b c (d ∷ rest) h.0 h.1.0 h.1.1.0)

-- Decoding what was encoded gives the bytes back.
pub decode-encode : (s : Text) → IsBytes s → decode (encode s) ≡ some s
unfolding decode
decode-encode s h = rw (drop_newlines-encode s h) (quanta-encode s h)

-- So two byte sequences with one encoding are one.
pub encode_injective : (s t : Text) → IsBytes s → IsBytes t → encode s ≡ encode t → s ≡ t
encode_injective s t hs ht e = cc (decode-encode s hs, decode-encode t ht)

pub encode_nonempty : (s : Text) → 0 < length s → is_empty (encode s) ≡ false
unfolding encode
encode_nonempty [] h = absurd (omega arith)
encode_nonempty (a ∷ []) h = refl
encode_nonempty (a ∷ b ∷ []) h = refl
encode_nonempty (a ∷ b ∷ c ∷ rest) h = refl
