-- ===== src/Atreolink/Slug.antt =====
-- `Slugify` of internal/atreolink/client.go. The source walks runes; here it walks the bytes of the
-- lowered text, which gives the same slug: each byte of a longer rune is no letter or digit, and a
-- run of such bytes gives one hyphen, as the rune does.
use atreo_agent.Base.{
  ℕ, Bool, true, false, ◌&&◌, ◌||◌, not, Text, [], ◌∷◌, ◌≡◌, refl, arith, leb, eqb, is_empty,
  if◌then◌else◌,
}

-- `strings.ToLower` and `strings.TrimSpace`, whose Unicode tables are Go's.
pub record Unicode : Type 0 where
  pub to_lower : Text → Text
  pub trim_space : Text → Text

pub is_slug_char : ℕ → Bool
is_slug_char c = (leb b'a' c && leb c b'z') || (leb b'0' c && leb c b'9')

-- The loop. What has been written is kept backwards, so that `result[len(result)-1]` is its head.
scan : Text → Bool → Text → Text
scan result last_hyphen [] = result
scan result last_hyphen (c ∷ s) =
    let letter = scan (c ∷ result) false s in
    let hyphen = scan (45 ∷ result) true s in
    let skip = scan result last_hyphen s in
    if is_slug_char c
    then letter
    else if not last_hyphen && not (is_empty result)
    then hyphen
    else skip

trim_hyphen : Text → Text
trim_hyphen [] = []
trim_hyphen (c ∷ r) = if eqb c 45 then r else c ∷ r

-- A list turned round onto another.
onto : Text → Text → Text
onto [] acc = acc
onto (c ∷ r) acc = onto r (c ∷ acc)

unfoldable pub slugify : Unicode → Text → Text
unfolding scan trim_hyphen onto is_slug_char
slugify u name = onto (trim_hyphen (scan [] false (u.to_lower (u.trim_space name)))) []

pub starts_letter : Text → Bool
starts_letter [] = false
starts_letter (c ∷ r) = is_slug_char c

pub starts_hyphen : Text → Bool
starts_hyphen [] = false
starts_hyphen (c ∷ r) = eqb c 45

-- Letters, digits and hyphens, with a letter or digit after every hyphen.
pub is_spaced : Text → Bool
unfolding starts_letter
is_spaced [] = true
is_spaced (c ∷ r) = (is_slug_char c || (eqb c 45 && starts_letter r)) && is_spaced r

-- Of two texts that meet at their heads: a hyphen on one side wants a letter or digit on the other.
Meets : Text → Text → Type 0
Meets r acc =
    (starts_hyphen r ≡ true → starts_letter acc ≡ true)
    × (starts_hyphen acc ≡ true → starts_letter r ≡ true)

letter_no_hyphen : (c : ℕ) → is_slug_char c ≡ true → eqb c 45 ≡ false
unfolding is_slug_char
letter_no_hyphen c h = ground arith

no_letter_hyphen : (r : Text) → starts_letter r ≡ true → starts_hyphen r ≡ false
unfolding starts_letter starts_hyphen
no_letter_hyphen [] h = refl
no_letter_hyphen (c ∷ r) h = letter_no_hyphen c h

head_is_letter :
    (r : Text)
    → is_spaced r ≡ true
    → starts_hyphen r ≡ false
    → is_empty r ≡ false
    → starts_letter r ≡ true
unfolding is_spaced starts_hyphen
head_is_letter [] h e n = cc
head_is_letter (c ∷ r) h e n = ground arith

spaced_hyphen : (r : Text) → is_spaced r ≡ true → starts_letter r ≡ true → is_spaced (45 ∷ r) ≡ true
unfolding is_spaced
spaced_hyphen r h e = ground arith

scan_spaced :
    (result s : Text) (last : Bool)
    → is_spaced result ≡ true
    → last ≡ starts_hyphen result
    → is_spaced (scan result last s) ≡ true
unfolding scan starts_hyphen is_spaced
scan_spaced result [] last h e = h
scan_spaced result (c ∷ s) last h e = ground (
  arith,
  scan_spaced (c ∷ result) s false,
  scan_spaced (45 ∷ result) s true,
  scan_spaced result s last,
  letter_no_hyphen c,
  head_is_letter result,
  spaced_hyphen result,
)

trim_spaced :
    (r : Text)
    → is_spaced r ≡ true
    → (is_spaced (trim_hyphen r) ≡ true) × (starts_hyphen (trim_hyphen r) ≡ false)
unfolding trim_hyphen is_spaced starts_hyphen
trim_spaced [] h = (refl, refl)
trim_spaced (c ∷ []) h = ground (arith, letter_no_hyphen c)
trim_spaced (c ∷ d ∷ r) h = ground (arith, letter_no_hyphen c, letter_no_hyphen d)

onto_spaced :
    (r acc : Text)
    → is_spaced r ≡ true
    → is_spaced acc ≡ true
    → Meets r acc
    → (is_spaced (onto r acc) ≡ true) × (starts_hyphen (onto r acc) ≡ false)
unfolding onto Meets is_spaced starts_hyphen
onto_spaced [] acc h k m = (k, ground arith)
onto_spaced (c ∷ r) acc h k m =
    onto_spaced r (c ∷ acc) (ground arith) (ground (arith, letter_no_hyphen c)) (
      (λ e. ground (arith, letter_no_hyphen c, no_letter_hyphen r)),
      (λ e. ground (arith, letter_no_hyphen c)),
    )

-- A slug has only letters, digits and hyphens; it starts with no hyphen, and a letter or digit
-- follows each hyphen, so it ends with none either. Whatever the lowering does.
pub slugify_spaced :
    (u : Unicode) (name : Text)
    → (is_spaced (slugify u name) ≡ true) × (starts_hyphen (slugify u name) ≡ false)
unfolding slugify
slugify_spaced u name =
    let written = scan [] false (u.to_lower (u.trim_space name)) in
    let ok : is_spaced [] ≡ true = unfold is_spaced in refl in
    let kept =
      trim_spaced written
        (scan_spaced [] (u.to_lower (u.trim_space name)) false ok (unfold starts_hyphen in refl)) in
    onto_spaced (trim_hyphen written) [] (kept.0) ok
      (unfold Meets starts_hyphen in ((λ e. cc (kept.1, e)), (λ e. cc)))
