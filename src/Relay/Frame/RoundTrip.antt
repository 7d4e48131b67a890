-- ===== src/Relay/Frame/RoundTrip.antt =====
-- What internal/relay/frame.go encodes is what it parses.
use atreo_agent.Base.{
  ℕ, zero, suc, ◌+◌, ◌-◌, false, inl, inr, Bool-cases, length-append, ◌^◌, ◌≤◌, ◌<◌, Text, ltb, eqb,
  length, take, drop, [], ◌∷◌, ◌++◌, ◌≡◌, refl, ap, sym, subst, eqb_iff, ◌∙◌, arith,
}
use atreo_agent.Base.Base64.{IsBytes}
use atreo_agent.Relay.Frame.{
  frame_data, frame_keepalive, frame_close, session_token_len, tunnel_id_len, data_header_len,
  put_uint64, uint64, zeros, encode_bind, encode_data, ParsedFrame, FrameResult, parsed, failed,
  parse_frame,
}

uint64-put_uint64 : (n : ℕ) (rest : Text) → n < 2 ^ 64 → uint64 (put_uint64 n ++ rest) ≡ n
unfolding uint64 put_uint64
uint64-put_uint64 n rest h = omega arith

-- A frame of nine bytes or more is no short one.
long_enough : (n : ℕ) (t : Text) → ltb (length (put_uint64 n ++ t)) tunnel_id_len ≡ false
unfolding put_uint64
long_enough n t = ground arith

long_enough_close :
    (n : ℕ) (t : Text) → ltb (suc (length (put_uint64 n ++ t))) (1 + tunnel_id_len) ≡ false
unfolding put_uint64
long_enough_close n t = ground arith

-- A DATA frame with a 64-bit tunnel id is parsed to that id and that payload, whatever the payload.
pub parse_frame-encode_data :
    (n : ℕ) (payload : Text)
    → n < 2 ^ 64
    → parse_frame (encode_data n payload)
      ≡ parsed (record { typ = frame_data; tunnel_id = n; payload = payload })
unfolding parse_frame encode_data put_uint64
parse_frame-encode_data n payload h =
    rw (long_enough_close n payload, parse_frame)
      (ap (λ i. parsed (record { typ = frame_data; tunnel_id = i; payload = payload }))
        (uint64-put_uint64 n payload h))

put_uint64-uint64 :
    (b0 b1 b2 b3 b4 b5 b6 b7 : ℕ) (rest : Text)
    → IsBytes (b0 ∷ b1 ∷ b2 ∷ b3 ∷ b4 ∷ b5 ∷ b6 ∷ b7 ∷ [])
    → put_uint64 (uint64 (b0 ∷ b1 ∷ b2 ∷ b3 ∷ b4 ∷ b5 ∷ b6 ∷ b7 ∷ rest))
      ≡ b0 ∷ b1 ∷ b2 ∷ b3 ∷ b4 ∷ b5 ∷ b6 ∷ b7 ∷ []
unfolding uint64 put_uint64
put_uint64-uint64 b0 b1 b2 b3 b4 b5 b6 b7 rest h = ground arith

-- `BIND` always has the size that the relay reads: one byte and 32 of the token.
pub length-encode_bind : (token : Text) → length (encode_bind token) ≡ 1 + session_token_len
unfolding encode_bind
length-encode_bind token = omega (
  arith,
  length-append (take session_token_len token)
      (zeros (session_token_len - length (take session_token_len token))),
  length-zeros (session_token_len - length (take session_token_len token)),
  length-take session_token_len token,
)
  where
    length-zeros : (n : ℕ) → length (zeros n) ≡ n
    length-zeros zero = refl
    length-zeros (suc n) = ap suc (length-zeros n)

    length-take : (n : ℕ) (s : Text) → length (take n s) ≤ n
    length-take zero s = omega arith
    length-take (suc n) [] = omega arith
    length-take (suc n) (c ∷ s) = omega (arith, length-take n s)

abbrev Typed : ℕ → FrameResult → Type 0
Typed t (failed e) = ⊥
Typed t (parsed f) = f.typ ≡ t

abbrev Reencodes : Text → FrameResult → Type 0
Reencodes buf (failed e) = Unit
Reencodes buf (parsed f) = encode_data f.tunnel_id f.payload ≡ buf

reencode_long :
    (rest : Text)
    → IsBytes rest
    → ltb (suc (length rest)) data_header_len ≡ false
    → encode_data (uint64 rest) (drop tunnel_id_len rest) ≡ frame_data ∷ rest
unfolding encode_data
reencode_long (b0 ∷ b1 ∷ b2 ∷ b3 ∷ b4 ∷ b5 ∷ b6 ∷ b7 ∷ rest) b long =
    ap (λ (t : Text). frame_data ∷ t ++ rest)
      (put_uint64-uint64 b0 b1 b2 b3 b4 b5 b6 b7 rest ground arith)
reencode_long _ b long = cc

reencode :
    (buf : Text)
    → IsBytes buf
    → Typed frame_data (parse_frame buf)
    → Reencodes buf (parse_frame buf)
unfolding parse_frame
reencode [] b typed = tt
reencode (t ∷ rest) b typed = elim (Bool-cases (eqb t frame_data)) [
  | inl of_data ↦ elim (Bool-cases (ltb (length (t ∷ rest)) data_header_len)) [
    | inl short ↦ rw (of_data, short, parse_frame) tt
    | inr long ↦
        rw (of_data, long, parse_frame)
          (reencode_long rest b.1 long
            ∙ ap (λ x. x ∷ rest) (sym ((eqb_iff t frame_data).0 of_data)))
  ]
  | inr other ↦ elim (Bool-cases (eqb t frame_close)) [
    | inl close ↦ elim (Bool-cases (ltb (length (t ∷ rest)) (1 + tunnel_id_len))) [
      | inl short ↦ rw (other, close, short, parse_frame) tt
      | inr long ↦ absurd (four_two (rw (other, close, long, parse_frame) at typed))
    ]
    | inr neither ↦ elim (Bool-cases (eqb t frame_keepalive)) [
      | inl alive ↦ absurd (three_two (rw (other, neither, alive, parse_frame) at typed))
      | inr unknown ↦ rw (other, neither, unknown, parse_frame) tt
    ]
  ]
]
  where
    four_two : frame_close ≡ frame_data → ⊥
    four_two e = omega arith

    three_two : frame_keepalive ≡ frame_data → ⊥
    three_two e = omega arith

-- Bytes that are parsed to a DATA frame are the encoding of that frame.
pub encode_data-parse_frame :
    (buf : Text) (f : ParsedFrame)
    → IsBytes buf
    → parse_frame buf ≡ parsed f
    → f.typ ≡ frame_data
    → encode_data f.tunnel_id f.payload ≡ buf
encode_data-parse_frame buf f b e typed =
    subst (Reencodes buf) e (reencode buf b (subst (Typed frame_data) (sym e) typed))
