-- ===== src/Relay/Frame.antt =====
-- internal/relay/frame.go: the frames between the agent and the relay. A frame is a list of bytes; the
-- tunnel id is a 64-bit word in big-endian order.
pub mod RoundTrip
use atreo_agent.Base.{
  ℕ, zero, suc, ◌+◌, ◌-◌, ◌*◌, ◌/◌, ◌%◌, ◌^◌, Text, ltb, eqb, length, take, drop, List, [], ◌∷◌,
  ◌++◌, Option, none, some, if◌then◌else◌,
}

abbrev pub frame_bind : ℕ
frame_bind = 1

abbrev pub frame_data : ℕ
frame_data = 2

abbrev pub frame_keepalive : ℕ
frame_keepalive = 3

abbrev pub frame_close : ℕ
frame_close = 4

abbrev pub session_token_len : ℕ
session_token_len = 32

abbrev pub tunnel_id_len : ℕ
tunnel_id_len = 8

abbrev pub data_header_len : ℕ
data_header_len = 1 + tunnel_id_len

pub data FrameError : Type 0 where
  short_frame unexpected_type : FrameError

-- `binary.BigEndian.PutUint64`: eight bytes, the highest first.
unfoldable pub put_uint64 : ℕ → Text
put_uint64 n =
    n / 2 ^ 56 % 256
    ∷ n / 2 ^ 48 % 256
    ∷ n / 2 ^ 40 % 256
    ∷ n / 2 ^ 32 % 256
    ∷ n / 2 ^ 24 % 256
    ∷ n / 2 ^ 16 % 256
    ∷ n / 2 ^ 8 % 256
    ∷ n % 256
    ∷ []

-- `binary.BigEndian.Uint64`; a shorter buffer is a panic there, and every caller has checked the length.
unfoldable pub uint64 : Text → ℕ
uint64 (b0 ∷ b1 ∷ b2 ∷ b3 ∷ b4 ∷ b5 ∷ b6 ∷ b7 ∷ rest) =
    b0 * 2 ^ 56
    + b1 * 2 ^ 48
    + b2 * 2 ^ 40
    + b3 * 2 ^ 32
    + b4 * 2 ^ 24
    + b5 * 2 ^ 16
    + b6 * 2 ^ 8
    + b7
uint64 _ = 0

-- `make([]byte, n)`
unfoldable pub zeros : ℕ → Text
zeros zero = []
zeros (suc n) = 0 ∷ zeros n

-- The token is copied into 32 bytes: cut when longer, followed by zeros when shorter.
unfoldable pub encode_bind : Text → Text
unfolding zeros
encode_bind token =
    let copied = take session_token_len token in
    frame_bind ∷ copied ++ zeros (session_token_len - length copied)

unfoldable pub encode_keepalive : Text
encode_keepalive = frame_keepalive ∷ []

-- The buffer that is passed in is only reused memory: every byte of the result is written.
unfoldable pub encode_data : ℕ → Text → Text
encode_data tunnel_id payload = frame_data ∷ put_uint64 tunnel_id ++ payload

pub record ParsedFrame : Type 0 where
  pub typ : ℕ
  pub tunnel_id : ℕ
  pub payload : Text

pub data FrameResult : Type 0 where
  parsed : ParsedFrame → FrameResult
  failed : FrameError → FrameResult

unfoldable pub parse_frame : Text → FrameResult
parse_frame [] = failed short_frame
parse_frame (t ∷ rest) =
    if eqb t frame_data
    then (if ltb (length (t ∷ rest)) data_header_len
        then failed short_frame
        else parsed (record {
          typ = frame_data;
          tunnel_id = uint64 rest;
          payload = drop tunnel_id_len rest;
        }))
    else if eqb t frame_close
    then (if ltb (length (t ∷ rest)) (1 + tunnel_id_len)
        then failed short_frame
        else parsed (record { typ = frame_close; tunnel_id = uint64 rest; payload = [] }))
    else if eqb t frame_keepalive
    then parsed (record { typ = frame_keepalive; tunnel_id = 0; payload = [] })
    else failed unexpected_type
