-- ===== src/Relay/Tests.antt =====
-- The theorems on internal/relay/frame.go at one frame.
use atreo_agent.Base.{Text, lit, [], ◌∷◌, ◌≡◌, refl, arith}
use atreo_agent.Relay.Frame.{frame_data, uint64, encode_data, ParsedFrame, parsed, parse_frame}
use atreo_agent.Relay.Frame.RoundTrip.{parse_frame-encode_data, encode_data-parse_frame}

parse_frame-encode_data_example :
    parse_frame (encode_data 72_623_859_790_382_856 (lit "packet"))
    ≡ parsed
        (record { typ = frame_data; tunnel_id = 72_623_859_790_382_856; payload = lit "packet" })
parse_frame-encode_data_example =
    parse_frame-encode_data 72_623_859_790_382_856 (lit "packet") (omega arith)

abbrev bytes : Text
bytes = 2 ∷ 1 ∷ 2 ∷ 3 ∷ 4 ∷ 5 ∷ 6 ∷ 7 ∷ 8 ∷ 9 ∷ []

abbrev frame : ParsedFrame
frame = record { typ = 2; tunnel_id = 72_623_859_790_382_856; payload = 9 ∷ [] }

read : parse_frame bytes ≡ parsed frame
unfolding parse_frame uint64
read = refl

encode_data-parse_frame_example : encode_data 72_623_859_790_382_856 (9 ∷ []) ≡ bytes
encode_data-parse_frame_example = encode_data-parse_frame bytes frame (ground arith) read refl
