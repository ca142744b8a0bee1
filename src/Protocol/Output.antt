-- ===== src/Protocol/Output.antt =====
-- The output command of rust/src/protocol.rs, report ID 4.
use hidpin.Base.{ℕ, ◌^◌, ◌<◌, ◌≡◌, List, ◌++◌, length, ◌==◌, if◌then◌else◌, arith}
use hidpin.Base.Bytes.{to_le_bytes, from_le_bytes, slice}
use hidpin.Base.Text.{text}
use hidpin.Error.{Result, ok, err, malformed}
use hidpin.Protocol.Layout.{output_payload_len, u32_at, wrong_length}

unfoldable pub encode_output : ℕ → ℕ → List ℕ
encode_output mask value = to_le_bytes 4 mask ++ to_le_bytes 4 value

unfoldable pub decode_output : List ℕ → Result (ℕ × ℕ)
decode_output p =
    if length p == output_payload_len
    then ok (u32_at p 0, u32_at p 4)
    else err (malformed (wrong_length (text "output") output_payload_len (length p)))

-- Decoding what was encoded gives back the mask and the value, for every pair of 32-bit words.
pub decode-encode_output :
    (mask value : ℕ)
    → mask < 2 ^ 32
    → value < 2 ^ 32
    → decode_output (encode_output mask value) ≡ ok (mask, value)
unfolding decode_output encode_output u32_at to_le_bytes from_le_bytes slice
decode-encode_output mask value h k = ground arith
