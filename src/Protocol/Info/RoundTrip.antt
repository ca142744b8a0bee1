-- ===== src/Protocol/Info/RoundTrip.antt =====
-- Encoding and decoding device information (rust/src/protocol.rs).
use hidpin.Base.{
  ℕ, zero, suc, ◌+◌, ◌^◌, ◌≤◌, ◌<◌, ◌≡◌, ◌≢◌, refl, ap, ap₂, ◌∙◌, inl, List, [], ◌∷◌, length,
  length-set, set, get_or-set_self, get_or-set_ne, take, drop, min, All, replicate, ◌-◌, arith,
}
use hidpin.Base.Bytes.{
  byte_at, slice, write, to_le_bytes, from_le_bytes, length-write, byte_at-write_ne, slice-eq,
  from-to_le_bytes,
}
use hidpin.Error.{ok}
use hidpin.Protocol.Layout.{report_payload_len, sdk_board_len, sdk_board_offset, u16_at, u32_at}
use hidpin.Protocol.Info.{DeviceInfo, encode_head, encode, until_zero, to_ascii, decode_device_info}

-- The ranges that the types of the two words give.
pub record InRange (i : DeviceInfo) : Type 0 where
  pub interval_range : i.periodic_interval_ms < 2 ^ 16
  pub available_range : i.available < 2 ^ 32

-- A name that is ASCII without a 0 byte.
abbrev pub Printable : List ℕ → Type 0
Printable = All (λ b. (b ≢ 0) × (b < 128))

-- The bytes of the name and 0 bytes after it.
abbrev padded : ℕ → List ℕ → List ℕ
padded zero bs = []
padded (suc n) [] = 0 ∷ padded n []
padded (suc n) (b ∷ bs) = b ∷ padded n bs

to_ascii-until_zero-padded :
    (n : ℕ) (name : List ℕ)
    → Printable name
    → length name ≤ n
    → to_ascii (until_zero (padded n name)) ≡ name
unfolding to_ascii until_zero
to_ascii-until_zero-padded zero [] v h = refl
to_ascii-until_zero-padded zero (b ∷ bs) v h = absurd (omega arith)
to_ascii-until_zero-padded (suc n) [] v h = refl
to_ascii-until_zero-padded (suc n) (b ∷ bs) v h =
    ground (arith, to_ascii-until_zero-padded n bs v.1 (omega arith))

take-min : (n : ℕ) (bs : List ℕ) → take (min (length bs) n) bs ≡ take n bs
take-min zero [] = refl
take-min (suc n) [] = let e : min 0 (suc n) ≡ 0 = omega arith in rw e
take-min zero (b ∷ bs) = let e : min (suc (length bs)) 0 ≡ 0 = omega arith in rw e
take-min (suc n) (b ∷ bs) =
    let e : min (suc (length bs)) (suc n) ≡ suc (min (length bs) n) = omega arith in
    rw e (ap (λ l. b ∷ l) (take-min n bs))

length-take_le : (n : ℕ) (bs : List ℕ) → length (take n bs) ≤ n
length-take_le zero bs = omega arith
length-take_le (suc n) [] = omega arith
length-take_le (suc n) (b ∷ bs) = omega (arith, length-take_le n bs)

take-Printable : (n : ℕ) (bs : List ℕ) → Printable bs → Printable (take n bs)
take-Printable zero bs v = tt
take-Printable (suc n) [] v = tt
take-Printable (suc n) (b ∷ bs) v = (v.0, take-Printable n bs v.1)

byte_at-drop : (p : List ℕ) (k j : ℕ) → byte_at p (k + j) ≡ byte_at (drop k p) j
byte_at-drop p zero j = let e : 0 + j ≡ j = omega arith in rw e
byte_at-drop [] (suc k) j = refl
byte_at-drop (b ∷ p) (suc k) j =
    let e : suc k + j ≡ suc (k + j) = omega arith in rw e (byte_at-drop p k j)

byte_at-zeros : (n j : ℕ) → byte_at (replicate n 0) j ≡ 0
byte_at-zeros zero j = refl
byte_at-zeros (suc n) zero = refl
byte_at-zeros (suc n) (suc j) = byte_at-zeros n j

-- Bytes written over zeros read as the bytes and the zeros after them.
slice-write_padded :
    (p : List ℕ) (i n : ℕ) (bs : List ℕ)
    → length bs ≤ n
    → i + n ≤ length p
    → ((j : ℕ) → i ≤ j → byte_at p j ≡ 0)
    → slice (write p i bs) i n ≡ padded n bs
unfolding slice write
slice-write_padded p i zero [] h k zeros = refl
slice-write_padded p i zero (b ∷ bs) h k zeros = absurd (omega arith)
slice-write_padded p i (suc n) [] h k zeros =
    ap₂ ◌∷◌ (zeros i (omega arith))
      (slice-write_padded p (suc i) n [] (omega arith) (omega arith) (λ j q. zeros j (omega arith)))
slice-write_padded p i (suc n) (b ∷ bs) h k zeros =
    ap₂ ◌∷◌
      (byte_at-write_ne (set p i b) (suc i) i bs (inl (omega arith))
        ∙ get_or-set_self p i b 0 (omega arith))
      (slice-write_padded (set p i b) (suc i) n bs (omega arith) (omega (arith, length-set p i b))
        (λ j q. get_or-set_ne p i j b 0 (omega arith) ∙ zeros j (omega arith)))

module _ (i : DeviceInfo) (v : InRange i) where
  abbrev name : List ℕ
  name = take (min (length i.sdk_board) sdk_board_len) i.sdk_board

  head_zeros : (j : ℕ) → 17 ≤ j → byte_at (encode_head i) j ≡ 0
  unfolding encode_head write to_le_bytes
  head_zeros j h =
      let e : 17 + (j - 17) ≡ j = omega arith in
      rw (← e) (byte_at-drop (encode_head i) 17 (j - 17) ∙ byte_at-zeros 46 (j - 17))

  length-encode_head : length (encode_head i) ≡ report_payload_len
  unfolding encode_head write to_le_bytes
  length-encode_head = refl

  name_read :
      Printable i.sdk_board
      → to_ascii (until_zero (slice (encode i) sdk_board_offset sdk_board_len))
        ≡ take sdk_board_len i.sdk_board
  unfolding encode
  name_read printable =
      rw
        (
          take-min sdk_board_len i.sdk_board,
          slice-write_padded (encode_head i) 17 40 (take 40 i.sdk_board)
              (length-take_le 40 i.sdk_board) (omega (arith, length-encode_head)) head_zeros,
        )
        (to_ascii-until_zero-padded 40 (take 40 i.sdk_board)
          (take-Printable 40 i.sdk_board printable) (length-take_le 40 i.sdk_board))

  byte_kept : (j : ℕ) → j < 17 → byte_at (encode i) j ≡ byte_at (encode_head i) j
  unfolding encode
  byte_kept j h = byte_at-write_ne (encode_head i) 17 j name (inl (omega arith))

  interval_read : u16_at (encode i) 6 ≡ i.periodic_interval_ms
  unfolding u16_at encode_head write to_le_bytes slice from_le_bytes
  interval_read =
      ap from_le_bytes
        (slice-eq (encode i) (encode_head i) 6 2 (λ j a b. byte_kept j (omega arith)))
      ∙ from-to_le_bytes 2 i.periodic_interval_ms v.interval_range

  available_read : u32_at (encode i) 8 ≡ i.available
  unfolding u32_at encode_head write to_le_bytes slice from_le_bytes
  available_read =
      ap from_le_bytes
        (slice-eq (encode i) (encode_head i) 8 4 (λ j a b. byte_kept j (omega arith)))
      ∙ from-to_le_bytes 4 i.available v.available_range

  pub length-encode : length (encode i) ≡ report_payload_len
  unfolding encode
  length-encode = length-write (encode_head i) 17 name ∙ length-encode_head

  -- The single bytes of the head.
  bytes_read :
      (byte_at (encode i) 0 ≡ i.protocol_version)
      × (byte_at (encode i) 1 ≡ i.firmware_major)
      × (byte_at (encode i) 2 ≡ i.firmware_minor)
      × (byte_at (encode i) 3 ≡ i.firmware_patch)
      × (byte_at (encode i) 4 ≡ i.board)
      × (byte_at (encode i) 5 ≡ i.gpio_total)
      × (byte_at (encode i) 12 ≡ i.events_limit)
      × (byte_at (encode i) 13 ≡ i.event_queue_size)
      × (byte_at (encode i) 14 ≡ i.chip)
      × (byte_at (encode i) 15 ≡ i.chip_revision)
      × (byte_at (encode i) 16 ≡ i.quirks)
  unfolding encode_head write to_le_bytes
  bytes_read = (
    byte_kept 0 (omega arith),
    byte_kept 1 (omega arith),
    byte_kept 2 (omega arith),
    byte_kept 3 (omega arith),
    byte_kept 4 (omega arith),
    byte_kept 5 (omega arith),
    byte_kept 12 (omega arith),
    byte_kept 13 (omega arith),
    byte_kept 14 (omega arith),
    byte_kept 15 (omega arith),
    byte_kept 16 (omega arith),
  )

-- Decoding what was encoded gives back the device information with its board name cut to 40
-- bytes, for every name of ASCII bytes other than 0.
pub decode-encode_device_info :
    (i : DeviceInfo)
    → InRange i
    → Printable i.sdk_board
    → decode_device_info (encode i) ≡ ok (record i { sdk_board = take sdk_board_len i.sdk_board })
unfolding decode_device_info
decode-encode_device_info i v printable = ground (
  arith,
  length-encode i v,
  bytes_read i v,
  interval_read i v,
  available_read i v,
  name_read i v printable,
)
