-- ===== src/Protocol/Status/RoundTrip.antt =====
-- Encoding and decoding a status report (rust/src/protocol.rs).
use hidpin.Base.{
  ℕ, suc, ◌+◌, ◌*◌, ◌^◌, ◌≤◌, ◌<◌, ◌≡◌, refl, ap, ap₂, ◌∙◌, inl, inr, Bool, true, false, List, [],
  ◌∷◌, ltb, leb, Bool-cases, if◌then◌else◌, length, length-set, set, get_or-set_self, get_or-set_ne,
  All, arith, bit_and, bit_or,
}
use hidpin.Base.Bits.Tables.{equal_below, equal_below_sound}
use hidpin.Base.Bytes.{
  byte_at, slice, write, to_le_bytes, from_le_bytes, length-write, byte_at-write_ne, slice-write,
  slice-eq, length-to_le_bytes, from-to_le_bytes,
}
use hidpin.Error.{ok, err, invalid_argument, ◌>>=◌}
use hidpin.Protocol.Layout.{report_payload_len, events_per_report, u16_at, u32_at, u64_at}
use hidpin.Protocol.Status.{
  EdgeEvent, StatusReport, write_event, write_events, encode_head, encode, too_many_events,
  event_at, read_events, decode_status,
}

-- The ranges that the types of the fields give, and a GPIO number that fits its five bits.
pub record EventInRange (e : EdgeEvent) : Type 0 where
  pub gpio_range : e.gpio < 32
  pub age_range : e.age_us < 2 ^ 32

pub record InRange (r : StatusReport) : Type 0 where
  pub seq_range : r.seq < 2 ^ 16
  pub monitored_range : r.monitored < 2 ^ 32
  pub outputs_range : r.outputs < 2 ^ 32
  pub levels_range : r.levels < 2 ^ 32
  pub timestamp_range : r.timestamp_us < 2 ^ 64
  pub events_range : All EventInRange r.events

head_gpio :
    (b : Bool) (g : ℕ) → g < 32 → bit_and (bit_or (bit_and g 0x1f) (if b then 0x80 else 0)) 0x1f ≡ g
unfolding equal_below
head_gpio true = equal_below_sound _ (λ g. g) 32 refl
head_gpio false = equal_below_sound _ (λ g. g) 32 refl

head_level :
    (b : Bool) (g : ℕ)
    → g < 32
    → bit_and (bit_or (bit_and g 0x1f) (if b then 0x80 else 0)) 0x80 ≡ (if b then 0x80 else 0)
unfolding equal_below
head_level true = equal_below_sound _ (λ g. 0x80) 32 refl
head_level false = equal_below_sound _ (λ g. 0) 32 refl

length-write_event : (i : ℕ) (e : EdgeEvent) (p : List ℕ) → length (write_event i e p) ≡ length p
unfolding write_event
length-write_event i e p = length-write _ _ (to_le_bytes 4 e.age_us) ∙ length-set p _ _

byte_at-write_event_below :
    (i : ℕ) (e : EdgeEvent) (p : List ℕ) (j : ℕ)
    → j < 28 + 5 * i
    → byte_at (write_event i e p) j ≡ byte_at p j
unfolding write_event
byte_at-write_event_below i e p j h =
    byte_at-write_ne _ _ j (to_le_bytes 4 e.age_us) (inl (omega arith))
    ∙ get_or-set_ne p _ j _ 0 (omega arith)

byte_at-write_events_below :
    (i : ℕ) (es : List EdgeEvent) (p : List ℕ) (j : ℕ)
    → j < 28 + 5 * i
    → byte_at (write_events i es p) j ≡ byte_at p j
unfolding write_events
byte_at-write_events_below i [] p j h = refl
byte_at-write_events_below i (e ∷ es) p j h =
    byte_at-write_events_below (suc i) es (write_event i e p) j (omega arith)
    ∙ byte_at-write_event_below i e p j h

pub length-write_events :
    (i : ℕ) (es : List EdgeEvent) (p : List ℕ) → length (write_events i es p) ≡ length p
unfolding write_events
length-write_events i [] p = refl
length-write_events i (e ∷ es) p =
    length-write_events (suc i) es (write_event i e p) ∙ length-write_event i e p

-- Later events leave event `i` alone.
event_at-write_events :
    (i : ℕ) (es : List EdgeEvent) (p : List ℕ)
    → event_at (write_events (suc i) es p) i ≡ event_at p i
unfolding event_at u32_at
event_at-write_events i es p =
    rw (byte_at-write_events_below (suc i) es p (28 + 5 * i) (omega arith), ages)
  where
    ages : slice (write_events (suc i) es p) (28 + 5 * i + 1) 4 ≡ slice p (28 + 5 * i + 1) 4
    ages = slice-eq _ p _ 4 (λ j a b. byte_at-write_events_below (suc i) es p j (omega arith))

event_at-write_event :
    (i : ℕ) (e : EdgeEvent) (p : List ℕ)
    → EventInRange e
    → 28 + 5 * suc i ≤ length p
    → event_at (write_event i e p) i ≡ e
unfolding event_at write_event u32_at to_le_bytes
event_at-write_event i e p v h = ground (
  arith,
  first,
  head_gpio e.level e.gpio v.gpio_range,
  head_level e.level e.gpio v.gpio_range,
  ages,
)
  where
    head : ℕ
    head = bit_or (bit_and e.gpio 0x1f) (if e.level then 0x80 else 0)

    written : List ℕ
    written = write (set p (28 + 5 * i) head) (28 + 5 * i + 1) (to_le_bytes 4 e.age_us)

    first : byte_at written (28 + 5 * i) ≡ head
    first =
        byte_at-write_ne _ _ _ (to_le_bytes 4 e.age_us) (inl (omega arith))
        ∙ get_or-set_self p (28 + 5 * i) head 0 (omega arith)

    ages : from_le_bytes (slice written (28 + 5 * i + 1) 4) ≡ e.age_us
    ages =
        ap from_le_bytes (
          slice-write (set p (28 + 5 * i) head) (28 + 5 * i + 1) (to_le_bytes 4 e.age_us)
            (omega (arith, length-set p (28 + 5 * i) head, length-to_le_bytes 4 e.age_us)))
        ∙ from-to_le_bytes 4 e.age_us v.age_range

read-write_events :
    (i : ℕ) (es : List EdgeEvent) (p : List ℕ)
    → All EventInRange es
    → 28 + 5 * (i + length es) ≤ length p
    → read_events (write_events i es p) i (length es) ≡ es
unfolding read_events write_events
read-write_events i [] p v h = refl
read-write_events i (e ∷ es) p v h =
    ap₂ ◌∷◌
      (event_at-write_events i es (write_event i e p)
        ∙ event_at-write_event i e p v.0 (omega arith))
      (read-write_events (suc i) es (write_event i e p) v.1
        (omega (arith, length-write_event i e p)))

-- The fields before the events.
module _ (r : StatusReport) (v : InRange r) (few : length r.events ≤ events_per_report) where
  encoded : List ℕ
  encoded = write_events 0 r.events (encode_head r)

  head_kept : (j n : ℕ) → j + n ≤ 28 → slice encoded j n ≡ slice (encode_head r) j n
  unfolding encoded
  head_kept j n h =
      slice-eq _ _ j n (λ k a b. byte_at-write_events_below 0 r.events _ k (omega arith))

  byte_kept : (j : ℕ) → j < 28 → byte_at encoded j ≡ byte_at (encode_head r) j
  unfolding encoded
  byte_kept j h = byte_at-write_events_below 0 r.events _ j h

  length-encode_head : length (encode_head r) ≡ report_payload_len
  unfolding encode_head write to_le_bytes
  length-encode_head = refl

  seq_read : u16_at encoded 0 ≡ r.seq
  unfolding u16_at encode_head write to_le_bytes slice from_le_bytes
  seq_read = ap from_le_bytes (head_kept 0 2 (omega arith)) ∙ from-to_le_bytes 2 r.seq v.seq_range

  monitored_read : u32_at encoded 8 ≡ r.monitored
  unfolding u32_at encode_head write to_le_bytes slice from_le_bytes
  monitored_read =
      ap from_le_bytes (head_kept 8 4 (omega arith))
      ∙ from-to_le_bytes 4 r.monitored v.monitored_range

  outputs_read : u32_at encoded 12 ≡ r.outputs
  unfolding u32_at encode_head write to_le_bytes slice from_le_bytes
  outputs_read =
      ap from_le_bytes (head_kept 12 4 (omega arith)) ∙ from-to_le_bytes 4 r.outputs v.outputs_range

  levels_read : u32_at encoded 16 ≡ r.levels
  unfolding u32_at encode_head write to_le_bytes slice from_le_bytes
  levels_read =
      ap from_le_bytes (head_kept 16 4 (omega arith)) ∙ from-to_le_bytes 4 r.levels v.levels_range

  timestamp_read : u64_at encoded 20 ≡ r.timestamp_us
  unfolding u64_at encode_head write to_le_bytes slice from_le_bytes
  timestamp_read =
      ap from_le_bytes (head_kept 20 8 (omega arith))
      ∙ from-to_le_bytes 8 r.timestamp_us v.timestamp_range

  reason_read : byte_at encoded 2 ≡ r.reason
  unfolding encode_head write to_le_bytes
  reason_read = byte_kept 2 (omega arith)

  flags_read : byte_at encoded 3 ≡ r.flags
  unfolding encode_head write to_le_bytes
  flags_read = byte_kept 3 (omega arith)

  count_read : byte_at encoded 4 ≡ length r.events
  unfolding encode_head write to_le_bytes
  count_read = byte_kept 4 (omega arith) ∙ omega arith

  events_read : read_events encoded 0 (length r.events) ≡ r.events
  unfolding encoded
  events_read =
      read-write_events 0 r.events (encode_head r) v.events_range
        (omega (arith, length-encode_head))

  length-encoded : length encoded ≡ report_payload_len
  unfolding encoded
  length-encoded = length-write_events 0 r.events (encode_head r) ∙ length-encode_head

  decode_encoded : decode_status encoded ≡ ok r
  unfolding decode_status
  decode_encoded = ground (
    arith, seq_read, monitored_read, outputs_read, levels_read, timestamp_read, reason_read,
    flags_read, count_read, events_read, length-encoded,
  )

-- A status report within its ranges is encoded and decoded without loss if it has at most seven
-- events; with more than seven it is not encoded at all.
pub decode-encode_status :
    (r : StatusReport)
    → InRange r
    → (encode r >>= decode_status) ≡ (
        if leb (length r.events) events_per_report
        then ok r
        else err (invalid_argument too_many_events))
unfolding encode encoded
decode-encode_status r v = elim (Bool-cases (ltb events_per_report (length r.events))) [
  | inl e ↦ ground arith
  | inr e ↦ ground (arith, decode_encoded r v (ground arith))
]
