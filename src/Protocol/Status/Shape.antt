-- ===== src/Protocol/Status/Shape.antt =====
-- Which payloads are status reports, and what decoding makes of them (rust/src/protocol.rs).
use mathlib.Core.Path.{subst}
use hidpin.Base.{
  ℕ, zero, suc, ◌+◌, ◌*◌, ◌≤◌, ◌<◌, ◌≡◌, refl, ap, ◌∙◌, ◌%◌, inl, inr, List, ltb, ◌==◌, Bool-cases,
  length, All, arith, bit_and,
}
use hidpin.Base.Bits.Tables.{equal_below, equal_below_sound}
use hidpin.Base.Bytes.{AllBytes, byte_at, byte_at_lt, from_le_bytes-slice_lt}
use hidpin.Error.{Result, ok, err, ◌>>=◌}
use hidpin.Protocol.Layout.{report_payload_len, events_per_report, u16_at, u32_at, u64_at}
use hidpin.Protocol.Status.{StatusReport, event_at, read_events, encode, decode_status}
use hidpin.Protocol.Status.RoundTrip.{EventInRange, InRange, decode-encode_status}

masked_lt : (b : ℕ) → b < 256 → bit_and b 0x1f ≡ b % 32
unfolding equal_below
masked_lt = equal_below_sound _ _ 256 refl

event_at-EventInRange : (p : List ℕ) (i : ℕ) → AllBytes p → EventInRange (event_at p i)
unfolding event_at u32_at
event_at-EventInRange p i h = record {
  gpio_range =
      omega (arith, masked_lt _ (byte_at_lt p (28 + 5 * i) h), byte_at_lt p (28 + 5 * i) h);
  age_range = from_le_bytes-slice_lt p _ 4 h;
}

read_events-EventInRange :
    (p : List ℕ) (i n : ℕ) → AllBytes p → All EventInRange (read_events p i n)
unfolding read_events
read_events-EventInRange p i zero h = tt
read_events-EventInRange p i (suc n) h =
    (event_at-EventInRange p i h, read_events-EventInRange p (suc i) n h)

length-read_events : (p : List ℕ) (i n : ℕ) → length (read_events p i n) ≡ n
unfolding read_events
length-read_events p i zero = refl
length-read_events p i (suc n) = ap suc (length-read_events p (suc i) n)

-- What a decoding result says of the payload.
abbrev pub Decodes : List ℕ → Result StatusReport → Type 0
Decodes p (ok r) =
    (length p ≡ report_payload_len)
    × (byte_at p 4 ≤ events_per_report)
    × (length r.events ≡ byte_at p 4)
    × InRange r
Decodes p (err e) = ¬ ((length p ≡ report_payload_len) × (byte_at p 4 ≤ events_per_report))

-- A payload decodes exactly when it is 63 bytes long and its event count is at most seven; the
-- report then has that many events, and every field is within its range.
pub decode_status-Decodes : (p : List ℕ) → AllBytes p → Decodes p (decode_status p)
unfolding decode_status u16_at u32_at u64_at
decode_status-Decodes p h = elim (Bool-cases (length p == report_payload_len)) [
  | inr e ↦ rw e (λ both. ground arith)
  | inl e ↦ elim (Bool-cases (ltb events_per_report (byte_at p 4))) [
    | inl f ↦ rw (e, f) (λ both. ground arith)
    | inr f ↦ rw (e, f) (ground arith, ground arith, length-read_events p 0 (byte_at p 4), ranges)
  ]
]
  where
    ranges : InRange (record {
      seq = u16_at p 0;
      reason = byte_at p 2;
      flags = byte_at p 3;
      monitored = u32_at p 8;
      outputs = u32_at p 12;
      levels = u32_at p 16;
      timestamp_us = u64_at p 20;
      events = read_events p 0 (byte_at p 4);
    })
    ranges = record {
      seq_range = from_le_bytes-slice_lt p 0 2 h;
      monitored_range = from_le_bytes-slice_lt p 8 4 h;
      outputs_range = from_le_bytes-slice_lt p 12 4 h;
      levels_range = from_le_bytes-slice_lt p 16 4 h;
      timestamp_range = from_le_bytes-slice_lt p 20 8 h;
      events_range = read_events-EventInRange p 0 (byte_at p 4) h;
    }

-- A report that was decoded is encoded again, and decodes to itself.
pub encode-decode_status :
    (p : List ℕ) (r : StatusReport)
    → AllBytes p
    → decode_status p ≡ ok r
    → (encode r >>= decode_status) ≡ ok r
encode-decode_status p r h e =
    let (_, few, count, ranges) = subst (Decodes p) e (decode_status-Decodes p h) in
    decode-encode_status r ranges ∙ ground arith
