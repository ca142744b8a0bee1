-- ===== src/Protocol/Status.antt =====
-- The status report of rust/src/protocol.rs, report ID 1: edge events, encoding and decoding.
pub mod RoundTrip
pub mod Shape
use hidpin.Base.{
  ℕ, zero, suc, ◌+◌, ◌-◌, ◌*◌, ◌%◌, ◌^◌, Bool, true, false, not, Option, none, some, List, [], ◌∷◌,
  ◌++◌, ltb, ◌==◌, if◌then◌else◌, length, set, replicate, bit_and, bit_or,
}
use hidpin.Base.Bits.{bit}
use hidpin.Base.Bytes.{byte_at, write, to_le_bytes}
use hidpin.Base.Text.{Text, text, decimal}
use hidpin.Error.{Result, ok, err, malformed, invalid_argument}
use hidpin.Protocol.Flags
use hidpin.Protocol.Layout.{
  report_payload_len, events_per_report, saturated_age_us, status_events_offset, event_len, u16_at,
  u32_at, u64_at, wrong_length,
}

pub record EdgeEvent : Type 0 where
  pub gpio : ℕ
  pub level : Bool
  pub age_us : ℕ

-- True when the change is older than the 32-bit age can express.
unfoldable pub saturated : EdgeEvent → Bool
saturated e = e.age_us == saturated_age_us

-- The device time the change began; the subtraction wraps in 64 bits.
unfoldable pub start_us : EdgeEvent → ℕ → Option ℕ
unfolding saturated
start_us e report_timestamp_us =
    if saturated e then none else some ((report_timestamp_us + 2 ^ 64 - e.age_us) % 2 ^ 64)

pub record StatusReport : Type 0 where
  pub seq : ℕ
  pub reason : ℕ
  pub flags : ℕ
  pub monitored : ℕ
  pub outputs : ℕ
  pub levels : ℕ
  pub timestamp_us : ℕ
  pub events : List EdgeEvent

unfoldable pub overflow : StatusReport → Bool
overflow r = Flags.contains r.flags Flags.overflow

unfoldable pub more_events : StatusReport → Bool
more_events r = Flags.contains r.flags Flags.more_events

-- The pin level or output level of a GPIO.
unfoldable pub level_of : StatusReport → ℕ → Bool
level_of r gpio = bit r.levels gpio

unfoldable pub is_monitored : StatusReport → ℕ → Bool
is_monitored r gpio = bit r.monitored gpio

unfoldable pub is_output : StatusReport → ℕ → Bool
is_output r gpio = bit r.outputs gpio

-- The five bytes of event `i`.
unfoldable pub write_event : ℕ → EdgeEvent → List ℕ → List ℕ
write_event i e p =
    let start = status_events_offset + event_len * i in
    let head = bit_or (bit_and e.gpio 0x1f) (if e.level then 0x80 else 0) in
    write (set p start head) (start + 1) (to_le_bytes 4 e.age_us)

unfoldable pub write_events : ℕ → List EdgeEvent → List ℕ → List ℕ
write_events i [] p = p
write_events i (e ∷ es) p = write_events (suc i) es (write_event i e p)

-- The 28 bytes before the events, and the rest still zero.
unfoldable pub encode_head : StatusReport → List ℕ
encode_head r =
    let p0 = replicate report_payload_len 0 in
    let p1 = write p0 0 (to_le_bytes 2 r.seq) in
    let p2 = set p1 2 r.reason in
    let p3 = set p2 3 r.flags in
    let p4 = set p3 4 (length r.events % 256) in
    let p5 = write p4 8 (to_le_bytes 4 r.monitored) in
    let p6 = write p5 12 (to_le_bytes 4 r.outputs) in
    let p7 = write p6 16 (to_le_bytes 4 r.levels) in write p7 20 (to_le_bytes 8 r.timestamp_us)

unfoldable pub too_many_events : Text
too_many_events = text "at most " ++ (decimal events_per_report ++ text " events fit in one report")

-- `StatusReport::encode`
unfoldable pub encode : StatusReport → Result (List ℕ)
encode r =
    if ltb events_per_report (length r.events)
    then err (invalid_argument too_many_events)
    else ok (write_events 0 r.events (encode_head r))

unfoldable pub event_at : List ℕ → ℕ → EdgeEvent
event_at p i =
    let start = status_events_offset + event_len * i in
    record {
      gpio = bit_and (byte_at p start) 0x1f;
      level = not (bit_and (byte_at p start) 0x80 == 0);
      age_us = u32_at p (start + 1);
    }

-- Events `i` to `i + n - 1`.
unfoldable pub read_events : List ℕ → ℕ → ℕ → List EdgeEvent
read_events p i zero = []
read_events p i (suc n) = event_at p i ∷ read_events p (suc i) n

unfoldable pub decode_status : List ℕ → Result StatusReport
decode_status p =
    if not (length p == report_payload_len)
    then err (malformed (wrong_length (text "status") report_payload_len (length p)))
    else if ltb events_per_report (byte_at p 4)
    then err (
        malformed (
          text "event_count "
          ++ (decimal (byte_at p 4) ++ (text " exceeds " ++ decimal events_per_report))))
    else ok (record {
      seq = u16_at p 0;
      reason = byte_at p 2;
      flags = byte_at p 3;
      monitored = u32_at p 8;
      outputs = u32_at p 12;
      levels = u32_at p 16;
      timestamp_us = u64_at p 20;
      events = read_events p 0 (byte_at p 4);
    })
