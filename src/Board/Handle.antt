-- ===== src/Board/Handle.antt =====
-- `FakeHandle` of rust/src/testing.rs: the transport of an open handle of a simulated board.
use hidpin.Base.{
  Bool-cases, inl, inr, arith, ℕ, ◌+◌, ◌-◌, Bool, true, false, not, Option, none, some, List, [],
  ◌∷◌, ◌++◌, ◌==◌, if◌then◌else◌, length, set, take, drop, filter, min, bit_and, bit_or,
}
use hidpin.Base.Bits.{complement32}
use hidpin.Base.Bytes.{byte_at, write}
use hidpin.Base.Text.{Text, text}
use hidpin.Error.{
  ErrorKind, IoError, not_connected, invalid_input, other, Result, ok, err, open_error,
}
use hidpin.Protocol.Config
use hidpin.Protocol.Flags
use hidpin.Protocol.Info
use hidpin.Protocol.Layout.{
  report_id_status, report_id_device_info, report_id_pin_config, report_id_output,
}
use hidpin.Protocol.Output.{decode_output}
use hidpin.Protocol.Pins.{outputs_mask}
use hidpin.Protocol.Status
use hidpin.Transport.{FitsIn, IoOutcome, returned, failed, waits}
use hidpin.Board.{Board, empty_queue, queue_at, status, send}
use hidpin.Board.Config.{write_config}

abbrev pub gone : IoError
gone = record { kind = not_connected; shown = text "the device is gone" }

abbrev pub closed_handle : IoError
closed_handle = record { kind = other; shown = text "the handle is closed" }

-- `FakeHandle::check`
unfoldable pub check : ℕ → Board → Option IoError
check h b =
    let q = queue_at b.queues h in
    if q.closed then some closed_handle else if q.failed then some gone else none

-- A transport call that begins with `self.check()?`.
abbrev pub checked :
    {A : Type 0} → Option IoError → IoOutcome A × Board → Board → IoOutcome A × Board
checked none r b = r
checked (some e) r b = (failed e, b)

-- `buf[1..1 + n].copy_from_slice(&payload[..n])` with `n` bounded by the buffer.
abbrev pub fill : List ℕ → List ℕ → List ℕ
fill buf payload = write buf 1 (take (min (length payload) (length buf - 1)) payload)

abbrev pub filled : List ℕ → List ℕ → ℕ
filled buf payload = min (length payload) (length buf - 1) + 1

unfoldable pub take_report :
    ℕ → List (List ℕ) → List ℕ → Option ℕ → Board → IoOutcome ℕ × List ℕ × Board
take_report h [] buf none b = (waits, buf, b)
take_report h [] buf (some timeout) b = (returned 0, buf, b)
take_report h (report ∷ rest) buf timeout b =
    let n = min (length report) (length buf) in
    (
      returned n,
      write buf 0 (take n report),
      record b { queues = set b.queues h (record (queue_at b.queues h) { reports = rest }) },
    )

-- `read`: the next queued report. An empty queue returns 0 when the timeout expires; without a
-- timeout the call waits for another thread.
unfoldable pub read : ℕ → List ℕ → Option ℕ → Board → IoOutcome ℕ × List ℕ × Board
read h buf timeout b =
    let q = queue_at b.queues h in
    if q.failed then (failed gone, buf, b) else take_report h q.reports buf timeout b

take_report-FitsIn :
    (h : ℕ) (reports : List (List ℕ)) (buf : List ℕ) (timeout : Option ℕ) (b : Board)
    → FitsIn (length buf) (take_report h reports buf timeout b).0
unfolding take_report
take_report-FitsIn h [] buf none b = tt
take_report-FitsIn h [] buf (some timeout) b = omega arith
take_report-FitsIn h (report ∷ reports) buf timeout b = ground arith

pub read-FitsIn :
    (h : ℕ) (buf : List ℕ) (timeout : Option ℕ) (b : Board)
    → FitsIn (length buf) (read h buf timeout b).0
unfolding read
read-FitsIn h buf timeout b = elim (Bool-cases (queue_at b.queues h).failed) [
  | inl e ↦ rw e tt
  | inr e ↦ rw e (take_report-FitsIn h (queue_at b.queues h).reports buf timeout b)
]

unfoldable pub apply_output : List ℕ → Result (ℕ × ℕ) → Board → Board
apply_output report (err e) b = b
apply_output report (ok (mask, value)) b =
    let driven = bit_and mask (outputs_mask b.config) in
    send Flags.output_applied []
      (record b { levels = bit_or (bit_and b.levels (complement32 driven)) (bit_and value driven) })

unfoldable pub unexpected_output : IoError
unexpected_output = record { kind = invalid_input; shown = text "unexpected output report" }

unfoldable pub unexpected_feature : IoError
unexpected_feature = record { kind = invalid_input; shown = text "unexpected feature report" }

-- `report.first() == Some(&id)`
abbrev starts_with : ℕ → List ℕ → Bool
starts_with id [] = false
starts_with id (b ∷ bs) = b == id

-- `write`: an output command; one that does not decode is ignored.
unfoldable pub write_report : ℕ → List ℕ → Board → IoOutcome ℕ × Board
write_report h report b =
    checked (check h b)
      (if starts_with report_id_output report
        then (returned (length report), apply_output report (decode_output (drop 1 report)) b)
        else (failed unexpected_output, b))
      b

-- The payload of a feature report.
unfoldable pub feature_payload : ℕ → Board → Option (List ℕ)
feature_payload id b =
    if id == report_id_device_info
    then some (Info.encode b.info)
    else if id == report_id_pin_config
    then some (
        Config.encode (record {
          result = b.result;
          result_gpio = b.result_gpio;
          request_id = b.request_id;
          config = b.config;
        }))
    else none

unfoldable pub answer : List ℕ → Option (List ℕ) → Board → IoOutcome ℕ × List ℕ × Board
answer buf none b = (failed unexpected_feature, buf, b)
answer buf (some payload) b = (returned (filled buf payload), fill buf payload, b)

unfoldable pub guarded :
    Option IoError → List ℕ → IoOutcome ℕ × List ℕ × Board → Board → IoOutcome ℕ × List ℕ × Board
guarded none buf r b = r
guarded (some e) buf r b = (failed e, buf, b)

-- `get_feature_report`
unfoldable pub get_feature_report : ℕ → List ℕ → Board → IoOutcome ℕ × List ℕ × Board
get_feature_report h buf b =
    guarded (check h b) buf (answer buf (feature_payload (byte_at buf 0) b) b) b

-- `send_feature_report`: a pin configuration Set.
unfoldable pub send_feature_report : ℕ → List ℕ → Board → IoOutcome ℕ × Board
send_feature_report h report b =
    checked (check h b)
      (if starts_with report_id_pin_config report
        then (returned (length report), write_config (drop 1 report) b)
        else (failed unexpected_feature, b))
      b

abbrev status_payload : Result (List ℕ) → List ℕ
status_payload (ok p) = p
status_payload (err e) = []

-- `get_input_report`: the current state, with the seq of the last report sent.
unfoldable pub get_input_report : ℕ → List ℕ → Board → IoOutcome ℕ × List ℕ × Board
get_input_report h buf b =
    let payload = status_payload (Status.encode (status b Flags.host_request [] b.last_seq 0)) in
    guarded (check h b) buf
      (returned (filled buf payload), fill (set buf 0 report_id_status) payload, b) b

-- Dropping the handle.
unfoldable pub close : ℕ → Board → Board
close h b = record b {
  handles = filter (λ k. not (k == h)) b.handles;
  queues = set b.queues h (record (queue_at b.queues h) { closed = true });
}

-- `FakeBoard::open`; `kind_text` is the text that the standard library shows for a kind.
unfoldable pub open_board : (ErrorKind → Text) → Board → Result ℕ × Board
open_board kind_text b = elim b.fails_to_open [
  | some kind ↦ (err (open_error b.path (record { kind = kind; shown = kind_text kind })), b)
  | none ↦ (
    ok (length b.queues),
    record b {
      handles = b.handles ++ (length b.queues ∷ []);
      queues = b.queues ++ (empty_queue ∷ []);
    },
  )
]
