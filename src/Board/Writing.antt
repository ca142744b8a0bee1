-- ===== src/Board/Writing.antt =====
-- Writing a pin configuration to the simulated board: `write_config` of rust/src/testing.rs.
use hidpin.Base.{
  ℕ, zero, suc, ◌≡◌, ◌≢◌, refl, sym, ◌∙◌, inl, inr, Bool, Bool-cases, List, [], ◌∷◌, ◌++◌, ltb,
  ==_iff, ◌==◌, if◌then◌else◌, length, set, arith,
}
use hidpin.Protocol.Config.{PinConfigReport, encode, validate_pin_config}
use hidpin.Protocol.Config.RoundTrip.{decode-encode_pin_config}
use hidpin.Protocol.Config.Accepted.{validate-encode}
use hidpin.Protocol.Flags
use hidpin.Protocol.Layout.{gpio_count}
use hidpin.Protocol.Pins.{PinConfig, config_eq}
use hidpin.Protocol.Pins.Equality.{config_eq_sound}
use hidpin.Protocol.ResultCode
use hidpin.Protocol.Status.{EdgeEvent}
use hidpin.Board.{Board, HandleQueue, queue_at, queue_len, push_report, send}
use hidpin.Board.Config.{new_levels, apply_config, write_config}

-- A write of one queue that keeps a flag keeps it at every queue.
flag-set :
    (f : HandleQueue → Bool) (qs : List HandleQueue) (i h : ℕ) (v : HandleQueue)
    → f v ≡ f (queue_at qs i)
    → f (queue_at (set qs i v) h) ≡ f (queue_at qs h)
flag-set f [] i h v e = refl
flag-set f (q ∷ qs) zero zero v e = e
flag-set f (q ∷ qs) zero (suc h) v e = refl
flag-set f (q ∷ qs) (suc i) zero v e = refl
flag-set f (q ∷ qs) (suc i) (suc h) v e = flag-set f qs i h v e

-- Queuing a report marks no handle as failed or closed.
pub flag-push_report :
    (f : HandleQueue → Bool)
    → ((q : HandleQueue) (rs : List (List ℕ)) → f (record q { reports = rs }) ≡ f q)
    → (report : List ℕ) (hs : List ℕ) (qs : List HandleQueue) (h : ℕ)
    → f (queue_at (push_report report hs qs) h) ≡ f (queue_at qs h)
unfolding push_report
flag-push_report f keep report [] qs h = refl
flag-push_report f keep report (k ∷ hs) qs h = flag-push_report f keep report hs _ h ∙ once
  where
    once :
        f (
          queue_at
            (if ltb (length (queue_at qs k).reports) queue_len
              then set qs k
                  (record (queue_at qs k) { reports = (queue_at qs k).reports ++ (report ∷ []) })
              else qs)
            h)
        ≡ f (queue_at qs h)
    once = elim (Bool-cases (ltb (length (queue_at qs k).reports) queue_len)) [
      | inl e ↦ rw e (flag-set f qs k h _ (keep (queue_at qs k) _))
      | inr e ↦ rw e
    ]

-- What a step of the board leaves alone: what it is, whether and where it is plugged in, the
-- electrical values of its pins, which handles are open, and whether they failed or are closed.
pub record Keeps (b c : Board) : Type 0 where
  pub same_info : c.info ≡ b.info
  pub same_serial : c.serial ≡ b.serial
  pub same_path : c.path ≡ b.path
  pub same_powered : c.powered ≡ b.powered
  pub same_inputs : c.inputs ≡ b.inputs
  pub same_handles : c.handles ≡ b.handles
  pub same_failed : (h : ℕ) → (queue_at c.queues h).failed ≡ (queue_at b.queues h).failed
  pub same_closed : (h : ℕ) → (queue_at c.queues h).closed ≡ (queue_at b.queues h).closed

pub send-Keeps : (reason : ℕ) (events : List EdgeEvent) (b : Board) → Keeps b (send reason events b)
unfolding send
send-Keeps reason events b = record {
  same_info = refl;
  same_serial = refl;
  same_path = refl;
  same_powered = refl;
  same_inputs = refl;
  same_handles = refl;
  same_failed = λ h. flag-push_report (λ q. q.failed) (λ q rs. refl) _ b.handles b.queues h;
  same_closed = λ h. flag-push_report (λ q. q.closed) (λ q rs. refl) _ b.handles b.queues h;
}

-- The board after a configuration was applied: it has the configuration, and its result is as
-- before.
pub record Applied (next : PinConfig) (b c : Board) : Type 0 where
  pub now_config : c.config ≡ next
  pub same_result : c.result ≡ b.result
  pub same_gpio : c.result_gpio ≡ b.result_gpio
  pub same_id : c.request_id ≡ b.request_id
  pub keeps : Keeps b c

send-Applied :
    (reason : ℕ) (events : List EdgeEvent) (b : Board) → Applied b.config b (send reason events b)
unfolding send
send-Applied reason events b = record {
  now_config = refl;
  same_result = refl;
  same_gpio = refl;
  same_id = refl;
  keeps = send-Keeps reason events b;
}

-- Applying a configuration leaves the board with it.
pub apply_config-Applied : (next : PinConfig) (b : Board) → Applied next b (apply_config next b)
unfolding apply_config
apply_config-Applied next b = elim (Bool-cases (config_eq next b.config)) [
  | inl e ↦ rw e (record {
    now_config = sym (config_eq_sound next b.config e);
    same_result = refl;
    same_gpio = refl;
    same_id = refl;
    keeps = record {
      same_info = refl;
      same_serial = refl;
      same_path = refl;
      same_powered = refl;
      same_inputs = refl;
      same_handles = refl;
      same_failed = λ h. refl;
      same_closed = λ h. refl;
    };
  })
  | inr e ↦ rw e (
      let moved : Board = record b {
        config = next;
        levels = new_levels b.inputs b.config next 0 gpio_count b.levels;
      } in
      let v = send-Applied Flags.config_changed [] moved in
      record {
        now_config = v.now_config;
        same_result = v.same_result;
        same_gpio = v.same_gpio;
        same_id = v.same_id;
        keeps = record {
          same_info = v.keeps.same_info;
          same_serial = v.keeps.same_serial;
          same_path = v.keeps.same_path;
          same_powered = v.keeps.same_powered;
          same_inputs = v.keeps.same_inputs;
          same_handles = v.keeps.same_handles;
          same_failed = v.keeps.same_failed;
          same_closed = v.keeps.same_closed;
        };
      })
]

-- What a Set of a configuration does to the board: the report that is read back next has the
-- result of the validation and the request_id of the payload, and the configuration is the new
-- one if the validation accepts it, and the old one if not.
pub record Written (r : PinConfigReport) (b c : Board) : Type 0 where
  pub verdict : (c.result, c.result_gpio) ≡ validate_pin_config r.config b.info.available
  pub id_recorded : c.request_id ≡ r.request_id
  pub applied : c.result ≡ ResultCode.ok → c.config ≡ r.config
  pub refused : c.result ≢ ResultCode.ok → c.config ≡ b.config
  pub keeps : Keeps b c

abbrev noted_board : PinConfigReport → Board → Board
noted_board r b =
    let (result, gpio) = validate_pin_config r.config b.info.available in
    record b { result = result; result_gpio = gpio; request_id = r.request_id }

-- Writing the payload of a configuration of 30 settings to a board records the verdict of the
-- validation and the request_id; the configuration is the new one if the verdict is `ok`, and the
-- old one if not. The board's information, serial number, path, power and electrical values stay as
-- they are, and the same handles are open, of which none fails or closes.
pub write_config-Written :
    (r : PinConfigReport) (b : Board)
    → length r.config ≡ gpio_count
    → Written r b (write_config (encode r) b)
unfolding write_config
write_config-Written r b len =
    rw (validate-encode r b.info.available len, decode-encode_pin_config r len)
      (elim (Bool-cases ((validate_pin_config r.config b.info.available).0 == ResultCode.ok)) [
        | inl e ↦ rw e (
            let noted = noted_board r b in
            let v = apply_config-Applied r.config noted in
            record {
              verdict = λ i. (v.same_result i, v.same_gpio i);
              id_recorded = v.same_id;
              applied = λ h. v.now_config;
              refused = λ h. absurd (h (v.same_result ∙ (==_iff _ ResultCode.ok).0 e));
              keeps = record {
                same_info = v.keeps.same_info;
                same_serial = v.keeps.same_serial;
                same_path = v.keeps.same_path;
                same_powered = v.keeps.same_powered;
                same_inputs = v.keeps.same_inputs;
                same_handles = v.keeps.same_handles;
                same_failed = v.keeps.same_failed;
                same_closed = v.keeps.same_closed;
              };
            })
        | inr e ↦ rw e (record {
          verdict = refl;
          id_recorded = refl;
          applied = λ h. absurd (ground arith);
          refused = λ h. refl;
          keeps = record {
            same_info = refl;
            same_serial = refl;
            same_path = refl;
            same_powered = refl;
            same_inputs = refl;
            same_handles = refl;
            same_failed = λ h. refl;
            same_closed = λ h. refl;
          };
        })
      ])
