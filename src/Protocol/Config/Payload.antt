-- ===== src/Protocol/Config/Payload.antt =====
-- The bytes of an encoded pin configuration, and what reading them back gives.
use hidpin.Base.{
  ℕ, zero, suc, ◌+◌, ◌≤◌, ◌<◌, ◌≡◌, refl, ◌∙◌, inl, inr, Bool-cases, List, [], ◌∷◌, ◌==◌, length,
  length-set, set, get_or-set_self, get_or-set_ne, arith,
}
use hidpin.Base.Bytes.{byte_at}
use hidpin.Error.{Result, ok, err, ◌>>=◌}
use hidpin.Protocol.Layout.{gpio_count, report_payload_len}
use hidpin.Protocol.Pins.{
  PinMode, PinSetting, PinConfig, setting_at, to_u8, try_from, unused_setting,
}
use hidpin.Protocol.Config.{
  PinConfigReport, mode_offset, param_offset, write_settings, encode_head, encode, or_undefined,
  read_settings,
}

pub byte_at-write_settings_below :
    (g : ℕ) (c : PinConfig) (p : List ℕ) (j : ℕ)
    → j < mode_offset g
    → byte_at (write_settings g c p) j ≡ byte_at p j
unfolding write_settings
byte_at-write_settings_below g [] p j h = refl
byte_at-write_settings_below g (s ∷ c) p j h =
    byte_at-write_settings_below (suc g) c _ j (omega arith)
    ∙ get_or-set_ne _ (param_offset g) j s.param 0 (omega arith)
    ∙ get_or-set_ne p (mode_offset g) j (to_u8 s.mode) 0 (omega arith)

pub length-write_settings :
    (g : ℕ) (c : PinConfig) (p : List ℕ) → length (write_settings g c p) ≡ length p
unfolding write_settings
length-write_settings g [] p = refl
length-write_settings g (s ∷ c) p =
    length-write_settings (suc g) c _
    ∙ length-set _ (param_offset g) s.param
    ∙ length-set p (mode_offset g) (to_u8 s.mode)

-- The two bytes of GPIO `j` in a payload are those of the setting.
abbrev pub Holds : List ℕ → ℕ → PinSetting → Type 0
Holds p j s = (byte_at p (mode_offset j) ≡ to_u8 s.mode) × (byte_at p (param_offset j) ≡ s.param)

write_settings-Holds :
    (g k : ℕ) (c : PinConfig) (p : List ℕ)
    → k < length c
    → mode_offset (g + length c) ≤ length p
    → Holds (write_settings g c p) (g + k) (setting_at c k)
unfolding write_settings
write_settings-Holds g k [] p h fits = elim h [ ]
write_settings-Holds g zero (s ∷ c) p h fits =
    let e : g + 0 ≡ g = omega arith in
    rw e (
      byte_at-write_settings_below (suc g) c _ (mode_offset g) (omega arith)
          ∙ get_or-set_ne _ (param_offset g) (mode_offset g) s.param 0 (omega arith)
          ∙ get_or-set_self p (mode_offset g) (to_u8 s.mode) 0 (omega arith),
      byte_at-write_settings_below (suc g) c _ (param_offset g) (omega arith)
          ∙ get_or-set_self _ (param_offset g) s.param 0
              (omega (arith, length-set p (mode_offset g) (to_u8 s.mode))),
    )
write_settings-Holds g (suc k) (s ∷ c) p h fits =
    let e : g + suc k ≡ suc g + k = omega arith in
    rw e (
      write_settings-Holds (suc g) k c _ (omega arith) (
        omega (
          arith,
          length-set (set p (mode_offset g) (to_u8 s.mode)) (param_offset g) s.param,
          length-set p (mode_offset g) (to_u8 s.mode),
        )))

length-encode_head : (r : PinConfigReport) → length (encode_head r) ≡ report_payload_len
unfolding encode_head
length-encode_head r = refl

-- An encoded configuration holds the setting of each of its 30 GPIOs.
pub encode-Holds :
    (r : PinConfigReport) (j : ℕ)
    → length r.config ≡ gpio_count
    → j < gpio_count
    → Holds (encode r) j (setting_at r.config j)
unfolding encode
encode-Holds r j len h =
    let e : 0 + j ≡ j = omega arith in
    rw e at (
      write_settings-Holds 0 j r.config (encode_head r) (omega arith)
        (omega (arith, length-encode_head r)))

pub length-encode : (r : PinConfigReport) → length (encode r) ≡ report_payload_len
unfolding encode
length-encode r = length-write_settings 0 r.config (encode_head r) ∙ length-encode_head r

-- The three bytes before the settings.
pub byte_at-encode_head :
    (r : PinConfigReport) (j : ℕ) → j < 3 → byte_at (encode r) j ≡ byte_at (encode_head r) j
unfolding encode
byte_at-encode_head r j h = byte_at-write_settings_below 0 r.config (encode_head r) j h

-- The outcome of reading a mode byte.
abbrev pub Tries : ℕ → Result PinMode → Type 0
Tries b (ok m) = b ≡ to_u8 m
Tries b (err e) = 4 < b

pub try_from-Tries : (b : ℕ) → Tries b (try_from b)
unfolding try_from to_u8
try_from-Tries zero = refl
try_from-Tries (suc zero) = refl
try_from-Tries (suc (suc zero)) = refl
try_from-Tries (suc (suc (suc zero))) = refl
try_from-Tries (suc (suc (suc (suc zero)))) = refl
try_from-Tries (suc (suc (suc (suc (suc b))))) = ground arith

-- What reading the settings of GPIOs `g` to `g + n - 1` into `acc` gives.
abbrev pub Reads : List ℕ → ℕ → ℕ → PinConfig → Result PinConfig → Type 0
Reads p g n acc (ok d) =
    (length d ≡ length acc)
    × ((j : ℕ) → j < g → setting_at d j ≡ setting_at acc j)
    × ((j : ℕ) → g ≤ j → j < g + n → Holds p j (setting_at d j))
Reads p g n acc (err e) = (j : ℕ) × (g ≤ j) × (j < g + n) × (4 < byte_at p (mode_offset j))

module _ (p : List ℕ) (g n : ℕ) (acc : PinConfig) (room : g < length acc) where
  abbrev read_one : PinMode → PinSetting
  read_one m = record { mode = m; param = byte_at p (param_offset g) }

  Reads-next :
      (m : PinMode) (r : Result PinConfig)
      → byte_at p (mode_offset g) ≡ to_u8 m
      → Reads p (suc g) n (set acc g (read_one m)) r
      → Reads p g (suc n) acc r
  Reads-next m (err e) h (j, lo, hi, bad) = (j, omega arith, omega arith, bad)
  Reads-next m (ok d) h (same, below, inside) =
      (same ∙ length-set acc g (read_one m), earlier, each)
    where
      earlier : (j : ℕ) → j < g → setting_at d j ≡ setting_at acc j
      earlier j k =
          below j (omega arith) ∙ get_or-set_ne acc g j (read_one m) unused_setting (omega arith)

      own : setting_at d g ≡ read_one m
      own = below g (omega arith) ∙ get_or-set_self acc g (read_one m) unused_setting room

      each : (j : ℕ) → g ≤ j → j < g + suc n → Holds p j (setting_at d j)
      each j lo hi = elim (Bool-cases (j == g)) [
        | inl e ↦ let e' : j ≡ g = ground arith in rw (e', own) (h, refl)
        | inr e ↦ inside j (ground arith) (omega arith)
      ]

  Reads-step :
      (r : Result PinMode)
      → Tries (byte_at p (mode_offset g)) r
      → (next : PinMode → Result PinConfig)
      → ((m : PinMode) → Reads p (suc g) n (set acc g (read_one m)) (next m))
      → Reads p g (suc n) acc (or_undefined r (byte_at p (mode_offset g)) g >>= next)
  Reads-step (ok m) t next rest = Reads-next m (next m) t (rest m)
  Reads-step (err e) t next rest = (g, omega arith, omega arith, t)

pub read_settings-Reads :
    (p : List ℕ) (g n : ℕ) (acc : PinConfig)
    → g + n ≤ length acc
    → Reads p g n acc (read_settings p g n acc)
unfolding read_settings
read_settings-Reads p g zero acc room = (refl, λ j h. refl, λ j lo hi. absurd (omega arith))
read_settings-Reads p g (suc n) acc room =
    Reads-step p g n acc (omega arith) (try_from (byte_at p (mode_offset g)))
      (try_from-Tries (byte_at p (mode_offset g))) _
      (λ m.
        read_settings-Reads p (suc g) n _
          (rw (length-set acc g (read_one p g n acc (omega arith) m)) (omega arith)))
