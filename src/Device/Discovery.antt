-- ===== src/Device/Discovery.antt =====
-- `choose_device` of rust/src/device.rs.
use hidpin.Base.{
  ◌≡◌, refl, Bool, true, false, Option, none, some, All, ◌++◌, List, [], ◌∷◌, map, filter,
}
use hidpin.Base.Text.{Text, text_eq, text_eq_refl}
use hidpin.Error.{Result, ok, err, device_not_found, several_devices}
use hidpin.Transport.{DeviceEntry}

-- Whether an entry has the serial number that is asked for.
unfoldable pub serial_matches : Option Text → DeviceEntry → Bool
serial_matches none entry = true
serial_matches (some serial) entry = text_eq entry.serial serial

pick : Option Text → List DeviceEntry → Result DeviceEntry
pick serial [] = err (device_not_found serial)
pick serial (entry ∷ []) = ok entry
pick (some serial) (entry ∷ (next ∷ rest)) = ok entry
pick none (entry ∷ (next ∷ rest)) =
    err (several_devices (map (λ e. e.serial) (entry ∷ (next ∷ rest))))

-- Picks the entry with the given serial number, or the only entry without one.
unfoldable pub choose_device : List DeviceEntry → Option Text → Result DeviceEntry
unfolding pick
choose_device entries serial = pick serial (filter (serial_matches serial) entries)

pick-first :
    (serial : Text) (e : DeviceEntry) (rest : List DeviceEntry)
    → pick (some serial) (e ∷ rest) ≡ ok e
unfolding pick
pick-first serial e [] = refl
pick-first serial e (x ∷ rest) = refl

-- With a serial number, the first entry that has it is chosen, whatever follows.
pub choose_device-first :
    (front rest : List DeviceEntry) (e : DeviceEntry)
    → All (λ x. text_eq x.serial e.serial ≡ false) front
    → choose_device (front ++ (e ∷ rest)) (some e.serial) ≡ ok e
unfolding choose_device serial_matches
choose_device-first [] rest e h = rw (text_eq_refl e.serial) (pick-first e.serial e _)
choose_device-first (x ∷ front) rest e (other, others) =
    rw other (choose_device-first front rest e others)
