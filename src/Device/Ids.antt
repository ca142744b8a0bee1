-- ===== src/Device/Ids.antt =====
-- The USB ids that rust/src/device.rs looks for, and `find_devices` on Linux. The environment and
-- the file system are parameters.
pub mod Order
use hidpin.Base.{
  ℕ, ◌^◌, ◌==◌, ltb, leb, Bool, true, false, ◌&&◌, ◌||◌, Option, none, some, List, [], ◌∷◌, ◌++◌,
  ◌⊎◌, inl, inr, if◌then◌else◌, filter, map,
}
use hidpin.Base.Parse.{strip_prefix, trim, from_str_radix, text_le}
use hidpin.Base.Text.{Text, text, text_eq}
use hidpin.Error.{Error, IoError, Result, ok, err, invalid_argument, io_error}
use hidpin.Hidraw.Sysfs.{Info, FileSystem, enumerate_in}
use hidpin.Transport.{DeviceEntry}

-- DEFAULT_VENDOR_ID and DEFAULT_PRODUCT_ID, USAGE_PAGE and USAGE
abbrev pub default_vendor_id : ℕ
default_vendor_id = 0x1209

abbrev pub default_product_id : ℕ
default_product_id = 0x6870

abbrev pub usage_page : ℕ
usage_page = 0xFF00

abbrev pub usage : ℕ
usage = 0x01

abbrev either : Option Text → Option Text → Option Text
either none other = other
either (some rest) other = some rest

-- A number with a prefix is hexadecimal.
unfoldable pub parse_in : Option Text → Text → Option ℕ
parse_in (some hex) raw = from_str_radix 16 (2 ^ 64) hex
parse_in none raw = from_str_radix 10 (2 ^ 64) raw

unfoldable pub parse_id : Text → Option ℕ
parse_id raw = parse_in (either (strip_prefix (text "0x") raw) (strip_prefix (text "0X") raw)) raw

unfoldable pub check_id : Text → Text → Option ℕ → Result ℕ
check_id name raw none =
    err (invalid_argument (name ++ (text " is not a 16-bit number: '" ++ (raw ++ text "'"))))
check_id name raw (some value) =
    if leb value 0xFFFF
    then ok value
    else err
        (invalid_argument (name ++ (text " is out of range for 16 bits: '" ++ (raw ++ text "'"))))

unfoldable pub id_in : Text → ℕ → Text → Result ℕ
id_in name fallback [] = ok fallback
id_in name fallback (c ∷ raw) = check_id name (c ∷ raw) (parse_id (c ∷ raw))

unfoldable pub var_or_empty : Option Text → Text
var_or_empty none = []
var_or_empty (some raw) = raw

module _ (env : Text → Option Text) where
  unfoldable pub env_id : Text → ℕ → Result ℕ
  env_id name fallback = id_in name fallback (trim (var_or_empty (env name)))

  unfoldable pub second_id : Result ℕ → Result (ℕ × ℕ)
  second_id (err e) = err e
  second_id (ok vendor_id) = elim (env_id (text "HIDPIN_PID") default_product_id) [
    | err e ↦ err e
    | ok product_id ↦ ok (vendor_id, product_id)
  ]

  -- `usb_ids`
  unfoldable pub usb_ids : Result (ℕ × ℕ)
  usb_ids = second_id (env_id (text "HIDPIN_VID") default_vendor_id)

-- Whether a node may be a hidpin device.
unfoldable pub is_hidpin : Info → Bool
is_hidpin info = info.usage_page == 0 || (info.usage_page == usage_page && info.usage == usage)

unfoldable pub entry_of : Info → DeviceEntry
entry_of info = record {
  path = info.path;
  serial = info.serial;
  manufacturer = info.manufacturer;
  product = info.product;
}

-- Whether an entry may stand before another: by serial number, then by path.
unfoldable pub entry_le : DeviceEntry → DeviceEntry → Bool
entry_le a b =
    if text_eq a.serial b.serial then text_le a.path b.path else text_le a.serial b.serial

unfoldable pub insert_entry : DeviceEntry → List DeviceEntry → List DeviceEntry
insert_entry x [] = x ∷ []
insert_entry x (y ∷ ys) =
    let rest = insert_entry x ys in if entry_le x y then x ∷ (y ∷ ys) else y ∷ rest

-- `entries.sort_by`
unfoldable pub sort_entries : List DeviceEntry → List DeviceEntry
sort_entries [] = []
sort_entries (x ∷ xs) = insert_entry x (sort_entries xs)

unfoldable pub entries_of : IoError ⊎ List Info → Result (List DeviceEntry)
entries_of (inl e) = err (io_error e)
entries_of (inr infos) = ok (sort_entries (map entry_of (filter is_hidpin infos)))

module _ (fs : FileSystem) where
  unfoldable pub find_devices_with : ℕ → ℕ → Result (List DeviceEntry)
  find_devices_with vendor_id product_id =
      entries_of (enumerate_in fs (text "/sys/class/hidraw") (text "/dev") vendor_id product_id)

  unfoldable pub devices_of : Result (ℕ × ℕ) → Result (List DeviceEntry)
  devices_of (err e) = err e
  devices_of (ok (vendor_id, product_id)) = find_devices_with vendor_id product_id

  -- `find_devices`
  unfoldable pub find_devices : (Text → Option Text) → Result (List DeviceEntry)
  find_devices env = devices_of (usb_ids env)
