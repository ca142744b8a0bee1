-- ===== src/Hidraw/Sysfs.antt =====
-- The search for device nodes in rust/src/hidraw.rs. The file system is a parameter.
pub mod Fields
use hidpin.Base.{
  ℕ, ◌+◌, ◌-◌, ◌%◌, ◌^◌, ◌==◌, Bool, true, false, not, ◌&&◌, ◌||◌, Option, none, some, List, [],
  ◌∷◌, ◌++◌, ◌⊎◌, inl, inr, if◌then◌else◌,
}
use hidpin.Base.Parse.{strip_prefix, starts_with, trim, lines, split, from_str_radix, text_le}
use hidpin.Base.Text.{Text, text, text_eq}
use hidpin.Error.{IoError}
use hidpin.Hidraw.Descriptor.{top_level_usage}

-- `struct Info`
pub record Info : Type 0 where
  pub path : Text
  pub vendor_id : ℕ
  pub product_id : ℕ
  pub serial : Text
  pub manufacturer : Text
  pub product : Text
  pub usage_page : ℕ
  pub usage : ℕ

-- A listing of a directory goes on after an entry or fails there.
pub data Listing : Type 0 where
  no_more : Listing
  broken : IoError → Listing
  entry : Text → Listing → Listing

-- The functions of `std::fs` on paths; the reads give nothing on an error.
pub record FileSystem : Type 0 where
  pub read_dir : Text → Listing
  pub read_to_string : Text → Option Text
  pub read_bytes : Text → Option (List ℕ)
  pub canonicalize : Text → Option Text
  pub parent : Text → Option Text
  pub join : Text → Text → Text

or_empty : Option (List ℕ) → List ℕ
or_empty none = []
or_empty (some xs) = xs

unfoldable pub behind_equals : Option Text → Option Text
behind_equals none = none
behind_equals (some rest) = strip_prefix (b'=' ∷ []) rest

-- The text behind `key=` in a line.
unfoldable pub field_in : Text → Text → Option Text
field_in key line = behind_equals (strip_prefix key line)

unfoldable pub found_or : Option Text → Option Text → Option Text
found_or (some value) later = some value
found_or none later = later

unfoldable pub first_field : Text → List Text → Option Text
first_field key [] = none
first_field key (line ∷ rest) =
    let later = first_field key rest in found_or (field_in key line) later

unfoldable pub uevent_field : Text → Text → Option Text
uevent_field content key = first_field key (lines content)

-- `u32::from_str_radix(_, 16)`, cut to 16 bits
unfoldable pub id_of : Text → Option ℕ
id_of digits = elim (from_str_radix 16 (2 ^ 32) digits) [
  | none ↦ none
  | some value ↦ some (value % 2 ^ 16)
]

-- The vendor and the product in HID_ID, which has three parts.
unfoldable pub ids_of : List Text → Option (ℕ × ℕ)
ids_of (bus ∷ (vendor ∷ (product ∷ []))) = elim (id_of vendor) [
  | none ↦ none
  | some vid ↦ elim (id_of product) [ none ↦ none | some pid ↦ some (vid, pid) ]
]
ids_of [] = none
ids_of (bus ∷ []) = none
ids_of (bus ∷ (vendor ∷ [])) = none
ids_of (bus ∷ (vendor ∷ (product ∷ (more ∷ parts)))) = none

unfoldable pub hid_ids : Option Text → Option (ℕ × ℕ)
hid_ids none = none
hid_ids (some hid_id) = ids_of (split b':' hid_id)

unfoldable pub wanted_ids : ℕ → ℕ → Option (ℕ × ℕ) → Option (ℕ × ℕ)
wanted_ids vendor_id product_id none = none
wanted_ids vendor_id product_id (some (vid, pid)) =
    if not (vendor_id == 0) && not (vid == vendor_id)
      || not (product_id == 0) && not (pid == product_id)
    then none
    else some (vid, pid)

-- The first text, or the second where it is empty.
unfoldable pub or_else : Text → Text → Text
or_else [] other = other
or_else (c ∷ cs) other = c ∷ cs

-- Insertion into a list that is sorted by path, behind entries with the same path.
unfoldable pub insert_by_path : Info → List Info → List Info
insert_by_path info [] = info ∷ []
insert_by_path info (i ∷ infos) =
    let rest = insert_by_path info infos in
    if text_le i.path info.path then i ∷ rest else info ∷ (i ∷ infos)

module _ (fs : FileSystem) where
  unfoldable pub read_text : Text → Text
  unfolding or_empty
  read_text path = elim (fs.read_to_string path) [ none ↦ [] | some s ↦ trim s ]

  -- The directory of the USB device, two levels above that of the HID device.
  unfoldable pub usb_device_of : Text → Text
  usb_device_of device = elim (fs.canonicalize device) [
    | none ↦ []
    | some path ↦ elim (fs.parent path) [
      | none ↦ []
      | some above ↦ elim (fs.parent above) [ none ↦ [] | some top ↦ top ]
    ]
  ]

  unfoldable pub info_with : Text → Text → Text → Text → ℕ × ℕ → Info
  unfolding or_empty
  info_with dev_dir name device uevent (vid, pid) =
      let usb_device = usb_device_of device in
      let (usage_page, usage) =
        top_level_usage (or_empty (fs.read_bytes (fs.join device (text "report_descriptor")))) in
      record {
        path = fs.join dev_dir name;
        vendor_id = vid;
        product_id = pid;
        serial =
            or_else (or_empty (uevent_field uevent (text "HID_UNIQ")))
              (read_text (fs.join usb_device (text "serial")));
        manufacturer = read_text (fs.join usb_device (text "manufacturer"));
        product =
            or_else (read_text (fs.join usb_device (text "product")))
              (or_empty (uevent_field uevent (text "HID_NAME")));
        usage_page = usage_page;
        usage = usage;
      }

  -- What an entry of the class directory tells of a device that is looked for.
  unfoldable pub info_of : Text → Text → ℕ → ℕ → Text → Option Info
  info_of sysfs_root dev_dir vendor_id product_id name =
      let device = fs.join (fs.join sysfs_root name) (text "device") in
      let uevent = read_text (fs.join device (text "uevent")) in
      let ids = wanted_ids vendor_id product_id (hid_ids (uevent_field uevent (text "HID_ID"))) in
      if not (starts_with (text "hidraw") name)
      then none
      else elim ids [ none ↦ none | some found ↦ some (info_with dev_dir name device uevent found) ]

  unfoldable pub collect : Text → Text → ℕ → ℕ → Listing → List Info → IoError ⊎ List Info
  collect sysfs_root dev_dir vendor_id product_id no_more infos = inr infos
  collect sysfs_root dev_dir vendor_id product_id (broken e) infos = inl e
  collect sysfs_root dev_dir vendor_id product_id (entry name listing) infos =
      collect sysfs_root dev_dir vendor_id product_id listing
        (elim (info_of sysfs_root dev_dir vendor_id product_id name) [
          | none ↦ infos
          | some info ↦ insert_by_path info infos
        ])

  -- `enumerate_in`: an error of the listing, or the devices ordered by path.
  unfoldable pub enumerate_in : Text → Text → ℕ → ℕ → IoError ⊎ List Info
  enumerate_in sysfs_root dev_dir vendor_id product_id =
      collect sysfs_root dev_dir vendor_id product_id (fs.read_dir sysfs_root) []
