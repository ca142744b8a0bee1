-- ===== src/Tests/Nodes.antt =====
-- The search for device nodes (rust/src/hidraw.rs, rust/src/device.rs) at concrete values.
use hidpin.Base.{◌≡◌, inr, refl, none, some, List, [], ◌∷◌, arith}
use hidpin.Base.Bytes.{from_le_bytes}
use hidpin.Base.Parse.{
  strip_prefix, starts_with, trim, lines, prepend, split, from_str_radix, digits, digits_onto,
  digit_value, reversed,
}
use hidpin.Base.Text.{Text, text}
use hidpin.Device.Ids.{find_devices_with}
use hidpin.Device.Ids.Order.{Lists, find_devices_with-Lists}
use hidpin.Hidraw.Descriptor.{top_level_usage, search}
use hidpin.Hidraw.Descriptor.Items.{Item, short, all_bytes, usage_in, top_level_usage-items}
use hidpin.Hidraw.Ioctl.{hid_ioc, hidioc_s_feature, hidioc_g_feature, hidioc_g_input}
use hidpin.Hidraw.Sysfs
use hidpin.Hidraw.Sysfs.{Info, Listing, no_more, entry, FileSystem, enumerate_in}

-- include/uapi/linux/hidraw.h for a buffer of 64 bytes
kernel_constants :
    (hidioc_s_feature 64 ≡ 0xC040_4806)
    × (hidioc_g_feature 64 ≡ 0xC040_4807)
    × (hidioc_g_input 64 ≡ 0xC040_480A)
unfolding hidioc_s_feature hidioc_g_feature hidioc_g_input hid_ioc
kernel_constants = (refl, refl, refl)

-- The start of the descriptor of hidpin.
abbrev hidpin_items : List Item
hidpin_items =
    short 0x06 (0x00 ∷ (0xFF ∷ []))
    ∷ (short 0x09 (0x01 ∷ []) ∷ (short 0xA1 (0x01 ∷ []) ∷ (short 0x85 (0x01 ∷ []) ∷ [])))

top_level_usage-items_example : top_level_usage (all_bytes hidpin_items) ≡ (0xFF00, 0x01)
unfolding usage_in from_le_bytes
top_level_usage-items_example = top_level_usage-items hidpin_items (
  ((λ e. omega arith), refl, (omega arith, (omega arith, tt))),
  (
    ((λ e. omega arith), refl, (omega arith, tt)),
    (
      ((λ e. omega arith), refl, (omega arith, tt)),
      (((λ e. omega arith), refl, (omega arith, tt)), tt),
    ),
  ),
)

-- A file system with one node, whose files all hold the same line.
abbrev hid_line : Text
hid_line =
    b'H'
    ∷ (b'I'
        ∷ (b'D'
            ∷ (b'_'
                ∷ (b'I'
                    ∷ (b'D'
                        ∷ (b'='
                            ∷ (b'3'
                                ∷ (b':'
                                    ∷ (b'1'
                                        ∷ (b'2'
                                            ∷ (b'0'
                                                ∷ (b'9'
                                                    ∷ (b':'
                                                        ∷ (b'6'
                                                            ∷ (b'8'
                                                            ∷ (b'7' ∷ (b'0' ∷ [])))))))))))))))))

abbrev node : Text
node = b'h' ∷ (b'i' ∷ (b'd' ∷ (b'r' ∷ (b'a' ∷ (b'w' ∷ (b'0' ∷ []))))))

abbrev one_node : FileSystem
one_node = record {
  read_dir = λ path. entry node no_more;
  read_to_string = λ path. some hid_line;
  read_bytes = λ path. none;
  canonicalize = λ path. none;
  parent = λ path. none;
  join = λ path name. name;
}

abbrev found : List Info
found =
    record {
      path = node;
      vendor_id = 0x1209;
      product_id = 0x6870;
      serial = hid_line;
      manufacturer = hid_line;
      product = hid_line;
      usage_page = 0;
      usage = 0;
    }
    ∷ []

enumerate_found :
    enumerate_in one_node (text "/sys/class/hidraw") (text "/dev") 0x1209 0x6870 ≡ inr found
unfolding enumerate_in Sysfs.collect Sysfs.info_of Sysfs.hid_ids Sysfs.ids_of Sysfs.id_of
    Sysfs.wanted_ids Sysfs.uevent_field Sysfs.first_field Sysfs.field_in Sysfs.found_or
    Sysfs.behind_equals Sysfs.info_with Sysfs.read_text Sysfs.usb_device_of Sysfs.or_else
    Sysfs.insert_by_path strip_prefix starts_with trim lines prepend split from_str_radix digits
    digits_onto digit_value reversed text top_level_usage search
enumerate_found = refl

find_devices_with-Lists_example : Lists found (find_devices_with one_node 0x1209 0x6870)
find_devices_with-Lists_example =
    find_devices_with-Lists one_node 0x1209 0x6870 found enumerate_found
