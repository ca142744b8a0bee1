-- ===== src/Hidraw/Descriptor.antt =====
-- `top_level_usage` of rust/src/hidraw.rs: the usage in a report descriptor.
pub mod Items
use hidpin.Base.{
  ℕ, zero, suc, ◌+◌, ◌*◌, ◌/◌, ◌%◌, ◌^◌, ◌==◌, bit_and, bit_or, Bool, true, false, ◌&&◌, Option,
  none, some, List, [], ◌∷◌, if◌then◌else◌, length, drop, get_elem?,
}

-- The number of data bytes of a short item.
unfoldable pub size_of : ℕ → ℕ
size_of prefix = let code = bit_and prefix 0x03 in if code == 3 then 4 else code

or_byte : ℕ → Option ℕ → ℕ → ℕ
or_byte k none content = content
or_byte k (some byte) content = bit_or content (byte * 2 ^ (8 * k))

-- `n` data bytes, from the byte `k` on; bytes that are missing leave the data as they are.
unfoldable pub read_data : ℕ → ℕ → List ℕ → ℕ → ℕ
unfolding or_byte
read_data zero k bytes content = content
read_data (suc n) k bytes content =
    read_data n (suc k) bytes (or_byte k (get_elem? bytes k) content)

-- The usage after a Usage item: data of 4 bytes carry the page.
unfoldable pub with_usage : ℕ → ℕ → ℕ × ℕ → ℕ × ℕ
with_usage size content (page, usage) =
    (if size == 4 then content / 2 ^ 16 % 2 ^ 16 else page, content % 2 ^ 16)

-- What a short item makes of the usage so far; the flag says that the search ends with it.
unfoldable pub short_item : ℕ → ℕ → ℕ → ℕ × ℕ → Bool × (ℕ × ℕ)
short_item tag size content (page, usage) =
    if tag == 0x04
    then (false, (content % 2 ^ 16, usage))
    else if tag == 0x08
    then (false, with_usage size content (page, usage))
    else (tag == 0xA0 && content == 0x01, (page, usage))

-- A round of the loop ends it, or leaves the bytes behind an item.
pub data Round : Type 0 where
  ended : ℕ × ℕ → Round
  onward : List ℕ → ℕ × ℕ → Round

unfoldable pub long_round : List ℕ → ℕ × ℕ → Round
long_round [] found = ended (0, 0)
long_round (size ∷ bytes) found = onward (drop (suc size) bytes) found

unfoldable pub short_round : ℕ → List ℕ → ℕ × ℕ → Round
short_round prefix bytes found =
    let size = size_of prefix in
    let (ends, found') = short_item (bit_and prefix 0xFC) size (read_data size 0 bytes 0) found in
    if ends then ended found' else onward (drop size bytes) found'

unfoldable pub round : ℕ → List ℕ → ℕ × ℕ → Round
round prefix bytes found =
    if prefix == 0xFE then long_round bytes found else short_round prefix bytes found

-- The loop on the bytes that are left, of which a round takes one at least.
unfoldable pub search : ℕ → List ℕ → ℕ × ℕ → ℕ × ℕ
search zero bytes found = (0, 0)
search (suc rounds) [] found = (0, 0)
search (suc rounds) (prefix ∷ bytes) found = elim (round prefix bytes found) [
  | ended found' ↦ found'
  | onward rest found' ↦ search rounds rest found'
]

-- `top_level_usage`
unfoldable pub top_level_usage : List ℕ → ℕ × ℕ
top_level_usage descriptor = search (length descriptor) descriptor (0, 0)
