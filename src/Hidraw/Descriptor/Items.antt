-- ===== src/Hidraw/Descriptor/Items.antt =====
-- `top_level_usage` of rust/src/hidraw.rs on the items of a report descriptor.
use hidpin.Base.{
  ◌%◌, ◌/◌, ◌≢◌, Bool-cases, inl, inr, ℕ, zero, suc, ◌+◌, ◌*◌, ◌^◌, ◌≤◌, ◌<◌, ◌≡◌, ◌==◌, refl, sym,
  ap, subst, ◌∙◌, bit_and, bit_or, Bool, true, false, List, [], ◌∷◌, ◌++◌, All, if◌then◌else◌,
  length, length-append, drop, arith,
}
use hidpin.Base.Bits.{bit_or_above, bit_and-mask2, bit_and-mod4}
use hidpin.Base.Bytes.{from_le_bytes}
use hidpin.Hidraw.Descriptor.{
  size_of, with_usage, read_data, ended, onward, round, short_round, long_round, short_item, search,
  top_level_usage,
}

-- An item of a descriptor: a short one has a prefix and its data, a long one a tag and its data.
pub data Item : Type 0 where
  short : ℕ → List ℕ → Item
  long : ℕ → List ℕ → Item

abbrev pub bytes_of : Item → List ℕ
bytes_of (short prefix content) = prefix ∷ content
bytes_of (long tag content) = 0xFE ∷ (length content ∷ (tag ∷ content))

abbrev pub all_bytes : List Item → List ℕ
all_bytes [] = []
all_bytes (item ∷ items) = bytes_of item ++ all_bytes items

-- The number of data bytes by the low two bits of a prefix: 0, 1, 2 or 4.
abbrev pub data_size : ℕ → ℕ
data_size prefix = let code = prefix % 4 in if code == 3 then 4 else code

-- The prefix of a short item tells the size of its data.
abbrev pub IsItem : Item → Type 0
IsItem (short prefix content) =
    (prefix ≢ 0xFE) × (length content ≡ data_size prefix) × All (λ b. b < 256) content
IsItem (long tag content) = Unit

-- The kind of a short item, by the upper six bits of its prefix: the global item Usage Page, the local
-- item Usage, and the main item Collection.
pub data Kind : Type 0 where
  usage_page usage collection other : Kind

abbrev pub kind_of : ℕ → Kind
kind_of prefix =
    let tag = bit_and prefix 0xFC in
    if tag == 0x04
    then usage_page
    else if tag == 0x08
    then usage
    else if tag == 0xA0
    then collection
    else other

-- Whether a collection is an application.
abbrev pub starts_application : Kind → List ℕ → Bool
starts_application collection content = from_le_bytes content == 1
starts_application kind content = false

-- The page and the usage after an item. A usage of 4 bytes has its page in the upper two.
abbrev pub usage_after : Kind → List ℕ → ℕ × ℕ → ℕ × ℕ
usage_after usage_page content (page, id) = (from_le_bytes content % 2 ^ 16, id)
usage_after usage content (page, id) = (
  if length content == 4 then from_le_bytes content / 2 ^ 16 % 2 ^ 16 else page,
  from_le_bytes content % 2 ^ 16,
)
usage_after kind content found = found

-- The usage that the items so far give to the first application collection, or 0 without one.
unfoldable pub usage_in : List Item → ℕ × ℕ → ℕ × ℕ
usage_in [] found = (0, 0)
usage_in (long tag content ∷ items) found = usage_in items found
usage_in (short prefix content ∷ items) found =
    let later = usage_in items (usage_after (kind_of prefix) content found) in
    if starts_application (kind_of prefix) content then found else later

-- The size of a short item, as the code has it.
abbrev IsSized : Item → Type 0
IsSized (short prefix content) =
    ((prefix == 0xFE) ≡ false) × (length content ≡ size_of prefix) × All (λ b. b < 256) content
IsSized (long tag content) = Unit

-- What the loop finds on the items.
unfoldable found_in : List Item → ℕ × ℕ → ℕ × ℕ
found_in [] found = (0, 0)
found_in (long tag content ∷ items) found = found_in items found
found_in (short prefix content ∷ items) found =
    let (ends, found') =
      short_item (bit_and prefix 0xFC) (size_of prefix) (from_le_bytes content) found in
    let later = found_in items found' in if ends then found' else later

drop-append : (xs ys : List ℕ) → drop (length xs) (xs ++ ys) ≡ ys
drop-append [] ys = refl
drop-append (x ∷ xs) ys = drop-append xs ys

first_byte : (a : ℕ) → bit_or 0 (a * 2 ^ 0) ≡ a
first_byte a = omega (arith, bit_or_above 0 0 a (omega arith))

-- At most 4 data bytes of a short item are read as a word.
read_data-append :
    (content more : List ℕ)
    → length content ≤ 4
    → All (λ b. b < 256) content
    → read_data (length content) 0 (content ++ more) 0 ≡ from_le_bytes content
unfolding read_data from_le_bytes
read_data-append [] more few small = refl
read_data-append (a ∷ []) more few (p, q) = first_byte a ∙ omega arith
read_data-append (a ∷ (b ∷ [])) more few (p, (q, r)) =
    ap (λ x. bit_or x (b * 2 ^ 8)) (first_byte a) ∙ (bit_or_above 8 a b p ∙ omega arith)
read_data-append (a ∷ (b ∷ (c ∷ []))) more few (p, (q, (r, t))) =
    ap (λ x. bit_or (bit_or x (b * 2 ^ 8)) (c * 2 ^ 16)) (first_byte a)
    ∙ (ap (λ x. bit_or x (c * 2 ^ 16)) (bit_or_above 8 a b p)
        ∙ (bit_or_above 16 (a + b * 2 ^ 8) c (omega arith) ∙ omega arith))
read_data-append (a ∷ (b ∷ (c ∷ (d ∷ [])))) more few (p, (q, (r, (t, u)))) =
    ap (λ x. bit_or (bit_or (bit_or x (b * 2 ^ 8)) (c * 2 ^ 16)) (d * 2 ^ 24)) (first_byte a)
    ∙ (ap (λ x. bit_or (bit_or x (c * 2 ^ 16)) (d * 2 ^ 24)) (bit_or_above 8 a b p)
        ∙ (ap (λ x. bit_or x (d * 2 ^ 24)) (bit_or_above 16 (a + b * 2 ^ 8) c (omega arith))
            ∙ (bit_or_above 24 (a + b * 2 ^ 8 + c * 2 ^ 16) d (omega arith) ∙ omega arith)))
read_data-append (a ∷ (b ∷ (c ∷ (d ∷ (e ∷ content))))) more few small = absurd (omega arith)

size_of_bound : (prefix : ℕ) → size_of prefix ≤ 4
unfolding size_of
size_of_bound prefix = ground (arith, bit_and-mask2 prefix)

-- A round on a short item takes the item.
round-short :
    (prefix : ℕ) (content more : List ℕ) (found : ℕ × ℕ)
    → IsSized (short prefix content)
    → round prefix (content ++ more) found ≡ (
        let (ends, found') =
          short_item (bit_and prefix 0xFC) (size_of prefix) (from_le_bytes content) found in
        if ends then ended found' else onward more found')
unfolding round short_round
round-short prefix content more found (plain, sized, small) =
    let few = subst (λ n. n ≤ 4) (sym sized) (size_of_bound prefix) in
    rw plain (
      rw (sym sized)
        (rw (read_data-append content more few small) (rw (drop-append content more) refl)))

search_if :
    (ends : Bool) (n : ℕ) (rest : List ℕ) (found' : ℕ × ℕ)
    → elim (if ends then ended found' else onward rest found') [
      | ended f ↦ f
      | onward r f ↦ search n r f
    ]
      ≡ (if ends then found' else search n rest found')
search_if true n rest found' = refl
search_if false n rest found' = refl

search-short :
    (prefix : ℕ) (content : List ℕ) (items : List Item) (n : ℕ) (found : ℕ × ℕ)
    → IsSized (short prefix content)
    → ((found' : ℕ × ℕ) → search n (all_bytes items) found' ≡ found_in items found')
    → search (suc n) (prefix ∷ (content ++ all_bytes items)) found
      ≡ found_in (short prefix content ∷ items) found
unfolding search found_in
search-short prefix content items n found ok rest =
    let (ends, found') =
      short_item (bit_and prefix 0xFC) (size_of prefix) (from_le_bytes content) found in
    ap (λ r. elim r [ ended f ↦ f | onward left f ↦ search n left f ])
      (round-short prefix content (all_bytes items) found ok)
    ∙ (search_if ends n (all_bytes items) found'
        ∙ ap (λ x. if ends then found' else x) (rest found'))

search-items :
    (items : List Item) (n : ℕ) (found : ℕ × ℕ)
    → All IsSized items
    → length (all_bytes items) ≤ n
    → search n (all_bytes items) found ≡ found_in items found
unfolding search found_in round long_round
search-items [] zero found ok enough = refl
search-items [] (suc n) found ok enough = refl
search-items (long tag content ∷ items) zero found ok enough = absurd (omega arith)
search-items (short prefix content ∷ items) zero found ok enough = absurd (omega arith)
search-items (long tag content ∷ items) (suc n) found ok enough =
    rw (drop-append content (all_bytes items))
      (search-items items n found ok.1 (omega (arith, length-append content (all_bytes items))))
search-items (short prefix content ∷ items) (suc n) found (first, ok) enough =
    search-short prefix content items n found first (λ found'.
      search-items items n found' ok (omega (arith, length-append content (all_bytes items))))

size_of-data_size : (prefix : ℕ) → size_of prefix ≡ data_size prefix
unfolding size_of
size_of-data_size prefix = rw (bit_and-mod4 prefix)

short_item-kind :
    (prefix : ℕ) (content : List ℕ) (found : ℕ × ℕ)
    → short_item (bit_and prefix 0xFC) (length content) (from_le_bytes content) found
      ≡ (starts_application (kind_of prefix) content, usage_after (kind_of prefix) content found)
unfolding short_item with_usage
short_item-kind prefix content (page, id) = elim (Bool-cases (bit_and prefix 0xFC == 0x04)) [
  | inl e ↦ rw e refl
  | inr e ↦ elim (Bool-cases (bit_and prefix 0xFC == 0x08)) [
    | inl f ↦ rw (e, f) refl
    | inr f ↦ elim (Bool-cases (bit_and prefix 0xFC == 0xA0)) [
      | inl g ↦ rw (e, f, g) refl
      | inr g ↦ rw (e, f, g) refl
    ]
  ]
]

IsSized-IsItem : (item : Item) → IsItem item → IsSized item
IsSized-IsItem (short prefix content) (plain, sized, small) =
    (ground arith, sized ∙ sym (size_of-data_size prefix), small)
IsSized-IsItem (long tag content) u = tt

AllSized : (items : List Item) → All IsItem items → All IsSized items
AllSized [] u = tt
AllSized (item ∷ items) (first, ok) = (IsSized-IsItem item first, AllSized items ok)

collection_keeps :
    (kind : Kind) (content : List ℕ) (found later : ℕ × ℕ)
    → (if starts_application kind content then usage_after kind content found else later)
      ≡ (if starts_application kind content then found else later)
collection_keeps usage_page content found later = refl
collection_keeps usage content found later = refl
collection_keeps collection content found later = refl
collection_keeps other content found later = refl

found_in-usage_in :
    (items : List Item) (found : ℕ × ℕ)
    → All IsItem items
    → found_in items found ≡ usage_in items found
unfolding found_in usage_in
found_in-usage_in [] found ok = refl
found_in-usage_in (long tag content ∷ items) found ok = found_in-usage_in items found ok.1
found_in-usage_in (short prefix content ∷ items) found ((plain, sized, small), ok) =
    rw
      (
        ← (sized ∙ sym (size_of-data_size prefix)),
        short_item-kind prefix content found,
        found_in-usage_in items (usage_after (kind_of prefix) content found) ok,
      )
      (collection_keeps (kind_of prefix) content found (usage_in items _))

-- On the bytes of a descriptor whose short items have the data that their prefixes tell, the search
-- gives the page and the usage that the items Usage Page and Usage before the first application
-- collection set last, or 0 without such a collection.
pub top_level_usage-items :
    (items : List Item)
    → All IsItem items
    → top_level_usage (all_bytes items) ≡ usage_in items (0, 0)
unfolding top_level_usage
top_level_usage-items items ok =
    search-items items (length (all_bytes items)) (0, 0) (AllSized items ok) (omega arith)
    ∙ found_in-usage_in items (0, 0) ok
