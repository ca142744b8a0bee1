-- ===== src/Device/Ids/Order.antt =====
-- The order of the entries that `find_devices_with` of rust/src/device.rs returns.
use hidpin.Base.{
  ◌<◌, ◌≢◌, ◌⊎◌, ◌&&◌, ◌==◌, subst, ltb, ℕ, ◌≡◌, refl, ◌∙◌, ap, Bool, Bool-cases, inl, inr, true,
  false, List, [], ◌∷◌, if◌then◌else◌, filter, map, length, arith,
}
use hidpin.Base.Parse.{text_le}
use hidpin.Base.Text.{Text, text, text_eq, text_eq_refl, text_eq_sound}
use hidpin.Device.Ids.{
  is_hidpin, entry_of, entry_le, insert_entry, sort_entries, entries_of, find_devices_with,
}
use hidpin.Error.{Result, ok}
use hidpin.Hidraw.Sysfs.{Info, FileSystem, enumerate_in}
use hidpin.Transport.{DeviceEntry}

-- Each entry may stand before the next one.
abbrev IsSorted : List DeviceEntry → Type 0
IsSorted [] = Unit
IsSorted (x ∷ []) = Unit
IsSorted (x ∷ (y ∷ ys)) = (entry_le x y ≡ true) × IsSorted (y ∷ ys)

-- The order of texts byte by byte, where the shorter one comes first.
pub data Upto : Text → Text → Type 0 where
  at_end : (ys : Text) → Upto [] ys
  smaller : (x y : ℕ) (xs ys : Text) → x < y → Upto (x ∷ xs) (y ∷ ys)
  onward : (x : ℕ) (xs ys : Text) → Upto xs ys → Upto (x ∷ xs) (x ∷ ys)

-- By serial number, and by path where the serial numbers are the same.
abbrev pub MayPrecede : DeviceEntry → DeviceEntry → Type 0
MayPrecede a b =
    ((a.serial ≢ b.serial) × Upto a.serial b.serial) ⊎ ((a.serial ≡ b.serial) × Upto a.path b.path)

abbrev pub IsOrdered : List DeviceEntry → Type 0
IsOrdered [] = Unit
IsOrdered (x ∷ []) = Unit
IsOrdered (x ∷ (y ∷ ys)) = MayPrecede x y × IsOrdered (y ∷ ys)

Upto-text_le : (xs ys : Text) → text_le xs ys ≡ true → Upto xs ys
unfolding text_le
Upto-text_le [] ys h = at_end ys
Upto-text_le (x ∷ xs) [] h = absurd cc
Upto-text_le (x ∷ xs) (y ∷ ys) h = elim (Bool-cases (ltb x y)) [
  | inl less ↦ smaller x y xs ys (ground arith)
  | inr more ↦
      let same : x ≡ y = ground arith in
      subst (λ z. Upto (x ∷ xs) (z ∷ ys)) same (onward x xs ys (Upto-text_le xs ys (ground arith)))
]

MayPrecede-entry_le : (a b : DeviceEntry) → entry_le a b ≡ true → MayPrecede a b
unfolding entry_le
MayPrecede-entry_le a b h = elim (Bool-cases (text_eq a.serial b.serial)) [
  | inl e ↦
      inr (text_eq_sound a.serial b.serial e, Upto-text_le a.path b.path (ground (arith, h, e)))
  | inr e ↦ inl (
    (λ same. let f : text_eq a.serial b.serial ≡ true = rw same (text_eq_refl b.serial) in cc),
    Upto-text_le a.serial b.serial (ground (arith, h, e)),
  )
]

IsOrdered-IsSorted : (xs : List DeviceEntry) → IsSorted xs → IsOrdered xs
IsOrdered-IsSorted [] sorted = tt
IsOrdered-IsSorted (x ∷ []) sorted = tt
IsOrdered-IsSorted (x ∷ (y ∷ ys)) (first, sorted) =
    (MayPrecede-entry_le x y first, IsOrdered-IsSorted (y ∷ ys) sorted)

-- The entries of the nodes whose usage is 0x01 of the page 0xFF00, or whose page is 0, as it is where
-- the descriptor cannot be read.
abbrev pub entries_of_hidpin : List Info → List DeviceEntry
entries_of_hidpin [] = []
entries_of_hidpin (info ∷ infos) =
    let entry : DeviceEntry = record {
      path = info.path;
      serial = info.serial;
      manufacturer = info.manufacturer;
      product = info.product;
    } in
    let rest = entries_of_hidpin infos in
    if info.usage_page == 0
    then entry ∷ rest
    else if info.usage_page == 0xFF00 && info.usage == 1
    then entry ∷ rest
    else rest

entries_of_hidpin-filter :
    (infos : List Info) → map entry_of (filter is_hidpin infos) ≡ entries_of_hidpin infos
unfolding is_hidpin entry_of
entries_of_hidpin-filter [] = refl
entries_of_hidpin-filter (info ∷ infos) = elim (Bool-cases (info.usage_page == 0)) [
  | inl e ↦ rw (e, entries_of_hidpin-filter infos) refl
  | inr e ↦ elim (Bool-cases (info.usage_page == 0xFF00 && info.usage == 1)) [
    | inl f ↦ rw (e, f, entries_of_hidpin-filter infos) refl
    | inr f ↦ rw (e, f, entries_of_hidpin-filter infos) refl
  ]
]

text_le_total : (xs ys : Text) → text_le xs ys ≡ false → text_le ys xs ≡ true
unfolding text_le
text_le_total [] ys h = absurd cc
text_le_total (x ∷ xs) [] h = refl
text_le_total (x ∷ xs) (y ∷ ys) h = ground (arith, text_le_total xs ys)

text_eq_sym : (xs ys : Text) → text_eq xs ys ≡ text_eq ys xs
unfolding text_eq
text_eq_sym [] [] = refl
text_eq_sym [] (y ∷ ys) = refl
text_eq_sym (x ∷ xs) [] = refl
text_eq_sym (x ∷ xs) (y ∷ ys) = ground (arith, text_eq_sym xs ys)

entry_le_total : (a b : DeviceEntry) → entry_le a b ≡ false → entry_le b a ≡ true
unfolding entry_le
entry_le_total a b h =
    total_if (text_eq a.serial b.serial) (text_eq b.serial a.serial) (text_eq_sym a.serial b.serial)
      h
  where
    total_if :
        (same back : Bool)
        → same ≡ back
        → (if same then text_le a.path b.path else text_le a.serial b.serial) ≡ false
        → (if back then text_le b.path a.path else text_le b.serial a.serial) ≡ true
    total_if true true e f = text_le_total a.path b.path f
    total_if false false e f = text_le_total a.serial b.serial f
    total_if true false e f = absurd cc
    total_if false true e f = absurd cc

IsSorted-if :
    (test : Bool) (y x z : DeviceEntry) (zs rest : List DeviceEntry)
    → entry_le y x ≡ true
    → entry_le y z ≡ true
    → IsSorted (if test then x ∷ (z ∷ zs) else z ∷ rest)
    → IsSorted (y ∷ (if test then x ∷ (z ∷ zs) else z ∷ rest))
IsSorted-if true y x z zs rest p q sorted = (p, sorted)
IsSorted-if false y x z zs rest p q sorted = (q, sorted)

IsSorted-insert_entry :
    (x : DeviceEntry) (ys : List DeviceEntry) → IsSorted ys → IsSorted (insert_entry x ys)
unfolding insert_entry
IsSorted-insert_entry x [] sorted = tt
IsSorted-insert_entry x (y ∷ []) sorted = elim (Bool-cases (entry_le x y)) [
  | inl e ↦ rw e (e, tt)
  | inr e ↦ rw e (entry_le_total x y e, tt)
]
IsSorted-insert_entry x (y ∷ (z ∷ zs)) (first, sorted) = elim (Bool-cases (entry_le x y)) [
  | inl e ↦ rw e (e, (first, sorted))
  | inr e ↦ rw e (
      IsSorted-if (entry_le x z) y x z zs (insert_entry x zs) (entry_le_total x y e) first
        (IsSorted-insert_entry x (z ∷ zs) sorted))
]

IsSorted-sort_entries : (xs : List DeviceEntry) → IsSorted (sort_entries xs)
unfolding sort_entries
IsSorted-sort_entries [] = tt
IsSorted-sort_entries (x ∷ xs) =
    IsSorted-insert_entry x (sort_entries xs) (IsSorted-sort_entries xs)

-- How many entries pass a test.
abbrev pub count : (DeviceEntry → Bool) → List DeviceEntry → ℕ
count test entries = length (filter test entries)

count-insert_entry :
    (test : DeviceEntry → Bool) (x : DeviceEntry) (ys : List DeviceEntry)
    → count test (insert_entry x ys) ≡ count test (x ∷ ys)
unfolding insert_entry
count-insert_entry test x [] = refl
count-insert_entry test x (y ∷ ys) = ground (
  arith,
  count-insert_entry test x ys,
  Bool-cases (test x),
  Bool-cases (test y),
  Bool-cases (entry_le x y),
)

count-sort_entries :
    (test : DeviceEntry → Bool) (xs : List DeviceEntry)
    → count test (sort_entries xs) ≡ count test xs
unfolding sort_entries
count-sort_entries test [] = refl
count-sort_entries test (x ∷ xs) =
    count-insert_entry test x (sort_entries xs)
    ∙ ground (arith, count-sort_entries test xs, Bool-cases (test x))

-- What `find_devices_with` returns.
pub record Lists (infos : List Info) (r : Result (List DeviceEntry)) : Type 0 where
  pub entries : List DeviceEntry
  pub returns : r ≡ ok entries
  pub ordered : IsOrdered entries
  pub same : (test : DeviceEntry → Bool) → count test entries ≡ count test (entries_of_hidpin infos)

-- Where the file system lists the nodes `infos`, `find_devices_with` returns an entry for each of
-- them whose usage is that of hidpin or unknown, and for no other, each entry as often as it is
-- there, ordered by serial number and then by path.
pub find_devices_with-Lists :
    (fs : FileSystem) (vendor_id product_id : ℕ) (infos : List Info)
    → enumerate_in fs (text "/sys/class/hidraw") (text "/dev") vendor_id product_id ≡ inr infos
    → Lists infos (find_devices_with fs vendor_id product_id)
unfolding find_devices_with entries_of
find_devices_with-Lists fs vendor_id product_id infos h = record {
  entries = sort_entries (map entry_of (filter is_hidpin infos));
  returns = ap entries_of h;
  ordered = IsOrdered-IsSorted _ (IsSorted-sort_entries _);
  same = λ test. count-sort_entries test _ ∙ ap (count test) (entries_of_hidpin-filter infos);
}
