-- ===== src/Hidraw/Sysfs/Fields.antt =====
-- `uevent_field` of rust/src/hidraw.rs on the lines that the kernel writes.
use hidpin.Base.{
  ℕ, ◌≡◌, refl, ap, ◌==◌, Bool, Bool-cases, inl, inr, true, false, Option, none, some, List, [],
  ◌∷◌, ◌++◌, All, if◌then◌else◌, arith,
}
use hidpin.Base.Parse.{strip_prefix, lines, prepend}
use hidpin.Base.Text.{Text, text_eq}
use hidpin.Hidraw.Sysfs.{behind_equals, field_in, found_or, first_field, uevent_field}

-- The lines `key=value` of a list of fields.
abbrev pub line_of : Text × Text → Text
line_of (key, value) = key ++ (b'=' ∷ value)

abbrev pub printed : List (Text × Text) → Text
printed [] = []
printed (field ∷ fields) = line_of field ++ (10 ∷ printed fields)

-- The value of the first field with the key.
abbrev pub value_of : Text → List (Text × Text) → Option Text
value_of key [] = none
value_of key ((k, value) ∷ fields) =
    let rest = value_of key fields in if text_eq key k then some value else rest

-- A character that is no line end.
abbrev pub IsInline : ℕ → Type 0
IsInline c = ((c == 10) ≡ false) × ((c == 13) ≡ false)

-- Keys and values hold no line end, and keys no equals sign.
abbrev pub IsField : Text × Text → Type 0
IsField (key, value) = All (λ c. (c == b'=') ≡ false) key × All IsInline (line_of (key, value))

lines-line :
    (line more : Text) → All IsInline line → lines (line ++ (10 ∷ more)) ≡ line ∷ lines more
unfolding lines prepend
lines-line [] more ok = refl
lines-line (c ∷ line) more ((lf, cr), ok) = rw lf (rw cr (ap (prepend c) (lines-line line more ok)))

field_in-line :
    (key k value : Text)
    → All (λ c. (c == b'=') ≡ false) key
    → All (λ c. (c == b'=') ≡ false) k
    → field_in key (line_of (k, value)) ≡ (if text_eq key k then some value else none)
unfolding field_in behind_equals strip_prefix text_eq
field_in-line [] [] value p q = refl
field_in-line [] (c ∷ k) value p (plain, q) = ground arith
field_in-line (c ∷ key) [] value (plain, p) q = rw plain refl
field_in-line (c ∷ key) (d ∷ k) value (plain, p) (other, q) = elim (Bool-cases (c == d)) [
  | inl e ↦ rw e (field_in-line key k value p q)
  | inr e ↦ rw e refl
]

if_found :
    (same : Bool) (value : Text) (later rest : Option Text)
    → later ≡ rest
    → found_or (if same then some value else none) later ≡ (if same then some value else rest)
unfolding found_or
if_found true value later rest e = refl
if_found false value later rest e = e

first_field-lines :
    (key : Text) (fields : List (Text × Text))
    → All (λ c. (c == b'=') ≡ false) key
    → All IsField fields
    → first_field key (lines (printed fields)) ≡ value_of key fields
unfolding first_field lines
first_field-lines key [] p ok = refl
first_field-lines key ((k, value) ∷ fields) p ((plain, inline), ok) =
    rw (lines-line (line_of (k, value)) (printed fields) inline) (
      rw (field_in-line key k value p plain)
        (if_found (text_eq key k) value _ _ (first_field-lines key fields p ok)))

-- The field of a key without an equals sign, in a text of lines `key=value`, is the value of the
-- first line with the key.
pub uevent_field-printed :
    (key : Text) (fields : List (Text × Text))
    → All (λ c. (c == b'=') ≡ false) key
    → All IsField fields
    → uevent_field (printed fields) key ≡ value_of key fields
unfolding uevent_field
uevent_field-printed key fields p ok = first_field-lines key fields p ok
