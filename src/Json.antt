-- ===== src/Json.antt =====
-- JSON values and `JSON.stringify`, as core/src uses them: the values that `normalize` returns.
pub mod Bytes
pub mod Access
use watchup_v3_packages.Prelude.{
  ℕ, ◌+◌, ◌/◌, ◌%◌, ◌++◌, ◌==◌, ◌&&◌, Bool, true, false, [], ◌∷◌, ltb, leb, if◌then◌else◌,
}
use watchup_v3_packages.Utf8.{Str, units, is_pair}

-- `number` holds the text that JavaScript prints for a finite number; an object's fields stand in
-- the order of their insertion.
mutual
  pub data Json : Type 0 where
    null : Json
    bool : Bool → Json
    number : Str → Json
    string : Str → Json
    array : Items → Json
    object : Fields → Json

  pub data Items : Type 0 where
    nil : Items
    cons : Json → Items → Items

  pub data Fields : Type 0 where
    end : Fields
    field : Str → Json → Fields → Fields

abbrev hex_digit : ℕ → ℕ
hex_digit d = if ltb d 10 then 48 + d else 87 + d

-- `\uXXXX`
abbrev unicode_escape : ℕ → Str
unicode_escape c =
    b'\\'
    ∷ b'u'
    ∷ hex_digit (c / 4096 % 16)
    ∷ hex_digit (c / 256 % 16)
    ∷ hex_digit (c / 16 % 16)
    ∷ hex_digit (c % 16)
    ∷ []

-- A unit that is no part of a surrogate pair, inside a JSON string.
unfoldable pub escape : ℕ → Str
escape c =
    if c == 0x22
    then 0x5c ∷ 0x22 ∷ []
    else if c == 0x5c
    then 0x5c ∷ 0x5c ∷ []
    else if c == 0x08
    then units "\\b"
    else if c == 0x0c
    then units "\\f"
    else if c == 0x0a
    then units "\\n"
    else if c == 0x0d
    then units "\\r"
    else if c == 0x09
    then units "\\t"
    else if ltb c 0x20
    then unicode_escape c
    else if leb 0xd800 c && leb c 0xdfff
    then unicode_escape c
    else c ∷ []

unfoldable pub quote_units : Str → Str
unfolding escape
quote_units [] = []
quote_units (c ∷ []) = escape c
quote_units (c ∷ d ∷ s) = elim (is_pair c d) [
  | true ↦ c ∷ d ∷ quote_units s
  | false ↦ escape c ++ quote_units (d ∷ s)
]

unfoldable pub quote : Str → Str
unfolding quote_units
quote s = 0x22 ∷ (quote_units s ++ 0x22 ∷ [])

unfoldable mutual
  unfolding quote

  pub stringify : Json → Str
  stringify null = units "null"
  stringify (bool true) = units "true"
  stringify (bool false) = units "false"
  stringify (number text) = text
  stringify (string s) = quote s
  stringify (array xs) = 0x5b ∷ (stringify_items xs ++ 0x5d ∷ [])
  stringify (object fs) = 0x7b ∷ (stringify_fields fs ++ 0x7d ∷ [])

  pub stringify_items : Items → Str
  stringify_items nil = []
  stringify_items (cons x nil) = stringify x
  stringify_items (cons x (cons y xs)) = stringify x ++ (0x2c ∷ stringify_items (cons y xs))

  pub stringify_fields : Fields → Str
  stringify_fields end = []
  stringify_fields (field k x end) = quote k ++ (0x3a ∷ stringify x)
  stringify_fields (field k x (field l y fs)) =
      quote k ++ (0x3a ∷ (stringify x ++ (0x2c ∷ stringify_fields (field l y fs))))
