-- ===== src/Canonical.antt =====
-- crates/study-tts-core/src/canonical.rs: the bytes of an identity.
pub mod Strings
pub mod Unique
use technical_tts.Prelude.{
  ℕ, ◌+◌, ◌-◌, ◌/◌, ◌%◌, Bool, List, [], ◌∷◌, ◌++◌, false, ◌||◌, ltb, ◌==◌, if◌then◌else◌, Option,
  none, some,
}
use technical_tts.Text.{Text, codes}
use technical_tts.Text.Decimal.{to_decimal}
use technical_tts.Map.{Map, insert, contains_key, collect}

-- `CanonicalValue`, with the list of an array and the map of an object written out; the entries of
-- an object stand in the order of their keys.
mutual
  pub data CanonicalValue : Type 0 where
    null : CanonicalValue
    unsigned : ℕ → CanonicalValue
    text : Text → CanonicalValue
    array : Elements → CanonicalValue
    object : Entries → CanonicalValue

  pub data Elements : Type 0 where
    no_element : Elements
    element : CanonicalValue → Elements → Elements

  pub data Entries : Type 0 where
    no_entry : Entries
    entry : Text → CanonicalValue → Entries → Entries

-- The entries of a `BTreeMap`.
abbrev pub entries : Map CanonicalValue → Entries
entries [] = no_entry
entries ((key, value) ∷ m) = entry key value (entries m)

-- The `assert!` of `CanonicalValue::object` fails: a key is there when it is inserted.
abbrev pub is_written_twice : Map CanonicalValue → List (Text × CanonicalValue) → Bool
is_written_twice fields [] = false
is_written_twice fields ((key, value) ∷ rest) =
    contains_key key fields || is_written_twice (insert key value fields) rest

-- `CanonicalValue::object` of entries whose keys differ.
unfoldable pub object_of : List (Text × CanonicalValue) → CanonicalValue
object_of es = object (entries (collect es))

-- `CanonicalValue::optional` of a text.
abbrev pub optional : Option Text → CanonicalValue
optional none = null
optional (some t) = text t

-- `{:x}` of a number below 16.
abbrev pub hex_digit : ℕ → ℕ
hex_digit n = if ltb n 10 then b'0' + n else b'a' + (n - 10)

-- The bytes of one character; the characters that are escaped are ASCII, and all other bytes of
-- UTF-8 are written as they are.
abbrev pub json_character : ℕ → Text
json_character c =
    if c == b'"'
    then codes "\\\""
    else if c == b'\\'
    then codes "\\\\"
    else if c == 8
    then codes "\\b"
    else if c == 12
    then codes "\\f"
    else if c == 10
    then codes "\\n"
    else if c == 13
    then codes "\\r"
    else if c == 9
    then codes "\\t"
    else if ltb c 32
    then codes "\\u00" ++ (hex_digit (c / 16) ∷ hex_digit (c % 16) ∷ [])
    else c ∷ []

pub json_characters : Text → Text
json_characters [] = []
json_characters (c ∷ s) = json_character c ++ json_characters s

unfoldable pub write_json_string : Text → Text
unfolding json_characters
write_json_string s = b'"' ∷ (json_characters s ++ (b'"' ∷ []))

-- `write_value`, with a comma in front of every entry but the first.
unfoldable mutual
  pub write_value : CanonicalValue → Text
  write_value null = codes "null"
  write_value (unsigned n) = to_decimal n
  write_value (text s) = write_json_string s
  write_value (array es) = b'[' ∷ (write_elements es ++ (b']' ∷ []))
  write_value (object es) = b'{' ∷ (write_entries es ++ (b'}' ∷ []))

  pub write_elements : Elements → Text
  write_elements no_element = []
  write_elements (element v es) = write_value v ++ write_more_elements es

  pub write_more_elements : Elements → Text
  write_more_elements no_element = []
  write_more_elements (element v es) = b',' ∷ (write_value v ++ write_more_elements es)

  pub write_entries : Entries → Text
  write_entries no_entry = []
  write_entries (entry k v es) =
      write_json_string k ++ (b':' ∷ (write_value v ++ write_more_entries es))

  pub write_more_entries : Entries → Text
  write_more_entries no_entry = []
  write_more_entries (entry k v es) =
      b',' ∷ (write_json_string k ++ (b':' ∷ (write_value v ++ write_more_entries es)))

unfoldable pub canonical_bytes : CanonicalValue → Text
canonical_bytes v = write_value v
