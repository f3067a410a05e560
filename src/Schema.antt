-- ===== src/Schema.antt =====
-- crates/study-tts-core/src/schema.rs: the versions of a document, their spelling, and the rule that
-- says which ones a build reads.
pub mod Spelling
pub mod Acceptance
use technical_tts.Prelude.{
  ℕ, zero, suc, ◌≤◌, ◌≡◌, refl, Bool, true, false, not, ◌&&◌, ◌||◌, Option, none, some, List, [],
  ◌∷◌, ◌++◌, compare, Ordering, arith, all, length, ltb, leb, ◌==◌, if◌then◌else◌, Result, ok, err,
  ◌>>=◌, ok_or,
}
use technical_tts.Text.{Text, codes, is_digit, is_empty, starts_with, split_once}
use technical_tts.Text.Decimal.{to_decimal, parse_decimal}

-- Both parts are `u16`.
abbrev pub max_u16 : ℕ
max_u16 = 65535

pub record SchemaVersion : Type 0 where
  pub major : ℕ
  pub minor : ℕ

pub record IsVersion (v : SchemaVersion) : Type 0 where
  pub major_fits : v.major ≤ max_u16
  pub minor_fits : v.minor ≤ max_u16

abbrev pub new : ℕ → ℕ → SchemaVersion
new major minor = record { major = major; minor = minor }

pub data SchemaCompatibility : Type 0 where
  current compatible_extension : SchemaCompatibility

pub data SchemaVersionError : Type 0 where
  malformed : Text → SchemaVersionError
  unsupported_major : SchemaVersion → SchemaVersion → SchemaVersionError
  unsupported_minor : SchemaVersion → SchemaVersion → SchemaVersionError

unfoldable pub accepted_by :
    SchemaVersion → SchemaVersion → Result SchemaCompatibility SchemaVersionError
accepted_by v supported =
    if not (v.major == supported.major)
    then err (unsupported_major v supported)
    else elim (compare v.minor supported.minor) [
      | Ordering.eq ↦ ok current
      | Ordering.lt ↦ ok compatible_extension
      | Ordering.gt ↦ err (unsupported_minor v supported)
    ]

-- `Display`.
unfoldable pub to_string : SchemaVersion → Text
to_string v = to_decimal v.major ++ b'.' ∷ to_decimal v.minor

unfoldable pub parse_version_component : Text → Option ℕ
parse_version_component value =
    if is_empty value || not (all is_digit value)
    then none
    else if ltb 1 (length value) && starts_with value b'0'
    then none
    else parse_decimal max_u16 value

-- `FromStr`.
unfoldable pub from_str : Text → Result SchemaVersion SchemaVersionError
from_str value = do
  (major, minor) ← ok_or (split_once b'.' value) (malformed value)
  x ← ok_or (parse_version_component major) (malformed value)
  y ← ok_or (parse_version_component minor) (malformed value)
  ok (new x y)

-- `header` reads the declared version out of the bytes, or finds none: that is `serde_json`'s.
unfoldable pub check_declared_version :
    (header : Text → Option Text) → Text → SchemaVersion → Result (Unit {0}) SchemaVersionError
check_declared_version header bytes supported = elim (header bytes) [
  | none ↦ ok tt
  | some declared ↦ do v ← from_str declared; c ← accepted_by v supported; ok tt
]

abbrev pub schema_uri_base : Text
schema_uri_base = codes "https://schemas.study-tts.example/"

unfoldable pub schema_file_name : Text → ℕ → Text
schema_file_name stem major = stem ++ codes "-v" ++ to_decimal major ++ codes ".schema.json"

unfoldable pub schema_uri : Text → ℕ → Text
schema_uri stem major = schema_uri_base ++ schema_file_name stem major

-- The spellings of the minors up to the current one, `(0..=current.minor())`.
unfoldable pub accepted_versions : ℕ → ℕ → List Text
accepted_versions major zero = to_string (new major zero) ∷ []
accepted_versions major (suc minor) =
    accepted_versions major minor ++ to_string (new major (suc minor)) ∷ []

-- The `enum` that the published schema lists.
unfoldable pub accepted_versions_enum : SchemaVersion → List Text
unfolding accepted_versions
accepted_versions_enum supported = accepted_versions supported.major supported.minor
