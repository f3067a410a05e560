-- ===== src/Digest.antt =====
-- crates/study-tts-core/src/digest.rs: the spelling of a BLAKE3 digest, and the newtypes over it.
use technical_tts.Prelude.{
  ℕ, Bool, ◌&&◌, ◌||◌, all, length, leb, ◌==◌, if◌then◌else◌, Result, ok, err,
}
use technical_tts.Text.{Text, is_digit}

abbrev pub blake3_hex_length : ℕ
blake3_hex_length = 64

abbrev pub is_hex_byte : ℕ → Bool
is_hex_byte byte = is_digit byte || (leb b'a' byte && leb byte b'f')

unfoldable pub is_blake3_hex : Text → Bool
is_blake3_hex value = length value == blake3_hex_length && all is_hex_byte value

-- A digest newtype is the text that it wraps; `try_from` is its only fallible constructor.
abbrev pub Digest : Type 0
Digest = Text

pub data MalformedDigest : Type 0 where
  malformed_digest : Text → MalformedDigest

unfoldable pub try_from : Text → Result Digest MalformedDigest
unfolding is_blake3_hex
try_from value = if is_blake3_hex value then ok value else err (malformed_digest value)
