-- ===== src/Timeline/Timestamp.antt =====
-- What a timestamp says: the whole milliseconds before its frame.
use technical_tts.Prelude.{
  ℕ, ◌+◌, ◌*◌, ◌/◌, ◌%◌, ◌^◌, ◌≡◌, ◌≤◌, refl, ap, ◌∙◌, Option, none, some, [], ◌∷◌, ◌++◌,
  append_assoc, All-mono, arith, ◌≢◌,
}
use technical_tts.Text.{Text, split_once, split_once-append, Lacks}
use technical_tts.Text.Decimal.{parse_decimal, padded}
use technical_tts.Text.Decimal.Padded.{All-padded, parse-padded}
use technical_tts.Text.Decimal.RoundTrip.{IsDigit}
use technical_tts.Assembly.{max_u64}
use technical_tts.Timeline.{timestamp}

infixl 5 ◌>>=◌
abbrev ◌>>=◌ {ℓ κ} : {A : Type ℓ} {B : Type κ} → Option A → (A → Option B) → Option B
none >>= f = none
some a >>= f = f a

-- A reader of `H:M:S.mmm`: the milliseconds it names.
unfoldable pub read_timestamp : Text → Option ℕ
read_timestamp text = do
  (hours, rest) ← split_once b':' text
  (minutes, rest') ← split_once b':' rest
  (seconds, milliseconds) ← split_once b'.' rest'
  h ← parse_decimal max_u64 hours
  m ← parse_decimal max_u64 minutes
  s ← parse_decimal max_u64 seconds
  ms ← parse_decimal max_u64 milliseconds
  some (((h * 60 + m) * 60 + s) * 1000 + ms)

-- A byte that is no digit does not stand in a padded number.
padded-Lacks : (b width n : ℕ) → ((c : ℕ) → IsDigit c → c ≢ b) → Lacks b (padded width n)
padded-Lacks b width n f = All-mono IsDigit (λ c. c ≢ b) (padded width n) f (All-padded width n)

-- Marks between four parts, from the left and from the right.
regroup :
    (a b c d : Text) (x y z : ℕ)
    → a ++ (x ∷ []) ++ b ++ (y ∷ []) ++ c ++ (z ∷ []) ++ d ≡ a ++ (x ∷ (b ++ (y ∷ (c ++ (z ∷ d)))))
regroup a b c d x y z = simp append_assoc refl

split_seconds :
    (seconds : ℕ) → (seconds / 3600 * 60 + seconds / 60 % 60) * 60 + seconds % 60 ≡ seconds
split_seconds seconds = omega arith

milliseconds_left :
    (frames : ℕ) → frames / 24000 * 1000 + frames % 24000 * 1000 / 24000 ≡ frames / 24
milliseconds_left frames = omega arith

read_parts :
    (a b c d : Text) (h m s ms : ℕ)
    → Lacks b':' a
    → Lacks b':' b
    → Lacks b'.' c
    → parse_decimal max_u64 a ≡ some h
    → parse_decimal max_u64 b ≡ some m
    → parse_decimal max_u64 c ≡ some s
    → parse_decimal max_u64 d ≡ some ms
    → read_timestamp (a ++ (b':' ∷ []) ++ b ++ (b':' ∷ []) ++ c ++ (b'.' ∷ []) ++ d)
      ≡ some (((h * 60 + m) * 60 + s) * 1000 + ms)
unfolding read_timestamp
read_parts a b c d h m s ms la lb lc pa pb pc pd =
    rw
      (
        regroup a b c d b':' b':' b'.',
        split_once-append b':' a (b ++ (b':' ∷ (c ++ (b'.' ∷ d)))) la,
        split_once-append b':' b (c ++ (b'.' ∷ d)) lb,
        split_once-append b'.' c d lc,
        pa,
        pb,
        pc,
        pd,
      )
      refl

-- The remainder below one second is scaled without passing `u64`.
scaled : (frames : ℕ) → (frames % 24000 * 1000) % 2 ^ 64 / 24000 ≡ frames % 24000 * 1000 / 24000
scaled frames = omega arith

-- For every `u64` frame position the timestamp reads back as the whole milliseconds before that
-- frame: 24 frames are a millisecond, the rest is rounded down, and no product passes `u64`.
pub read-timestamp :
    (frames : ℕ) → frames ≤ max_u64 → read_timestamp (timestamp frames) ≡ some (frames / 24)
unfolding timestamp read_timestamp
read-timestamp frames h =
    let seconds = frames / 24000 in
    let ms = frames % 24000 * 1000 / 24000 in
    rw (scaled frames) (
      read_parts _ _ _ _ (seconds / 3600) (seconds / 60 % 60) (seconds % 60) ms
        (padded-Lacks b':' 2 (seconds / 3600) (λ c d e. omega arith))
        (padded-Lacks b':' 2 (seconds / 60 % 60) (λ c d e. omega arith))
        (padded-Lacks b'.' 2 (seconds % 60) (λ c d e. omega arith))
        (parse-padded max_u64 2 (seconds / 3600) (omega arith))
        (parse-padded max_u64 2 (seconds / 60 % 60) (omega arith))
        (parse-padded max_u64 2 (seconds % 60) (omega arith))
        (parse-padded max_u64 3 ms (omega arith))
      ∙ ap some (ap (λ n. n * 1000 + ms) (split_seconds seconds) ∙ milliseconds_left frames))
