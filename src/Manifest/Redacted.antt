-- ===== src/Manifest/Redacted.antt =====
-- The arguments of an execution, once the staging directory is taken out of them.
use technical_tts.Prelude.{
  ◌≡◌, ◌≢◌, ◌⊎◌, inl, inr, refl, Bool-cases, true, false, List, [], ◌∷◌, All, any, ok, arith,
}
use technical_tts.Text.{Text, starts_with}
use technical_tts.Manifest.Stored.{records_absolute_argument}
use technical_tts.Manifest.Package.{check_execution}
use technical_tts.Manifest.Write.{
  staging_root_placeholder, starts_with_text, replace_from, with_staging_root_redacted,
  RecordedExecution,
}
use technical_tts.Manifest.Reused.{reread_execution}

-- The argument is not absolute, or lies in the package directory.
abbrev pub IsInside : Text → Text → Type 0
IsInside dir argument = (starts_with_text dir argument ≡ true) ⊎ (starts_with argument b'/' ≡ false)

-- An execution with an argument, none of them absolute but those in the package directory.
pub record IsPortableUse (dir : Text) (e : RecordedExecution) : Type 0 where
  pub some_argument : e.arguments ≢ []
  pub inside : All (IsInside dir) e.arguments

redacted-relative :
    (dir argument : Text)
    → IsInside dir argument
    → starts_with (replace_from 0 dir staging_root_placeholder argument) b'/' ≡ false
unfolding replace_from
redacted-relative dir [] h = refl
redacted-relative dir (c ∷ s) h = elim (Bool-cases (starts_with_text dir (c ∷ s))) [
  | inl e ↦ rw e refl
  | inr e ↦ elim h [ inl i ↦ absurd (ground (arith, e, i)) | inr relative ↦ rw e relative ]
]

none_absolute :
    (dir : Text) (arguments : List Text)
    → All (IsInside dir) arguments
    → any (λ argument. starts_with argument b'/') (with_staging_root_redacted arguments dir) ≡ false
none_absolute dir [] h = refl
none_absolute dir (a ∷ more) h = rw (redacted-relative dir a h.0) (none_absolute dir more h.1)

pub IsPortableUse-relative :
    (dir : Text) (e : RecordedExecution)
    → IsPortableUse dir e
    → records_absolute_argument (reread_execution dir e) ≡ false
IsPortableUse-relative dir e h = none_absolute dir e.arguments h.inside

kept_argument :
    (dir : Text) (e : RecordedExecution) (arguments : List Text)
    → e.arguments ≡ arguments
    → arguments ≢ []
    → check_execution (reread_execution dir e) ≡ ok tt
kept_argument dir e [] same h = absurd (h refl)
kept_argument dir e (a ∷ more) same h = rw same refl

pub IsPortableUse-argued :
    (dir : Text) (e : RecordedExecution)
    → IsPortableUse dir e
    → check_execution (reread_execution dir e) ≡ ok tt
IsPortableUse-argued dir e h = kept_argument dir e e.arguments refl h.some_argument
