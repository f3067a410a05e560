-- ===== src/Schema/Acceptance.antt =====
-- Which versions a build reads, and that the published `enum` lists exactly those.
use native.Mathlib.Decide.{ℕ_discrete}
use technical_tts.Prelude.{
  ℕ, zero, suc, ◌≤◌, ◌≡◌, ◌↔◌, ◌⊎◌, inl, inr, refl, ap, ◌∙◌, List, [], ◌∷◌, ◌++◌, arith, In, ok,
}
use technical_tts.Text.{Text}
use technical_tts.Schema.{
  SchemaVersion, IsVersion, SchemaCompatibility, current, compatible_extension, new, to_string,
  from_str, accepted_by, accepted_versions, accepted_versions_enum,
}
use technical_tts.Schema.Spelling.{from_str_iff}

-- The build reads the version.
abbrev pub IsAccepted : SchemaVersion → SchemaVersion → Type 0
IsAccepted v supported = (c : SchemaCompatibility) × (accepted_by v supported ≡ ok c)

-- A version is read exactly when its major is the build's and its minor is no newer.
pub IsAccepted-iff :
    (v supported : SchemaVersion)
    → IsAccepted v supported ↔ ((v.major ≡ supported.major) × (v.minor ≤ supported.minor))
unfolding accepted_by
IsAccepted-iff v supported = (
  λ (c, h). ground arith,
  λ h. elim (ℕ_discrete v.minor supported.minor) [
    | yes e ↦ (current, ground arith)
    | no e ↦ (compatible_extension, ground arith)
  ],
)

In-append_left : {A : Type 0} (a : A) (xs ys : List A) → In a xs → In a (xs ++ ys)
In-append_left a [] ys i = absurd i
In-append_left a (x ∷ xs) ys (inl e) = inl e
In-append_left a (x ∷ xs) ys (inr i) = inr (In-append_left a xs ys i)

In-append_last : {A : Type 0} (a : A) (xs : List A) → In a (xs ++ a ∷ [])
In-append_last a [] = inl refl
In-append_last a (x ∷ xs) = inr (In-append_last a xs)

In-snoc : {A : Type 0} (a b : A) (xs : List A) → In a (xs ++ b ∷ []) → In a xs ⊎ (a ≡ b)
In-snoc a b [] (inl e) = inr e
In-snoc a b [] (inr i) = absurd i
In-snoc a b (x ∷ xs) (inl e) = inl (inl e)
In-snoc a b (x ∷ xs) (inr i) = elim (In-snoc a b xs i) [ inl j ↦ inl (inr j) | inr e ↦ inr e ]

In-accepted_versions :
    (major k n : ℕ) → n ≤ k → In (to_string (new major n)) (accepted_versions major k)
unfolding accepted_versions
In-accepted_versions major zero n h = let e : n ≡ 0 = omega arith in inl (rw e)
In-accepted_versions major (suc k) n h = elim (ℕ_discrete n (suc k)) [
  | yes e ↦ rw e (In-append_last (to_string (new major (suc k))) (accepted_versions major k))
  | no e ↦
      In-append_left (to_string (new major n)) (accepted_versions major k) _
        (In-accepted_versions major k n (omega arith))
]

accepted_versions-In :
    (major k : ℕ) (s : Text)
    → In s (accepted_versions major k)
    → (n : ℕ) × (n ≤ k) × (s ≡ to_string (new major n))
unfolding accepted_versions
accepted_versions-In major zero s (inl e) = (0, omega arith, e)
accepted_versions-In major zero s (inr i) = absurd i
accepted_versions-In major (suc k) s i =
    elim (In-snoc s (to_string (new major (suc k))) (accepted_versions major k) i) [
      | inl j ↦ let (n, h, e) = accepted_versions-In major k s j in (n, omega arith, e)
      | inr e ↦ (suc k, omega arith, e)
    ]

enum-IsAccepted :
    (supported : SchemaVersion) (s : Text)
    → IsVersion supported
    → In s (accepted_versions_enum supported)
    → (v : SchemaVersion) × (from_str s ≡ ok v) × IsAccepted v supported
unfolding accepted_versions_enum
enum-IsAccepted supported s fits i =
    let (n, h, e) = accepted_versions-In supported.major supported.minor s i in
    let v = new supported.major n in
    (
      v,
      (from_str_iff s v).1
          (e, record { major_fits = fits.major_fits; minor_fits = omega (arith, fits.minor_fits) }),
      (IsAccepted-iff v supported).1 (refl, h),
    )

IsAccepted-enum :
    (supported v : SchemaVersion) (s : Text)
    → from_str s ≡ ok v
    → IsAccepted v supported
    → In s (accepted_versions_enum supported)
unfolding accepted_versions_enum
IsAccepted-enum supported v s parsed accepted =
    let (same, older) = (IsAccepted-iff v supported).0 accepted in
    let spelled : s ≡ to_string (new supported.major v.minor) =
      ((from_str_iff s v).0 parsed).0 ∙ ap (λ m. to_string (new m v.minor)) same in
    rw spelled (In-accepted_versions supported.major supported.minor v.minor older)

-- The published `enum` lists a text exactly when it parses to a version that the build reads.
pub accepted_versions_enum_iff :
    (supported : SchemaVersion) (s : Text)
    → IsVersion supported
    → In s (accepted_versions_enum supported)
      ↔ ((v : SchemaVersion) × (from_str s ≡ ok v) × IsAccepted v supported)
accepted_versions_enum_iff supported s fits = (
  enum-IsAccepted supported s fits,
  λ (v, parsed, accepted). IsAccepted-enum supported v s parsed accepted,
)
