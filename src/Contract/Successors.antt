-- ===== src/Contract/Successors.antt =====
-- What an accepted successor keeps.
use technical_tts.Prelude.{
  ◌≡◌, ◌<◌, refl, Bool, true, false, Option, none, some, arith, ◌==◌, ==_iff, Result, ok, ok_or,
  subst, &&_iff, ltb, not, ◌&&◌, ltb→lt, then-ok_iff, refuse_if-ok_iff, if◌then◌else◌,
}
use technical_tts.Contract.{
  ContractId, tts_executor, worker_frames, cache_publication, package_writer, job_state,
  ContractVersion, ContractChange, ContractDescriptor, SuccessorCompatibility, successor_unchanged,
  successor_diagnostic_patch, successor_compatible_extension, successor_breaking, id_number,
  descriptor_eq, assess_successor, classified, when, version_eq, baseline, diagnostic_patch,
  compatible_extension, breaking, architectural, ContractVersionError,
}

id_number_injective : (a b : ContractId) → id_number a ≡ id_number b → a ≡ b
id_number_injective tts_executor tts_executor h = refl
id_number_injective worker_frames worker_frames h = refl
id_number_injective cache_publication cache_publication h = refl
id_number_injective package_writer package_writer h = refl
id_number_injective job_state job_state h = refl
id_number_injective _ _ h = absurd (omega arith)

-- How the version has moved, for each answer.
abbrev pub Moved : SuccessorCompatibility → ContractVersion → ContractVersion → Type 0
Moved successor_unchanged v w = (w.major ≡ v.major) × (w.minor ≡ v.minor) × (w.patch ≡ v.patch)
Moved successor_diagnostic_patch v w =
    (w.major ≡ v.major) × (w.minor ≡ v.minor) × (w.patch ≡ v.patch)
Moved successor_compatible_extension v w = (w.major ≡ v.major) × (v.minor < w.minor) × (w.patch ≡ 0)
Moved successor_breaking v w = (v.major < w.major) × (w.minor ≡ 0) × (w.patch ≡ 0)

when-some :
    (b : Bool) (c d : SuccessorCompatibility) (P : SuccessorCompatibility → Type 0)
    → (b ≡ true → P c)
    → when b c ≡ some d
    → P d
when-some true c d P holds h = subst P (ground (arith, h)) (holds refl)
when-some false c d P holds h = absurd (ground (arith, h))

then_else-ok :
    (b : Bool) (c d : SuccessorCompatibility)
    (r : Result SuccessorCompatibility ContractVersionError) (P : SuccessorCompatibility → Type 0)
    → (b ≡ true → P c)
    → (r ≡ ok d → P d)
    → (if b then ok c else r) ≡ ok d
    → P d
then_else-ok true c d r P kept moved h = subst P (ground (arith, h)) (kept refl)
then_else-ok false c d r P kept moved h = moved h

ok_or-ok :
    (o : Option SuccessorCompatibility) (e : ContractVersionError) (c : SuccessorCompatibility)
    → ok_or o e ≡ ok c
    → o ≡ some c
ok_or-ok none e c h = absurd (ground (arith, h))
ok_or-ok (some a) e c h = ground (arith, h)

&&_split : (a b c : Bool) → (a && b && c) ≡ true → (a ≡ true) × (b ≡ true) × (c ≡ true)
&&_split a b c h = ground (arith, h)

version_eq-Moved : (v w : ContractVersion) → version_eq w v ≡ true → Moved successor_unchanged v w
version_eq-Moved v w h =
    let (m, n, p) = &&_split (w.major == v.major) (w.minor == v.minor) (w.patch == v.patch) h in
    ((==_iff w.major v.major).0 m, (==_iff w.minor v.minor).0 n, (==_iff w.patch v.patch).0 p)

major_step :
    (d e : ContractDescriptor)
    → (ltb d.version.major e.version.major && e.version.minor == 0 && e.version.patch == 0) ≡ true
    → Moved successor_breaking d.version e.version
major_step d e b =
    let (m, n, p) =
      &&_split (ltb d.version.major e.version.major) (e.version.minor == 0) (e.version.patch == 0)
        b in
    (
      ltb→lt d.version.major e.version.major m,
      (==_iff e.version.minor 0).0 n,
      (==_iff e.version.patch 0).0 p,
    )

kept : (b : Bool) → not b ≡ false → b ≡ true
kept true h = refl
kept false h = absurd (ground (arith, h))

classified-Moved :
    (d e : ContractDescriptor) (k : ContractChange) (c : SuccessorCompatibility)
    → classified d e k ≡ some c
    → Moved c d.version e.version
unfolding classified
classified-Moved d e baseline c h = absurd (ground (arith, h))
classified-Moved d e diagnostic_patch c h =
    when-some _ _ c (λ c. Moved c d.version e.version)
      (λ b. version_eq-Moved d.version e.version ((&&_iff _ _).0 b).0) h
classified-Moved d e compatible_extension c h =
    when-some _ _ c (λ c. Moved c d.version e.version)
      (λ b.
        let (m, n, p) =
          &&_split (e.version.major == d.version.major) (ltb d.version.minor e.version.minor)
            (e.version.patch == 0) b in
        (
          (==_iff e.version.major d.version.major).0 m,
          ltb→lt d.version.minor e.version.minor n,
          (==_iff e.version.patch 0).0 p,
        ))
      h
classified-Moved d e breaking c h =
    when-some _ _ c (λ c. Moved c d.version e.version) (major_step d e) h
classified-Moved d e architectural c h =
    when-some _ _ c (λ c. Moved c d.version e.version) (major_step d e) h

unchanged-Moved :
    (d e : ContractDescriptor)
    → descriptor_eq e d ≡ true
    → Moved successor_unchanged d.version e.version
unchanged-Moved d e h =
    let versions = version_eq-Moved d.version e.version in versions (ground (arith, h))

-- An accepted successor versions the same contract, rejects unknown fields, and has moved the
-- version as the answer says: unchanged or for diagnostics, not at all; for a compatible extension,
-- to a later minor version of the same major one; for a breaking change, to a later major version.
pub assess_successor-Moved :
    (d e : ContractDescriptor) (c : SuccessorCompatibility)
    → assess_successor d e ≡ ok c
    → (d.contract_id ≡ e.contract_id)
      × (e.rejects_unknown_fields ≡ true)
      × Moved c d.version e.version
unfolding assess_successor
assess_successor-Moved d e c h =
    let (same, r) = (then-ok_iff _ _ c).0 h in
    let (strict, s) = (then-ok_iff _ _ c).0 r in
    let (default, t) = (then-ok_iff _ _ c).0 s in
    (
      id_number_injective _ _ ((==_iff _ _).0 (kept _ ((refuse_if-ok_iff _ _).0 same))),
      kept _ ((refuse_if-ok_iff _ _).0 strict),
      then_else-ok (descriptor_eq e d) _ c _ (λ c. Moved c d.version e.version)
          (unchanged-Moved d e) (λ u. classified-Moved d e e.change c (ok_or-ok _ _ c u)) t,
    )
