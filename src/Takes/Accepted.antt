-- ===== src/Takes/Accepted.antt =====
-- Which takes documents are accepted.
use mathlib.Core.Bool.{false≢true}
use technical_tts.Prelude.{
  ◌≡◌, ◌≤◌, ◌<◌, ◌↔◌, ◌⊎◌, refl, sym, ap, subst, ◌∙◌, ◌>>◌, true, Option, none, some, List, [], ◌∷◌,
  length, map, All, In, arith, ltb, ◌==◌, Bool-cases, inl, inr, Result, ok, map_err, refuse_if,
  then-ok_iff, map_err-ok_iff, refuse_if-ok_iff, Result-cases,
}
use technical_tts.Prelude.Distinct.{Distinct, Unseen, Unseen-cons_iff}
use technical_tts.Text.{Text, text_eq, text_eq_iff}
use technical_tts.Schema.{SchemaVersion, from_str, accepted_by, schema_uri}
use technical_tts.Schema.Acceptance.{IsAccepted}
use technical_tts.Repository.{max_lesson_segments}
use technical_tts.Lesson.{LessonError, validate_segment_id, validate_lesson_id}
use technical_tts.Lesson.Identifiers.{IsPortable, validate_segment_id_iff, validate_lesson_id_iff}
use technical_tts.Plan.{base_take}
use technical_tts.Takes.{
  SelectedTake, TakesDocument, ValidatedTakes, TakesError, invalid_lesson_id, invalid_segment_id,
  duplicate_selection, missing_selections, too_many_selections, takes_schema_version,
  takes_schema_stem, contains, check_link, check_keys, check_selections, validate,
}

-- Take zero has the base key, and only take zero has it.
abbrev pub KeysAgree : SelectedTake → Type 0
KeysAgree s = (s.selected_take ≡ base_take) ↔ (s.selected_cache_key ≡ s.synthesis_base_key)

abbrev pub segment_ids : List SelectedTake → List Text
segment_ids = map (λ s. s.segment_id)

pub contains_iff : (set : List Text) (t : Text) → (contains set t ≡ true) ↔ In t set
contains_iff [] t = ground arith
contains_iff (x ∷ set) t = ground (arith, text_eq_iff t x, contains_iff set t)

check_keys_iff : (s : SelectedTake) → (check_keys s ≡ ok tt) ↔ KeysAgree s
unfolding check_keys
check_keys_iff s = ground (
  arith,
  text_eq_iff s.selected_cache_key s.synthesis_base_key,
  Bool-cases (text_eq s.selected_cache_key s.synthesis_base_key),
)

check_link_iff :
    (version : SchemaVersion) (link : Option Text)
    → (check_link version link ≡ ok tt)
      ↔ ((link ≡ none) ⊎ (link ≡ some (schema_uri takes_schema_stem version.major)))
unfolding check_link
check_link_iff version none = ground arith
check_link_iff version (some declared) =
    ground (arith, text_eq_iff declared (schema_uri takes_schema_stem version.major))

-- The selection is for a portable name, and its keys agree with its take.
abbrev pub IsSelection : SelectedTake → Type 0
IsSelection s = IsPortable s.segment_id × KeysAgree s

-- None of the selections is for a segment seen before.
abbrev Fresh : List Text → List SelectedTake → Type 0
Fresh = Unseen (λ s. s.segment_id)

-- One round of the loop.
check_selections-cons_iff :
    (seen : List Text) (s : SelectedTake) (ss : List SelectedTake)
    → (check_selections seen (s ∷ ss) ≡ ok tt) ↔ (
        IsPortable s.segment_id
        × (¬ In s.segment_id seen)
        × KeysAgree s
        × (check_selections (s.segment_id ∷ seen) ss ≡ ok tt))
unfolding check_selections
check_selections-cons_iff seen s ss =
    let named = validate_segment_id_iff s.segment_id in
    let unseen = contains_iff seen s.segment_id in
    let agree = check_keys_iff s in
    let rest = check_selections (s.segment_id ∷ seen) ss in
    let keys = check_keys s in
    let again = refuse_if (contains seen s.segment_id) (duplicate_selection s.segment_id) in
    let name =
      map_err {E = LessonError} {F = TakesError} invalid_segment_id
        (validate_segment_id s.segment_id) in
    let (a, b) = then-ok_iff name (again >> (keys >> rest)) tt in
    let (c, d) = then-ok_iff again (keys >> rest) tt in
    let (e, f) = then-ok_iff keys rest tt in
    let (m, n) =
      map_err-ok_iff {F = TakesError} invalid_segment_id (validate_segment_id s.segment_id) tt in
    let (o, p) = refuse_if-ok_iff (contains seen s.segment_id) (duplicate_selection s.segment_id) in
    (
      λ h.
          let h1 = (a h).1 in
          let h2 = (c h1).1 in
          (
            named.0 (m (a h).0),
            λ i. false≢true (sym (o (c h1).0) ∙ unseen.1 i),
            agree.0 (e h2).0,
            (e h2).1,
          ),
      λ h. b (
        n (named.1 h.0),
        d (
          p (elim (Bool-cases (contains seen s.segment_id)) [
            | inl seen_it ↦ absurd (h.1 (unseen.0 seen_it))
            | inr new_one ↦ new_one
          ]),
          f (agree.1 h.2, h.3),
        ),
      ),
    )

check_selections_iff :
    (seen : List Text) (ss : List SelectedTake)
    → (check_selections seen ss ≡ ok tt)
      ↔ (All IsSelection ss × Distinct (segment_ids ss) × Fresh seen ss)
check_selections_iff seen [] = (λ _. (tt, tt, tt), λ _. unfold check_selections in refl)
check_selections_iff seen (s ∷ ss) =
    let (a, b) = check_selections-cons_iff seen s ss in
    let (c, d) = check_selections_iff (s.segment_id ∷ seen) ss in
    let (e, f) = Unseen-cons_iff (λ (r : SelectedTake). r.segment_id) s.segment_id seen ss in
    (
      λ h.
          let k = a h in
          let r = c k.3 in let q = e r.2 in (((k.0, k.2), r.0), (q.0, r.1), (k.1, q.1)),
      λ h. b (h.0.0.0, h.2.0, h.0.0.1, d (h.0.1, h.1.1, f (h.1.0, h.2.1))),
    )

-- What an accepted document is, with the version that it declares.
pub record IsAcceptable (d : TakesDocument) (v : SchemaVersion) : Type 0 where
  pub declared : from_str d.schema_version ≡ ok v
  pub readable : IsAccepted v takes_schema_version
  pub linked : (d.schema ≡ none) ⊎ (d.schema ≡ some (schema_uri takes_schema_stem v.major))
  pub lesson : IsPortable d.lesson_id
  pub some_selected : 0 < length d.selections
  pub few_selected : length d.selections ≤ max_lesson_segments
  pub selected : All IsSelection d.selections
  pub distinct : Distinct (segment_ids d.selections)

Fresh-nil : (ss : List SelectedTake) → Fresh [] ss
Fresh-nil [] = tt
Fresh-nil (s ∷ ss) = (λ i. i, Fresh-nil ss)

-- The checks behind the version.
abbrev checked : TakesDocument → SchemaVersion → Result ValidatedTakes TakesError
checked d v = do
  check_link v d.schema
  map_err invalid_lesson_id (validate_lesson_id d.lesson_id)
  refuse_if (length d.selections == 0) missing_selections
  refuse_if (ltb max_lesson_segments (length d.selections))
      (too_many_selections (length d.selections) max_lesson_segments)
  check_selections [] d.selections
  ok (record { authored = d; schema_version = v })

checked_iff :
    (d : TakesDocument) (v : SchemaVersion) (t : ValidatedTakes)
    → (checked d v ≡ ok t) ↔ (
        (t ≡ record { authored = d; schema_version = v })
        × ((d.schema ≡ none) ⊎ (d.schema ≡ some (schema_uri takes_schema_stem v.major)))
        × IsPortable d.lesson_id
        × (0 < length d.selections)
        × (length d.selections ≤ max_lesson_segments)
        × (check_selections [] d.selections ≡ ok tt))
checked_iff d v t = ground (
  arith,
  check_link_iff v d.schema,
  validate_lesson_id_iff d.lesson_id,
  Result-cases (check_link v d.schema),
  Result-cases (validate_lesson_id d.lesson_id),
  Result-cases (check_selections [] d.selections),
)

validate-checked :
    (d : TakesDocument) (v : SchemaVersion)
    → from_str d.schema_version ≡ ok v
    → IsAccepted v takes_schema_version
    → validate d ≡ checked d v
unfolding validate
validate-checked d v e (c, f) = rw (e, f) refl

validate_version :
    (d : TakesDocument) (t : ValidatedTakes)
    → validate d ≡ ok t
    → (v : SchemaVersion) × (from_str d.schema_version ≡ ok v) × IsAccepted v takes_schema_version
unfolding validate
validate_version d t h = elim (Result-cases (from_str d.schema_version)) [
  | inl (v, e) ↦ elim (Result-cases (accepted_by v takes_schema_version)) [
    | inl (c, f) ↦ (v, e, (c, f))
    | inr (x, f) ↦ absurd (ground arith)
  ]
  | inr (x, e) ↦ absurd (ground arith)
]

IsAcceptable-checked :
    (d : TakesDocument) (v : SchemaVersion) (t : ValidatedTakes)
    → from_str d.schema_version ≡ ok v
    → IsAccepted v takes_schema_version
    → checked d v ≡ ok t
    → (t.authored ≡ d) × IsAcceptable d t.schema_version
IsAcceptable-checked d v t e a h =
    let k = (checked_iff d v t).0 h in
    let s = (check_selections_iff [] d.selections).0 k.5 in
    (
      ap (λ x. x.authored) k.0,
      subst (λ (x : ValidatedTakes). IsAcceptable d x.schema_version) (sym k.0)
          (record {
            declared = e;
            readable = a;
            linked = k.1;
            lesson = k.2;
            some_selected = k.3;
            few_selected = k.4;
            selected = s.0;
            distinct = s.1;
          }),
    )

-- A takes document is accepted exactly when its version is readable and its schema link, if any, is
-- that version's, its lesson and every segment have portable names, it has between 1 and 4,096
-- selections with no segment twice, and a selection's key is the base key for take zero and for no
-- other; it is kept as it is, with its version.
pub validate_iff :
    (d : TakesDocument) (t : ValidatedTakes)
    → (validate d ≡ ok t) ↔ ((t.authored ≡ d) × IsAcceptable d t.schema_version)
validate_iff d t = (
  λ h.
      let (v, e, a) = validate_version d t h in
      IsAcceptable-checked d v t e a (sym (validate-checked d v e a) ∙ h),
  λ (same, a).
      validate-checked d t.schema_version a.declared a.readable
      ∙ (checked_iff d t.schema_version t).1 (
        ap (λ x. record { authored = x; schema_version = t.schema_version }) same,
        a.linked,
        a.lesson,
        a.some_selected,
        a.few_selected,
        (check_selections_iff [] d.selections).1 (a.selected, a.distinct, Fresh-nil d.selections),
      ),
)
