-- ===== src/Timeline/Escape/Cue.antt =====
-- Cue text: no mark-up of WebVTT and no line break, and readable back to the single line.
use technical_tts.Prelude.{
  ℕ, ◌≡◌, ◌≢◌, refl, sym, ap, subst, ◌∙◌, true, false, Option, none, some, [], ◌∷◌, ◌++◌, All,
  arith, ◌==◌, if◌then◌else◌,
}
use technical_tts.Text.{Text, codes, text_eq}
use technical_tts.Timeline.{single_line, replace, escape_cue_text}
use technical_tts.Timeline.Escape.{
  IsInline, single_line-IsInline, spelled, All-spelled, replace-append, spelled-of, replace-split,
}

-- The spelling of one byte in a cue.
abbrev cue_spelling : ℕ → Text
cue_spelling c =
    if c == b'&'
    then codes "&amp;"
    else if c == b'<'
    then codes "&lt;"
    else if c == b'>'
    then codes "&gt;"
    else c ∷ []

abbrev amp_replaced : Text → Text
amp_replaced = replace b'&' (codes "&amp;")

abbrev lt_replaced : Text → Text
lt_replaced s = replace b'<' (codes "&lt;") (amp_replaced s)

abbrev gt_replaced : Text → Text
gt_replaced s = replace b'>' (codes "&gt;") (lt_replaced s)

gt_replaced-one : (c : ℕ) → gt_replaced (c ∷ []) ≡ cue_spelling c
gt_replaced-one c = ground arith

gt_replaced-spelled : (s : Text) → gt_replaced s ≡ spelled cue_spelling s
gt_replaced-spelled =
    spelled-of gt_replaced cue_spelling refl
      (replace-split b'>' (codes "&gt;") lt_replaced
        (replace-split b'<' (codes "&lt;") amp_replaced (replace-append b'&' (codes "&amp;"))))
      gt_replaced-one

escape_cue_text-spelled :
    (text : Text) → escape_cue_text text ≡ spelled cue_spelling (single_line text)
unfolding escape_cue_text
escape_cue_text-spelled text = gt_replaced-spelled (single_line text)

-- What may stand in a cue: no tag, no `-->` and no line break.
abbrev pub IsPayload : ℕ → Type 0
IsPayload c = (c ≢ b'<') × (c ≢ b'>') × IsInline c

cue_spelling-IsPayload : (c : ℕ) → IsInline c → All IsPayload (cue_spelling c)
cue_spelling-IsPayload c h = ground arith

-- No byte of an escaped cue text is `<`, `>`, a line feed or a carriage return, so it neither opens
-- a tag nor ends its cue nor starts a timing line.
pub escape_cue_text-IsPayload : (text : Text) → All IsPayload (escape_cue_text text)
escape_cue_text-IsPayload text = subst (All IsPayload) (sym (escape_cue_text-spelled text)) (
    All-spelled IsInline IsPayload cue_spelling (single_line text) cue_spelling-IsPayload
      (single_line-IsInline text))

-- The character that a reference names.
abbrev named : Text → Text
named name =
    if text_eq name (codes "amp")
    then codes "&"
    else if text_eq name (codes "lt")
    then codes "<"
    else if text_eq name (codes "gt")
    then codes ">"
    else codes "&" ++ name ++ codes ";"

-- A reader of cue text: outside a reference, or with the name read so far.
abbrev read_from : Option Text → Text → Text
read_from none [] = []
read_from (some name) [] = codes "&" ++ name
read_from none (c ∷ s) = elim (c == b'&') [
  | true ↦ read_from (some []) s
  | false ↦ c ∷ read_from none s
]
read_from (some name) (c ∷ s) = elim (c == b';') [
  | true ↦ named name ++ read_from none s
  | false ↦ read_from (some (name ++ c ∷ [])) s
]

unfoldable pub read_cue : Text → Text
read_cue s = read_from none s

read_from-spelling :
    (c : ℕ) (s : Text) → read_from none (cue_spelling c ++ s) ≡ c ∷ read_from none s
unfolding text_eq
read_from-spelling c s = ground arith

read_from-spelled : (s : Text) → read_from none (spelled cue_spelling s) ≡ s
read_from-spelled [] = refl
read_from-spelled (c ∷ s) =
    read_from-spelling c (spelled cue_spelling s) ∙ ap (λ t. c ∷ t) (read_from-spelled s)

-- A reader of character references finds the single line of the text again: escaping loses nothing.
pub read-escape_cue_text : (text : Text) → read_cue (escape_cue_text text) ≡ single_line text
unfolding read_cue
read-escape_cue_text text =
    ap (read_from none) (escape_cue_text-spelled text) ∙ read_from-spelled (single_line text)
