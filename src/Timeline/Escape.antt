-- ===== src/Timeline/Escape.antt =====
-- Lemmas on `single_line` and on `str::replace` as a spelling of each byte.
pub mod Cue
pub mod Metadata
use technical_tts.Prelude.{
  ℕ, zero, suc, ◌+◌, ◌≡◌, ◌≢◌, refl, sym, ap, subst, ◌∙◌, Bool, true, false, ◌||◌, Option, none,
  some, List, [], ◌∷◌, ◌++◌, append_assoc, append-nil, All, All-append, arith, ◌==◌, if◌then◌else◌,
}
use technical_tts.Text.{Text, codes, is_empty, join, text_eq, Lacks}
use technical_tts.Timeline.{
  newline, carriage_return, cons_first, split_lines, non_empty, single_line, replace,
}

-- Neither a line feed nor a carriage return.
abbrev pub IsInline : ℕ → Type 0
IsInline c = (c ≢ newline) × (c ≢ carriage_return)

cons_first-IsInline :
    (c : ℕ) (parts : List Text)
    → IsInline c
    → All (All IsInline) parts
    → All (All IsInline) (cons_first c parts)
cons_first-IsInline c [] hc h = ((hc, tt), tt)
cons_first-IsInline c (part ∷ parts) hc h = ((hc, h.0), h.1)

split_lines-IsInline : (s : Text) → All (All IsInline) (split_lines s)
split_lines-IsInline [] = (tt, tt)
split_lines-IsInline (c ∷ s) =
    ground (arith, cons_first-IsInline c (split_lines s), split_lines-IsInline s)

non_empty-IsInline :
    (lines : List Text) → All (All IsInline) lines → All (All IsInline) (non_empty lines)
non_empty-IsInline [] h = tt
non_empty-IsInline ([] ∷ lines) h = non_empty-IsInline lines h.1
non_empty-IsInline ((c ∷ line) ∷ lines) h = (h.0, non_empty-IsInline lines h.1)

join-IsInline :
    (lines : List Text) → All (All IsInline) lines → All IsInline (join (codes " ") lines)
unfolding join
join-IsInline [] h = tt
join-IsInline (line ∷ []) h = h.0
join-IsInline (line ∷ line' ∷ lines) h =
    All-append IsInline _ _
      (All-append IsInline line (codes " ") h.0 ((ground arith, ground arith), tt))
      (join-IsInline (line' ∷ lines) h.1)

pub single_line-IsInline : (s : Text) → All IsInline (single_line s)
unfolding single_line
single_line-IsInline s = join-IsInline _ (non_empty-IsInline _ (split_lines-IsInline s))

-- Each byte put as the text that a function names for it.
abbrev pub spelled : (ℕ → Text) → Text → Text
spelled f [] = []
spelled f (c ∷ s) = f c ++ spelled f s

pub All-spelled :
    (P Q : ℕ → Type 0) (f : ℕ → Text) (s : Text)
    → ((c : ℕ) → P c → All Q (f c))
    → All P s
    → All Q (spelled f s)
All-spelled P Q f [] h all = tt
All-spelled P Q f (c ∷ s) h all =
    All-append Q (f c) (spelled f s) (h c all.0) (All-spelled P Q f s h all.1)

replace-append : (b : ℕ) (t u v : Text) → replace b t (u ++ v) ≡ replace b t u ++ replace b t v
replace-append b t [] v = refl
replace-append b t (c ∷ u) v =
    ground (arith, replace-append b t u v, append_assoc t (replace b t u) (replace b t v))

-- A map of texts that takes `++` apart spells each byte.
pub spelled-of :
    (g : Text → Text) (f : ℕ → Text)
    → g [] ≡ []
    → ((s t : Text) → g (s ++ t) ≡ g s ++ g t)
    → ((c : ℕ) → g (c ∷ []) ≡ f c)
    → (s : Text) → g s ≡ spelled f s
spelled-of g f empty split one [] = empty
spelled-of g f empty split one (c ∷ s) =
    split (c ∷ []) s
    ∙ ap (λ t. t ++ g s) (one c)
    ∙ ap (λ t. f c ++ t) (spelled-of g f empty split one s)

pub replace-split :
    (b : ℕ) (t : Text) (g : Text → Text)
    → ((u v : Text) → g (u ++ v) ≡ g u ++ g v)
    → (u v : Text) → replace b t (g (u ++ v)) ≡ replace b t (g u) ++ replace b t (g v)
replace-split b t g split u v = ap (replace b t) (split u v) ∙ replace-append b t (g u) (g v)
