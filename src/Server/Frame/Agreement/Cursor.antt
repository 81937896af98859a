-- ===== src/Server/Frame/Agreement/Cursor.antt =====
-- A line at a time: the scan for the headers' end in server/src/worker.c, and the cursor of the
-- parser in common/src/http_protocol.c.
use codo.Prelude.{
  ℕ, zero, suc, ◌+◌, ◌<◌, ◌≡◌, refl, sym, ap, ap₂, ◌∙◌, false, Option, none, some, List, [], ◌∷◌,
  ◌++◌, Bool-cases, Option-cases, inl, inr, ◌==◌, arith, length, take, drop,
}
use codo.Common.Http.{lf, split_line, strip_cr}
use codo.Common.Http.Request.Message.{c_string}
use codo.Server.Frame.{blank_line, header_end, has_byte, lines}

-- Where the headers end, from the end of a line at position `j` on.
abbrev pub header_after : List ℕ → ℕ → Option (ℕ × ℕ)
header_after rest j = elim (blank_line rest) [
  | some k ↦ some (j, j + 1 + k)
  | none ↦ header_end rest (j + 1)
]

pub header_end-line :
    (p raw rest : List ℕ) (i j : ℕ)
    → split_line p ≡ some (raw, rest)
    → j ≡ i + length raw
    → header_end p i ≡ header_after rest j
unfolding split_line header_end
header_end-line [] raw rest i j h e = absurd (ground arith)
header_end-line (c ∷ p) raw rest i j h e = elim (Bool-cases (c == lf)) [
  | inl t ↦
      let same : j ≡ i = ground (arith, t) in
      let same' : p ≡ rest = ground (arith, t) in
      let here : header_end (c ∷ p) i ≡ header_after p i = rw (header_end, t) refl in
      here ∙ ap₂ header_after same' (sym same)
  | inr t ↦ elim (Option-cases (split_line p)) [
    | inl e' ↦ absurd (ground (arith, t, e'))
    | inr ((raw', rest'), e') ↦
        let same : rest' ≡ rest = ground (arith, t, e') in
        let more : suc (length raw') ≡ length raw = ground (arith, t, e') in
        rw (header_end, t, ← same) (header_end-line p raw' rest' (i + 1) j e' (omega arith))
  ]
]

pub header_end-none : (p : List ℕ) (i : ℕ) → split_line p ≡ none → header_end p i ≡ none
unfolding split_line header_end
header_end-none [] i h = refl
header_end-none (c ∷ p) i h = elim (Bool-cases (c == lf)) [
  | inl t ↦ absurd (ground (arith, t))
  | inr t ↦ elim (Option-cases (split_line p)) [
    | inl e ↦ rw (header_end, t) (header_end-none p (i + 1) e)
    | inr (x, e) ↦ absurd (ground (arith, t, e))
  ]
]

-- A line, its line feed, and what follows.
pub split_line-parts :
    (p raw rest : List ℕ)
    → split_line p ≡ some (raw, rest)
    → (p ≡ raw ++ (lf ∷ rest)) × (has_byte lf raw ≡ false)
unfolding split_line has_byte
split_line-parts [] raw rest h = absurd (ground arith)
split_line-parts (c ∷ p) raw rest h = elim (Bool-cases (c == lf)) [
  | inl t ↦
      let e : raw ≡ [] = ground (arith, t) in
      let e' : rest ≡ p = ground (arith, t) in
      let e'' : c ≡ lf = ground (arith, t) in rw (e, e', e'') (refl, refl)
  | inr t ↦ elim (Option-cases (split_line p)) [
    | inl e' ↦ absurd (ground (arith, t, e'))
    | inr ((raw', rest'), e') ↦
        let same : rest ≡ rest' = ground (arith, t, e') in
        let more : raw ≡ c ∷ raw' = ground (arith, t, e') in
        let (whole, clean) = split_line-parts p raw' rest' e' in
        rw (same, more) (ap (◌∷◌ c) whole, rw (t) clean)
  ]
]

pub lines_last : (raw : List ℕ) → 0 < length raw → has_byte lf raw ≡ false → lines raw ≡ raw ∷ []
unfolding lines has_byte
lines_last [] h n = absurd (omega arith)
lines_last (c ∷ []) h n = ground arith
lines_last (c ∷ d ∷ p) h n =
    let t : (c == lf) ≡ false = ground arith in
    let n' : has_byte lf (d ∷ p) ≡ false = ground arith in
    rw (lines, t, lines_last (d ∷ p) (omega arith) n') refl

pub lines_more :
    (raw text : List ℕ) → has_byte lf raw ≡ false → lines (raw ++ (lf ∷ text)) ≡ raw ∷ lines text
unfolding lines has_byte
lines_more [] text n = refl
lines_more (c ∷ p) text n =
    let t : (c == lf) ≡ false = ground arith in
    let n' : has_byte lf p ≡ false = ground arith in rw (lines, t, lines_more p text n') refl

pub take-parts :
    (raw rest : List ℕ) (a b : ℕ)
    → a ≡ length raw + 1 + b
    → take a (raw ++ (lf ∷ rest)) ≡ raw ++ (lf ∷ take b rest)
take-parts [] rest zero b e = absurd (omega arith)
take-parts [] rest (suc a) b e = let e' : a ≡ b = omega arith in ap (λ n. lf ∷ take n rest) e'
take-parts (c ∷ raw) rest zero b e = absurd (omega arith)
take-parts (c ∷ raw) rest (suc a) b e = ap (◌∷◌ c) (take-parts raw rest a b (omega arith))

pub take-raw : (raw rest : List ℕ) → take (length raw) (raw ++ rest) ≡ raw
take-raw [] rest = refl
take-raw (c ∷ raw) rest = ap (◌∷◌ c) (take-raw raw rest)

pub drop-parts :
    (raw rest : List ℕ) (a b : ℕ)
    → a ≡ length raw + 1 + b
    → drop a (raw ++ (lf ∷ rest)) ≡ drop b rest
drop-parts [] rest zero b e = absurd (omega arith)
drop-parts [] rest (suc a) b e = let e' : a ≡ b = omega arith in ap (λ n. drop n rest) e'
drop-parts (c ∷ raw) rest zero b e = absurd (omega arith)
drop-parts (c ∷ raw) rest (suc a) b e = drop-parts raw rest a b (omega arith)

pub has_byte-append :
    (b : ℕ) (x y : List ℕ)
    → has_byte b (x ++ y) ≡ false
    → (has_byte b x ≡ false) × (has_byte b y ≡ false)
unfolding has_byte
has_byte-append b [] y h = (refl, h)
has_byte-append b (c ∷ x) y h =
    let t : (c == b) ≡ false = ground arith in
    let (hx, hy) = has_byte-append b x y (ground (arith, t)) in (rw (t) hx, hy)

pub c_string-clean : (x : List ℕ) → has_byte 0 x ≡ false → c_string x ≡ x
unfolding c_string has_byte
c_string-clean [] h = refl
c_string-clean (c ∷ x) h =
    let t : (c == 0) ≡ false = ground arith in
    rw (c_string, t) (ap (◌∷◌ c) (c_string-clean x (ground (arith, t))))

pub strip_cr-clean : (x : List ℕ) → has_byte 0 x ≡ false → has_byte 0 (strip_cr x) ≡ false
unfolding has_byte strip_cr
strip_cr-clean [] h = refl
strip_cr-clean (c ∷ []) h = ground arith
strip_cr-clean (c ∷ d ∷ p) h =
    let t : (c == 0) ≡ false = ground arith in rw (t) (strip_cr-clean (d ∷ p) (ground (arith, t)))
