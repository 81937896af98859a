-- ===== src/Common/Http/Response/Splitting.antt =====
-- The header block of a response in common/src/http_protocol.c: no field can end the block early or
-- add a field of its own.
use codo.Prelude.{
  ℕ, zero, suc, ◌+◌, ◌-◌, ◌/◌, ◌%◌, ◌<◌, ◌≡◌, ◌≢◌, refl, sym, ap, subst, ◌∙◌, false, Option, none,
  some, List, [], ◌∷◌, ◌++◌, Bool-cases, inl, inr, ltb, leb, arith, length, length-append,
  append_nil,
}
use mathlib.Core.List.{append_assoc}
use codo.Todo.Index.{decimal}
use codo.Common.Http.Response.{Around, header_field_has_crlf, put, line}

-- No byte of the text is a carriage return or a line feed.
abbrev pub IsClean : List ℕ → Type 0
IsClean [] = Unit
IsClean (c ∷ text) = (c ≢ 13) × ((c ≢ 10) × IsClean text)

-- The guard of the code lets only such texts through.
pub header_field_has_crlf-IsClean :
    (text : List ℕ) → header_field_has_crlf text ≡ false → IsClean text
unfolding header_field_has_crlf
header_field_has_crlf-IsClean [] h = tt
header_field_has_crlf-IsClean (c ∷ text) h =
    (ground arith, (ground arith, header_field_has_crlf-IsClean text (ground arith)))

-- What comes from elsewhere has no line ends.
abbrev pub IsCleanAround : Around → Type 0
IsCleanAround e =
    IsClean e.now
    × (((t : ℕ) → IsClean (e.http_date t))
        × (((s : ℕ) → IsClean (e.reason s)) × IsClean e.server_name))

pub append-IsClean : (a b : List ℕ) → IsClean a → IsClean b → IsClean (a ++ b)
append-IsClean [] b ha hb = hb
append-IsClean (c ∷ a) b (hc, (hl, ha)) hb = (hc, (hl, append-IsClean a b ha hb))

pub decimal-IsClean : (width n : ℕ) → IsClean (decimal width n)
unfolding decimal
decimal-IsClean zero n = tt
decimal-IsClean (suc width) n = elim (Bool-cases (ltb n 10)) [
  | inl t ↦ rw (decimal, t) (omega arith, (omega arith, tt))
  | inr t ↦
      rw (decimal, t)
        (append-IsClean (decimal width (n / 10)) ((b'0' + n % 10) ∷ [])
          (decimal-IsClean width (n / 10)) (omega arith, (omega arith, tt)))
]

-- Lines, each with its end.
unfoldable pub block : List (List ℕ) → List ℕ
block [] = []
block (field ∷ fields) = line field ++ block fields

-- Fields that are neither blank nor broken by a line end.
abbrev pub AllFields : List (List ℕ) → Type 0
AllFields [] = Unit
AllFields (field ∷ fields) = (IsClean field × (0 < length field)) × AllFields fields

pub append-AllFields : (a b : List (List ℕ)) → AllFields a → AllFields b → AllFields (a ++ b)
append-AllFields [] b ha hb = hb
append-AllFields (field ∷ a) b (hf, ha) hb = (hf, append-AllFields a b ha hb)

pub block-append : (a b : List (List ℕ)) → block (a ++ b) ≡ block a ++ block b
unfolding block
block-append [] b = refl
block-append (field ∷ a) b =
    ap (◌++◌ (line field)) (block-append a b) ∙ sym (append_assoc (line field) (block a) (block b))

abbrev pub IsBlock : Option (List ℕ) → Type 0
IsBlock none = Unit
IsBlock (some off) = (fields : List (List ℕ)) × (AllFields fields × (off ≡ block fields))

pub put-block :
    (size : ℕ) (off : Option (List ℕ)) (more : List (List ℕ))
    → IsBlock off
    → AllFields more
    → IsBlock (put size off (block more))
unfolding put
put-block size none more h hm = tt
put-block size (some off) more (fields, (all, same)) hm =
    elim (Bool-cases (leb size (length off))) [
      | inl t ↦ rw (put, t) tt
      | inr t ↦ elim (Bool-cases (leb (size - length off) (length (block more)))) [
        | inl u ↦ rw (put, t, u) tt
        | inr u ↦
            rw (put, t, u)
              (
                fields ++ more,
                (
                  append-AllFields fields more all hm,
                  ap (λ (l : List ℕ). l ++ block more) same ∙ sym (block-append fields more),
                ),
              )
      ]
    ]

-- One line, and two.
pub put-line :
    (size : ℕ) (off : Option (List ℕ)) (field : List ℕ)
    → IsBlock off
    → IsClean field
    → 0 < length field
    → IsBlock (put size off (line field))
unfolding block
put-line size off field h clean some_bytes =
    subst (λ t. IsBlock (put size off t)) (append_nil (line field))
      (put-block size off (field ∷ []) h ((clean, some_bytes), tt))

pub put-two :
    (size : ℕ) (off : Option (List ℕ)) (field second : List ℕ)
    → IsBlock off
    → IsClean field × (0 < length field)
    → IsClean second × (0 < length second)
    → IsBlock (put size off (line field ++ line second))
unfolding block
put-two size off field second h hf hs =
    subst (λ t. IsBlock (put size off (line field ++ t))) (append_nil (line second))
      (put-block size off (field ∷ second ∷ []) h (hf, (hs, tt)))

-- A label and what follows it.
pub put-label :
    (size : ℕ) (off : Option (List ℕ)) (label text : List ℕ)
    → IsBlock off
    → IsClean label
    → 0 < length label
    → IsClean text
    → IsBlock (put size off (line (label ++ text)))
put-label size off label text h hl some_bytes ht =
    put-line size off (label ++ text) h (append-IsClean label text hl ht)
      (omega (arith, length-append label text))
