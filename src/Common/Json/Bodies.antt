-- ===== src/Common/Json/Bodies.antt =====
-- Bodies that `json_find_field` of common/src/json_util.c looks through: strings before the field,
-- white space around its name, its colon and its value.
use codo.Prelude.{
  ℕ, zero, suc, ◌≤◌, ◌≡◌, ◌≢◌, refl, ap, true, false, ◌⊎◌, inl, inr, none, some, List, [], ◌∷◌,
  ◌++◌, arith, length, length-append, ◌==◌, Bool-cases,
}
use codo.Todo.Index.{same_bytes}
use codo.Common.Json.{is_space, skip_ws, scan_string, value_of, find_from, json_find_field}

-- No quote and no backslash: such a field name is its own JSON string.
abbrev pub Plain : List ℕ → Type 0
Plain [] = Unit
Plain (c ∷ cs) = (c ≢ 34) × (c ≢ 92) × Plain cs

scan_string-Plain :
    (str rest : List ℕ) → Plain str → scan_string false (str ++ (34 ∷ rest)) ≡ (str, 34 ∷ rest)
unfolding scan_string
scan_string-Plain [] rest plain = refl
scan_string-Plain (c ∷ str) rest plain =
    let no_quote : (c == 34) ≡ false = let h = plain.0 in ground arith in
    let no_escape : (c == 92) ≡ false = let h = plain.1 in ground arith in
    rw no_quote (rw no_escape (ap (λ r. (c ∷ r.0, r.1)) (scan_string-Plain str rest plain.2)))

same_bytes_self : (bs : List ℕ) → same_bytes bs bs ≡ true
unfolding same_bytes
same_bytes_self [] = refl
same_bytes_self (b ∷ bs) = let rest = same_bytes_self bs in ground arith

same_bytes-eq : (a b : List ℕ) → same_bytes a b ≡ true → a ≡ b
unfolding same_bytes
same_bytes-eq [] [] h = refl
same_bytes-eq [] (y ∷ ys) h = absurd (ground arith)
same_bytes-eq (x ∷ xs) [] h = absurd (ground arith)
same_bytes-eq (x ∷ xs) (y ∷ ys) h =
    let same : same_bytes xs ys ≡ true = ground arith in
    let rest = same_bytes-eq xs ys same in let first : x ≡ y = ground arith in ground arith

-- Space, tab, line feed and carriage return.
abbrev pub IsBlank : ℕ → Type 0
IsBlank c = (c ≡ 32) ⊎ ((c ≡ 9) ⊎ ((c ≡ 10) ⊎ (c ≡ 13)))

abbrev pub AllBlank : List ℕ → Type 0
AllBlank [] = Unit
AllBlank (c ∷ w) = IsBlank c × AllBlank w

abbrev pub NoQuote : List ℕ → Type 0
NoQuote [] = Unit
NoQuote (c ∷ w) = (c ≢ 34) × NoQuote w

blank-is_space : (c : ℕ) → IsBlank c → is_space c ≡ true
unfolding is_space
blank-is_space c (inl e) = ground arith
blank-is_space c (inr (inl e)) = ground arith
blank-is_space c (inr (inr (inl e))) = ground arith
blank-is_space c (inr (inr (inr e))) = ground arith

-- White space is passed over, up to a byte that is none.
skip_ws-AllBlank :
    (w : List ℕ) (c : ℕ) (p : List ℕ)
    → AllBlank w
    → is_space c ≡ false
    → skip_ws (w ++ (c ∷ p)) ≡ c ∷ p
unfolding skip_ws
skip_ws-AllBlank [] c p h k = rw k refl
skip_ws-AllBlank (b ∷ w) c p (hb, hw) k = rw (blank-is_space b hb) (skip_ws-AllBlank w c p hw k)

-- A string that the walk passes on its way: its text, the white space behind it, the byte there,
-- and what follows up to the next string.
pub record Skipped : Type 0 where
  pub text : List ℕ
  pub blanks : List ℕ
  pub mark : ℕ
  pub gap : List ℕ

-- It is not the field's name, or no colon follows it.
abbrev pub IsSkipped : List ℕ → Skipped → Type 0
IsSkipped field k =
    (Plain k.text × (AllBlank k.blanks × NoQuote k.gap))
    × (((k.mark ≢ 34) × (¬ IsBlank k.mark)) × ((k.text ≢ field) ⊎ (k.mark ≢ 58)))

abbrev pub AllSkipped : List ℕ → List Skipped → Type 0
AllSkipped field [] = Unit
AllSkipped field (k ∷ ks) = IsSkipped field k × AllSkipped field ks

unfoldable pub skipped_text : List Skipped → List ℕ → List ℕ
skipped_text [] rest = rest
skipped_text (k ∷ ks) rest =
    34 ∷ (k.text ++ (34 ∷ (k.blanks ++ (k.mark ∷ (k.gap ++ skipped_text ks rest)))))

not_blank-is_space : (c : ℕ) → ¬ IsBlank c → is_space c ≡ false
unfolding is_space
not_blank-is_space c h = elim (Bool-cases (is_space c)) [
  | inr f ↦ f
  | inl t ↦ absurd (h (ground arith))
]

-- A search from a text on, for any fuel that its length allows.
abbrev Finds : List ℕ → List ℕ → List ℕ → Type 0
Finds field p found = (n : ℕ) → length p ≤ n → find_from n field p ≡ some found

find_from-NoQuote :
    (field gap p found : List ℕ) → NoQuote gap → Finds field p found → Finds field (gap ++ p) found
unfolding find_from
find_from-NoQuote field [] p found h k n room = k n room
find_from-NoQuote field (c ∷ gap) p found h k zero room = absurd (omega arith)
find_from-NoQuote field (c ∷ gap) p found (hc, hg) k (suc n) room =
    let other : (c == 34) ≡ false = ground arith in
    rw (find_from, other) (find_from-NoQuote field gap p found hg k n (omega arith))

AllBlank-NoQuote : (w : List ℕ) → AllBlank w → NoQuote w
AllBlank-NoQuote [] h = tt
AllBlank-NoQuote (c ∷ w) (hc, hw) = ((λ e. absurd (omega arith)), AllBlank-NoQuote w hw)

value_of-other :
    (field text : List ℕ) (mark : ℕ) (after : List ℕ)
    → (text ≢ field) ⊎ (mark ≢ 58)
    → value_of field text (mark ∷ after) ≡ none
unfolding value_of
value_of-other field text mark after (inr h) =
    let other : (mark == 58) ≡ false = ground arith in rw other refl
value_of-other field text mark after (inl h) = elim (Bool-cases (same_bytes text field)) [
  | inl t ↦ absurd (h (same_bytes-eq text field t))
  | inr f ↦ ground arith
]

find_from-skipped :
    (field : List ℕ) (ks : List Skipped) (rest found : List ℕ)
    → AllSkipped field ks
    → Finds field rest found
    → Finds field (skipped_text ks rest) found
unfolding find_from skipped_text
find_from-skipped field [] rest found h k n room = k n room
find_from-skipped field (k ∷ ks) rest found h look zero room = absurd (omega arith)
find_from-skipped field (k ∷ ks) rest found (((plain, (blank, free)), ((mark, dark), other)), hs)
      look (suc n) room =
    let left = skipped_text ks rest in
    let behind = k.blanks ++ (k.mark ∷ (k.gap ++ left)) in
    let scan = scan_string-Plain k.text behind plain in
    let skip =
      skip_ws-AllBlank k.blanks k.mark (k.gap ++ left) blank (not_blank-is_space k.mark dark) in
    let none_here = value_of-other field k.text k.mark (k.gap ++ left) other in
    let size = length-append k.text (34 ∷ behind) in
    rw (scan, skip, none_here)
      (find_from-NoQuote field k.blanks (k.mark ∷ (k.gap ++ left)) found
        (AllBlank-NoQuote k.blanks blank)
        (find_from-NoQuote field (k.mark ∷ k.gap) left found (mark, free)
          (find_from-skipped field ks rest found hs look))
        n (omega arith))

-- How a body goes on to a field: up to the first string, the strings that are passed, and the white
-- space behind the name and behind its colon.
pub record Before : Type 0 where
  pub opening : List ℕ
  pub strings : List Skipped
  pub behind_name : List ℕ
  pub behind_colon : List ℕ

abbrev pub IsBefore : List ℕ → Before → Type 0
IsBefore field b =
    (NoQuote b.opening × AllSkipped field b.strings)
    × (AllBlank b.behind_name × AllBlank b.behind_colon)

-- The body up to the value's opening quote, then `rest`.
unfoldable pub body_before : Before → List ℕ → List ℕ → List ℕ
body_before b field rest =
    b.opening
    ++ skipped_text b.strings
        (34 ∷ (field ++ (34 ∷ (b.behind_name ++ (58 ∷ (b.behind_colon ++ (34 ∷ rest)))))))

field_here :
    (field name colon rest : List ℕ)
    → Plain field
    → AllBlank name
    → AllBlank colon
    → Finds field (34 ∷ (field ++ (34 ∷ (name ++ (58 ∷ (colon ++ (34 ∷ rest))))))) (34 ∷ rest)
unfolding find_from value_of is_space
field_here field name colon rest plain hn hc zero room = absurd (omega arith)
field_here field name colon rest plain hn hc (suc n) room =
    let behind = name ++ (58 ∷ (colon ++ (34 ∷ rest))) in
    let scan = scan_string-Plain field behind plain in
    let skip = skip_ws-AllBlank name 58 (colon ++ (34 ∷ rest)) hn refl in
    let self = same_bytes_self field in
    let skip' = skip_ws-AllBlank colon 34 rest hc refl in rw (scan, skip, self, skip') refl

pub json_find_field-body_before :
    (b : Before) (field rest : List ℕ)
    → Plain field
    → IsBefore field b
    → json_find_field (body_before b field rest) field ≡ some (34 ∷ rest)
unfolding json_find_field body_before
json_find_field-body_before b field rest plain ((free, skipped), (name, colon)) =
    find_from-NoQuote field b.opening
      (skipped_text b.strings
        (34 ∷ (field ++ (34 ∷ (b.behind_name ++ (58 ∷ (b.behind_colon ++ (34 ∷ rest))))))))
      (34 ∷ rest) free
      (find_from-skipped field b.strings
        (34 ∷ (field ++ (34 ∷ (b.behind_name ++ (58 ∷ (b.behind_colon ++ (34 ∷ rest)))))))
        (34 ∷ rest) skipped (field_here field b.behind_name b.behind_colon rest plain name colon))
      (length (body_before b field rest)) (omega arith)
