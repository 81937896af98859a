-- ===== src/Common/Http/Chunked/Grammar.antt =====
-- The chunked coding as a client may write it, and what the decoder of common/src/http_protocol.c
-- makes of each part.
use codo.Prelude.{
  ℕ, suc, ◌+◌, ◌*◌, ◌/◌, ◌^◌, ◌≤◌, ◌<◌, ◌≡◌, ◌≢◌, refl, ap, sym, ◌∙◌, ◌-◌, Bool, true, false, some,
  List, [], ◌∷◌, ◌++◌, ltb, arith, length, if◌then◌else◌,
}
use native.Mathlib.Nat.{pow-succ', mul_assoc, add-mul, zero-mul, le-mul_of_pos_right, one-le-pow}
use codo.Common.Http.{cr, lf, split_line, strip_cr, hex_digit}
use codo.Common.Http.Chunked.{size_max, hex_from, size_end, starts_hex, chunk_size}

-- Either line end.
abbrev pub line_end : Bool → List ℕ
line_end true = lf ∷ []
line_end false = cr ∷ lf ∷ []

-- A hexadecimal digit: its value, and whether its letter is a capital.
abbrev pub Digit : Type 0
Digit = ℕ × Bool

unfoldable pub digit_text : Digit → ℕ
digit_text (d, capital) =
    if ltb d 10 then b'0' + d else (if capital then b'A' + (d - 10) else b'a' + (d - 10))

unfoldable pub numeral : List Digit → List ℕ
numeral [] = []
numeral (d ∷ ds) = digit_text d ∷ numeral ds

-- The number that digits stand for, the first one highest.
unfoldable pub number : List Digit → ℕ
number [] = 0
number ((d, capital) ∷ ds) = d * 16 ^ length ds + number ds

abbrev pub AllDigits : List Digit → Type 0
AllDigits [] = Unit
AllDigits ((d, capital) ∷ ds) = (d < 16) × AllDigits ds

-- A text without line ends.
abbrev pub IsPlain : List ℕ → Type 0
IsPlain [] = Unit
IsPlain (c ∷ x) = (c ≢ cr) × ((c ≢ lf) × IsPlain x)

pub append-IsPlain : (x y : List ℕ) → IsPlain x → IsPlain y → IsPlain (x ++ y)
append-IsPlain [] y hx hy = hy
append-IsPlain (c ∷ x) y (hc, (hl, hx)) hy = (hc, (hl, append-IsPlain x y hx hy))

strip_cr-cons : (c : ℕ) (q : List ℕ) → c ≢ cr → strip_cr (c ∷ q) ≡ c ∷ strip_cr q
unfolding strip_cr
strip_cr-cons c [] h = ground arith
strip_cr-cons c (d ∷ q) h = refl

-- A plain line is read up to its end, whichever end it has.
pub split_line-line :
    (x rest : List ℕ) (bare : Bool)
    → IsPlain x
    → (raw : List ℕ) × ((split_line (x ++ (line_end bare ++ rest)) ≡ some (raw, rest))
        × ((strip_cr raw ≡ x) × (length raw + 1 ≡ length x + length (line_end bare))))
unfolding split_line strip_cr
split_line-line [] rest true h = ([], (refl, (refl, refl)))
split_line-line [] rest false h = (cr ∷ [], (refl, (refl, refl)))
split_line-line (c ∷ x) rest bare (hc, (hl, hx)) =
    let (raw, (found, (same, len))) = split_line-line x rest bare hx in
    (
      c ∷ raw,
      (ground (arith, found), (strip_cr-cons c raw hc ∙ ap (◌∷◌ c) same, omega (arith, len))),
    )

hex_digit-digit_text :
    (d : ℕ) (capital : Bool) → d < 16 → hex_digit (digit_text (d, capital)) ≡ some d
unfolding hex_digit digit_text
hex_digit-digit_text d true h = ground arith
hex_digit-digit_text d false h = ground arith

digit_text-IsPlain : (d : Digit) → IsPlain (digit_text d ∷ [])
unfolding digit_text
digit_text-IsPlain (d, true) = (ground arith, (ground arith, tt))
digit_text-IsPlain (d, false) = (ground arith, (ground arith, tt))

pub numeral-IsPlain : (ds : List Digit) → IsPlain (numeral ds)
unfolding numeral
numeral-IsPlain [] = tt
numeral-IsPlain (d ∷ ds) =
    append-IsPlain (digit_text d ∷ []) (numeral ds) (digit_text-IsPlain d) (numeral-IsPlain ds)

-- The digits of a number are read as the number, with no overflow on the way.
hex_from-numeral :
    (acc : ℕ) (ds : List Digit) (rest : List ℕ)
    → AllDigits ds
    → acc * 16 ^ length ds + number ds ≤ size_max
    → hex_from acc (numeral ds ++ rest) ≡ hex_from (acc * 16 ^ length ds + number ds) rest
unfolding numeral number hex_from
hex_from-numeral acc [] rest hs fits = let same : acc * 1 + 0 ≡ acc = omega arith in rw same refl
hex_from-numeral acc ((d, capital) ∷ ds) rest (hd, hs) fits =
    let read = hex_digit-digit_text d capital hd in
    let power : acc * 16 ^ suc (length ds) ≡ acc * 16 * 16 ^ length ds =
      ap (acc *◌) (pow-succ' 16 (length ds)) ∙ sym (mul_assoc acc 16 (16 ^ length ds)) in
    let split = add-mul (acc * 16) d (16 ^ length ds) in
    let total : acc * 16 ^ suc (length ds) + (d * 16 ^ length ds + number ds)
        ≡ (acc * 16 + d) * 16 ^ length ds + number ds =
      omega (arith, power, split) in
    let grows : acc * 16 ≤ acc * 16 * 16 ^ length ds =
      le-mul_of_pos_right (acc * 16) (one-le-pow (length ds) 16 (omega arith)) in
    let low : ltb (size_max / 16) acc ≡ false = ground (arith, power, grows) in
    rw (numeral, hex_from, read, low)
      (hex_from-numeral (acc * 16 + d) ds rest hs (omega (arith, total))
        ∙ ap (λ n. hex_from n rest) (sym total))

starts_hex-numeral :
    (ds : List Digit) (rest : List ℕ)
    → AllDigits ds
    → 0 < length ds
    → starts_hex (numeral ds ++ rest) ≡ true
unfolding numeral starts_hex
starts_hex-numeral [] rest hs h = absurd (omega arith)
starts_hex-numeral ((d, capital) ∷ ds) rest (hd, hs) h =
    rw (numeral, hex_digit-digit_text d capital hd, starts_hex) refl

hex_from-extension : (n : ℕ) (ext : List ℕ) → size_end ext ≡ true → hex_from n ext ≡ some (n, ext)
unfolding hex_from size_end hex_digit
hex_from-extension n [] h = refl
hex_from-extension n (c ∷ ext) h = ground arith

-- A size: one digit at least, leading zeros as they come, and a number that fits 64 bits.
abbrev pub IsSize : List Digit → Type 0
IsSize ds = AllDigits ds × ((0 < length ds) × (number ds ≤ size_max))

-- A size line is read as the size that it says, with or without an extension.
pub chunk_size-numeral :
    (ds : List Digit) (ext : List ℕ)
    → IsSize ds
    → size_end ext ≡ true
    → chunk_size (numeral ds ++ ext) ≡ some (number ds)
unfolding chunk_size
chunk_size-numeral ds ext (digits, (one_at_least, fits)) h =
    let whole : 0 * 16 ^ length ds + number ds ≡ number ds =
      ap (◌+ number ds) (zero-mul (16 ^ length ds)) ∙ omega arith in
    rw
      (
        starts_hex-numeral ds ext digits one_at_least,
        chunk_size,
        hex_from-numeral 0 ds ext digits (omega (arith, whole)),
        whole,
        hex_from-extension (number ds) ext h,
        h,
      )
      refl

-- A chunk: the digits of its size, its extension, its bytes, and whether a bare line feed ends its size line and its data.
pub record Chunk : Type 0 where
  pub size : List Digit
  pub extension : List ℕ
  pub payload : List ℕ
  pub bare_size : Bool
  pub bare_data : Bool

abbrev pub IsLegal : Chunk → Type 0
IsLegal k =
    (IsSize k.size × ((number k.size ≡ length k.payload) × (0 < length k.payload)))
    × (IsPlain k.extension × (size_end k.extension ≡ true))

-- A size line with its end.
unfoldable pub size_line : List Digit → List ℕ → Bool → List ℕ → List ℕ
size_line ds extension bare rest = (numeral ds ++ extension) ++ (line_end bare ++ rest)

-- A chunk, then `rest`.
unfoldable pub chunk_text : Chunk → List ℕ → List ℕ
chunk_text k rest =
    size_line k.size k.extension k.bare_size (k.payload ++ (line_end k.bare_data ++ rest))

-- A trailer line, with its end.
abbrev pub Trailer : Type 0
Trailer = List ℕ × Bool

abbrev pub AllLegal : List Chunk → Type 0
AllLegal [] = Unit
AllLegal (k ∷ chunks) = IsLegal k × AllLegal chunks

-- A trailer line is neither blank nor broken by a line end.
abbrev pub AllPlain : List Trailer → Type 0
AllPlain [] = Unit
AllPlain ((x, bare) ∷ trailers) = (0 < length x) × (IsPlain x × AllPlain trailers)

unfoldable pub trailers_text : List Trailer → Bool → List ℕ → List ℕ
trailers_text [] bare rest = line_end bare ++ rest
trailers_text ((x, bare_line) ∷ trailers) bare rest =
    x ++ (line_end bare_line ++ trailers_text trailers bare rest)

-- What ends a body: the chunk of size 0, in as many zeros as there are, the trailers and a blank line.
pub record Ending : Type 0 where
  pub size : List Digit
  pub extension : List ℕ
  pub bare_size : Bool
  pub trailers : List Trailer
  pub bare_blank : Bool

abbrev pub IsEnding : Ending → Type 0
IsEnding z =
    (IsSize z.size × (number z.size ≡ 0))
    × (IsPlain z.extension × ((size_end z.extension ≡ true) × AllPlain z.trailers))

-- A chunked body, then `rest`.
unfoldable pub body_text : List Chunk → Ending → List ℕ → List ℕ
body_text [] z rest =
    size_line z.size z.extension z.bare_size (trailers_text z.trailers z.bare_blank rest)
body_text (k ∷ chunks) z rest = chunk_text k (body_text chunks z rest)

unfoldable pub payloads : List Chunk → List ℕ
payloads [] = []
payloads (k ∷ chunks) = k.payload ++ payloads chunks
