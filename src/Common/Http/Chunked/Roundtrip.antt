-- ===== src/Common/Http/Chunked/Roundtrip.antt =====
-- What the chunked decoder of common/src/http_protocol.c makes of a body that a client wrote.
use codo.Prelude.{
  ℕ, zero, suc, ◌+◌, ◌<◌, ◌≡◌, refl, ap, ◌∙◌, Bool, true, false, some, List, [], ◌∷◌, ◌++◌, ltb,
  ◌==◌, arith, length, length-append, take-append_self, drop-append_self, append_nil,
}
use mathlib.Core.List.{append_assoc}
use codo.Common.Http.{split_line, strip_cr}
use codo.Common.Http.Chunked.{
  Decoded, complete, ended, size_end, is_empty, chunk_size, trailer_from, feed, data_end,
  chunks_from, http_chunked_decode,
}
use codo.Common.Http.Chunked.Grammar.{
  line_end, Digit, numeral, number, IsSize, IsPlain, append-IsPlain, numeral-IsPlain,
  split_line-line, chunk_size-numeral, Chunk, size_line, chunk_text, Trailer, AllLegal, AllPlain,
  trailers_text, Ending, IsEnding, body_text, payloads,
}

-- The message `body` is complete, and `extra` is what follows it in an input of `n` bytes.
abbrev pub Leaves : List ℕ → List ℕ → ℕ → Decoded → Type 0
Leaves body extra n r = (used : ℕ) × ((r ≡ complete body used) × (used + length extra ≡ n))

data_end-line_end :
    (bare : Bool) (rest : List ℕ)
    → data_end (line_end bare ++ rest) ≡ ended (length (line_end bare)) rest
unfolding data_end feed
data_end-line_end true rest = refl
data_end-line_end false rest = refl

trailer_from-trailers_text :
    (f pos n : ℕ) (out : List ℕ) (trailers : List Trailer) (bare : Bool) (extra : List ℕ)
    → AllPlain trailers
    → length (trailers_text trailers bare extra) < f
    → pos + length (trailers_text trailers bare extra) ≡ n
    → Leaves out extra n (trailer_from f out pos (trailers_text trailers bare extra))
unfolding trailer_from trailers_text
trailer_from-trailers_text zero pos n out trailers bare extra h hf hn = absurd (omega arith)
trailer_from-trailers_text (suc f) pos n out [] bare extra h hf hn =
    let (raw, (found, (same, len))) = split_line-line [] extra bare tt in
    let total = length-append (line_end bare) extra in
    (pos + length raw + 1, (rw (trailer_from, found, same) refl, omega arith))
trailer_from-trailers_text (suc f) pos n out ((x, b) ∷ trailers) bare extra (hx, (plain, hs)) hf
      hn =
    let rest = trailers_text trailers bare extra in
    let (raw, (found, (same, len))) = split_line-line x rest b plain in
    let total = length-append x (line_end b ++ rest) in
    let total' = length-append (line_end b) rest in
    let some_text : is_empty x ≡ false = ground arith in
    rw (trailer_from, found, same, some_text)
      (trailer_from-trailers_text f (pos + length raw + 1) n out trailers bare extra hs
        (omega arith) (omega arith))

-- The size line that a client wrote is split off and read.
size_line-split :
    (ds : List Digit) (extension : List ℕ) (bare : Bool) (rest : List ℕ)
    → IsSize ds
    → IsPlain extension
    → size_end extension ≡ true
    → (raw : List ℕ) × ((split_line (size_line ds extension bare rest) ≡ some (raw, rest))
        × ((chunk_size (strip_cr raw) ≡ some (number ds))
            × (length raw + 1 + length rest ≡ length (size_line ds extension bare rest))))
unfolding size_line
size_line-split ds extension bare rest fits plain ext =
    let x = numeral ds ++ extension in
    let (raw, (found, (same, len))) =
      split_line-line x rest bare
        (append-IsPlain (numeral ds) extension (numeral-IsPlain ds) plain) in
    let total = length-append x (line_end bare ++ rest) in
    let total' = length-append (line_end bare) rest in
    (raw, (found, (ap chunk_size same ∙ chunk_size-numeral ds extension fits ext, omega arith)))

chunks_from-body_text :
    (f pos n : ℕ) (out : List ℕ) (chunks : List Chunk) (z : Ending) (extra : List ℕ)
    → AllLegal chunks
    → IsEnding z
    → length (body_text chunks z extra) < f
    → pos + length (body_text chunks z extra) ≡ n
    → Leaves (out ++ payloads chunks) extra n (chunks_from f out pos (body_text chunks z extra))
unfolding chunks_from body_text payloads chunk_text
chunks_from-body_text zero pos n out chunks z extra hs hz hf hn = absurd (omega arith)
chunks_from-body_text (suc f) pos n out [] z extra hs ((zeros, none_left), (plain, (ext, ts))) hf
      hn =
    let rest = trailers_text z.trailers z.bare_blank extra in
    let (raw, (found, (size, len))) =
      size_line-split z.size z.extension z.bare_size rest zeros plain ext in
    rw (append_nil out, chunks_from, found, size, none_left)
      (trailer_from-trailers_text f (pos + length raw + 1) n out z.trailers z.bare_blank extra ts
        (omega arith) (omega arith))
chunks_from-body_text (suc f) pos n out (k ∷ chunks) z extra
      (((digits, (value, some_data)), (plain, ext)), hs) hz hf hn =
    let body = body_text chunks z extra in
    let rest = k.payload ++ (line_end k.bare_data ++ body) in
    let (raw, (found, (size, len))) =
      size_line-split k.size k.extension k.bare_size rest digits plain ext in
    let total = length-append k.payload (line_end k.bare_data ++ body) in
    let total' = length-append (line_end k.bare_data) body in
    let nonzero : (length k.payload == 0) ≡ false = ground arith in
    let arrived : ltb (length rest) (length k.payload) ≡ false = ground arith in
    let bytes = take-append_self k.payload (line_end k.bare_data ++ body) (length k.payload) refl in
    let behind =
      drop-append_self k.payload (line_end k.bare_data ++ body) (length k.payload) refl in
    rw
      (
        chunks_from,
        found,
        size ∙ ap some value,
        nonzero,
        arrived,
        behind,
        data_end-line_end k.bare_data body,
        bytes,
        ← append_assoc out k.payload (payloads chunks),
      )
      (chunks_from-body_text f
        (pos + length raw + 1 + length k.payload + length (line_end k.bare_data)) n
        (out ++ k.payload) chunks z extra hs hz (omega arith) (omega arith))

-- A chunked body, with whatever digits, extensions, line ends and trailers the client chose, sizes
-- in either case and with leading zeros included, is decoded to its chunks' bytes, and what is left
-- of the input is what followed it.
pub http_chunked_decode-body_text :
    (chunks : List Chunk) (z : Ending) (extra : List ℕ)
    → AllLegal chunks
    → IsEnding z
    → Leaves
        (payloads chunks)
        extra
        (length (body_text chunks z extra))
        (http_chunked_decode (body_text chunks z extra))
unfolding http_chunked_decode
http_chunked_decode-body_text chunks z extra hs hz =
    chunks_from-body_text (suc (length (body_text chunks z extra))) 0
      (length (body_text chunks z extra)) [] chunks z extra hs hz (omega arith) (omega arith)
