-- ===== src/Server/Frame/Scan.antt =====
-- Where the headers of a request end (server/src/worker.c).
use codo.Prelude.{
  ℕ, ◌+◌, ◌≤◌, ◌<◌, ◌≡◌, none, some, List, [], ◌∷◌, ◌++◌, Bool-cases, Option-cases, inl, inr, ◌==◌,
  arith, length,
}
use codo.Common.Http.{lf}
use codo.Server.Frame.{blank_line, header_end}

pub blank_line-append :
    (p e : List ℕ) (k : ℕ) → blank_line p ≡ some k → blank_line (p ++ e) ≡ some k
unfolding blank_line
blank_line-append [] e k h = absurd (ground arith)
blank_line-append (c ∷ []) [] k h = h
blank_line-append (c ∷ []) (d ∷ e) k h = ground arith
blank_line-append (c ∷ d ∷ q) e k h = h

-- A line that is not blank stays so when more bytes arrive: what decides it, two bytes at most,
-- has arrived when the headers' end is behind it.
blank_line-append_none :
    (p e : List ℕ) (i : ℕ) (x : ℕ × ℕ)
    → header_end p i ≡ some x
    → blank_line p ≡ none
    → blank_line (p ++ e) ≡ none
unfolding blank_line header_end
blank_line-append_none [] e i x hx h = absurd (ground arith)
blank_line-append_none (c ∷ []) e i x hx h = absurd (ground arith)
blank_line-append_none (c ∷ d ∷ q) e i x hx h = h

pub blank_line-length : (p : List ℕ) (k : ℕ) → blank_line p ≡ some k → (0 < k) × (k ≤ length p)
unfolding blank_line
blank_line-length [] k h = absurd (ground arith)
blank_line-length (c ∷ []) k h = ground arith
blank_line-length (c ∷ d ∷ q) k h = ground arith

-- The headers' end lies within what was scanned, the blank line behind it.
pub header_end-bounds :
    (p : List ℕ) (i hdr_end header_len : ℕ)
    → header_end p i ≡ some (hdr_end, header_len)
    → (i ≤ hdr_end) × ((hdr_end < header_len) × (header_len ≤ i + length p))
unfolding header_end
header_end-bounds [] i hdr_end header_len h = absurd (ground arith)
header_end-bounds (c ∷ p) i hdr_end header_len h = elim (Bool-cases (c == lf)) [
  | inl t ↦ elim (Option-cases (blank_line p)) [
    | inl e ↦ ground (arith, t, e, header_end-bounds p (i + 1) hdr_end header_len)
    | inr (k, e) ↦ ground (arith, t, e, blank_line-length p k e)
  ]
  | inr f ↦ ground (arith, f, header_end-bounds p (i + 1) hdr_end header_len)
]

-- The first blank line stays the first when more bytes arrive.
pub header_end-append :
    (p e : List ℕ) (i : ℕ) (x : ℕ × ℕ) → header_end p i ≡ some x → header_end (p ++ e) i ≡ some x
unfolding header_end
header_end-append [] e i x h = absurd (ground arith)
header_end-append (c ∷ p) e i x h = elim (Bool-cases (c == lf)) [
  | inl t ↦ elim (Option-cases (blank_line p)) [
    | inl b ↦
        let later : header_end p (i + 1) ≡ some x = ground (arith, t, b) in
        ground (
          arith,
          t,
          blank_line-append_none p e (i + 1) x later b,
          header_end-append p e (i + 1) x later,
        )
    | inr (k, b) ↦ ground (arith, t, b, blank_line-append p e k b)
  ]
  | inr f ↦ ground (arith, f, header_end-append p e (i + 1) x)
]
