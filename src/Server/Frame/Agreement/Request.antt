-- ===== src/Server/Frame/Agreement/Request.antt =====
-- What parse_http_request of common/src/http_protocol.c makes of a request that
-- check_request_frame of server/src/worker.c reports as received.
use codo.Prelude.{
  ℕ, suc, ◌+◌, ◌≤◌, ◌≡◌, refl, sym, ap, ap₂, subst, ◌∙◌, Bool, false, Option, none, some, List, [],
  ◌∷◌, ◌++◌, Bool-cases, Option-cases, inl, inr, ltb, ◌==◌, arith, length, take, drop,
  take-append-drop, length-take_of_le, take-append_le, if◌then◌else◌,
}
use codo.Common.Http.{lf, split_line, strip_cr, split_colon, same_word}
use codo.Common.Http.Chunked.{size_max}
use codo.Common.Http.Chunked.Extend.{split_line-append}
use codo.Common.Http.Fields.{content_length_name, transfer_encoding_name, expect_name}
use codo.Common.Http.Range.{skip_spaces}
use codo.Common.Http.Request.{Request, zero_request, scan_word, word_from, parse_request_line}
use codo.Common.Http.Request.Message.{parsed, end_of_headers, parse_fields, parse_http_request}
use codo.Server.Frame.{
  blank_line, header_end, has_byte, lines, Framing, walked, expect_field, walk_line, walk_lines,
  no_framing, received, check_request_frame,
}
use codo.Server.Frame.Scan.{blank_line-append, blank_line-length, header_end-bounds}
use codo.Server.Frame.Limits.{Parts, HasBody, check_request_frame-limits}
use codo.Server.Frame.Smuggling.{field_is}
use codo.Server.Frame.Agreement.Lines.{Matches, Agree, other_walk-Agree}
use codo.Server.Frame.Agreement.Whole.{
  walk_line-none, next_line-clean, at_end, blank_line-next_line, walk_lines-first, walk_lines_nil,
  AtLine, onward,
}
use codo.Server.Frame.Agreement.Cursor.{header_end-none}
use codo.Server.Frame.Agreement.Parse.{Reaches, parse_fields-Reaches}
use codo.Server.Frame.Agreement.Body.{IsBodyOf, end_of_headers-IsBodyOf}

blank_line-prefix :
    (p e : List ℕ) (k : ℕ) → blank_line (p ++ e) ≡ some k → k ≤ length p → blank_line p ≡ some k
unfolding blank_line
blank_line-prefix [] e k h short =
    let (some_byte, _) = blank_line-length e k h in absurd (omega arith)
blank_line-prefix (c ∷ []) [] k h short = h
blank_line-prefix (c ∷ []) (d ∷ e) k h short = ground arith
blank_line-prefix (c ∷ d ∷ p) e k h short = h

-- The end of the headers is found in the request alone.
header_end-prefix :
    (p e : List ℕ) (i a b : ℕ)
    → header_end (p ++ e) i ≡ some (a, b)
    → b ≤ i + length p
    → header_end p i ≡ some (a, b)
unfolding header_end
header_end-prefix [] e i a b h within =
    let (low, (below, _)) = header_end-bounds e i a b h in absurd (omega arith)
header_end-prefix (c ∷ p) e i a b h within = elim (Bool-cases (c == lf)) [
  | inr t ↦ rw (header_end, t) (header_end-prefix p e (i + 1) a b (ground (arith, t)) (omega arith))
  | inl t ↦ elim (Option-cases (blank_line p)) [
    | inr (k, blank) ↦
        let later = blank_line-append p e k blank in
        rw (header_end, t, blank) (ground (arith, t, later))
    | inl open_line ↦ elim (Option-cases (blank_line (p ++ e))) [
      | inl still ↦
          rw (header_end, t, open_line)
            (header_end-prefix p e (i + 1) a b (ground (arith, t, still)) (omega arith))
      | inr (k, blank) ↦
          let short : k ≤ length p = ground (arith, t, blank) in
          let now = blank_line-prefix p e k blank short in absurd (ground (arith, now, open_line))
    ]
  ]
]

-- A request line says nothing of the body.
parse_request_line-Matches :
    (line : List ℕ) (r : Request)
    → parse_request_line line zero_request ≡ some r
    → Matches r no_framing
unfolding parse_request_line
parse_request_line-Matches line r h = elim (Option-cases (scan_word 15 line)) [
  | inl e ↦ absurd (ground (arith, e))
  | inr ((method, line1), e) ↦ elim (Option-cases (scan_word 2047 line1)) [
    | inl e1 ↦ absurd (ground (arith, e, e1))
    | inr ((uri, line2), e1) ↦ elim (Option-cases (scan_word 15 line2)) [
      | inl e2 ↦ absurd (ground (arith, e, e1, e2))
      | inr ((version, line3), e2) ↦ (
        ground (arith, e, e1, e2),
        (ground (arith, e, e1, e2), (ground (arith, e, e1, e2), ground (arith, e, e1, e2))),
      )
    ]
  ]
]

parse_request_line_nil : parse_request_line [] zero_request ≡ none
unfolding parse_request_line scan_word word_from skip_spaces
parse_request_line_nil = refl

-- A first line that names no framing field leaves the framing as it was.
first_line-Matches :
    (raw : List ℕ) (r : Request) (f : Framing)
    → field_is content_length_name raw ≡ false
    → field_is transfer_encoding_name raw ≡ false
    → walk_line no_framing raw ≡ walked f
    → Matches r no_framing
    → Matches r f
unfolding field_is walk_line
first_line-Matches raw r f cl te walk h = elim (Option-cases (split_colon (strip_cr raw))) [
  | inl e ↦
      let same : walked no_framing ≡ walked f = sym (walk_line-none no_framing raw e) ∙ walk in
      subst (λ w. Agree w (some r)) same h
  | inr ((name, v), e) ↦
      let cl' : same_word name content_length_name ≡ false = ground (arith, e) in
      let te' : same_word name transfer_encoding_name ≡ false = ground (arith, e) in
      let same : (if same_word name expect_name
            then expect_field no_framing v
            else walked no_framing)
          ≡ walked f =
        ground (arith, e, cl', te') in
      subst (λ w. Agree w (some r)) same (other_walk-Agree r no_framing name v h)
]

-- The parser on a request alone, behind its first line.
parse_http_request-Reaches :
    (grants : ℕ → Bool) (date : List ℕ → Option ℕ) (w raw rest : List ℕ) (a b : ℕ) (r q : Request)
    (g : Framing)
    → AtLine w 0 a b
    → split_line w ≡ some (raw, rest)
    → field_is content_length_name raw ≡ false
    → field_is transfer_encoding_name raw ≡ false
    → walk_lines no_framing (lines (take a w)) ≡ walked g
    → Matches r no_framing
    → parse_fields (suc (length rest)) grants date r rest ≡ parsed q
    → Reaches grants g (drop b w) q
parse_http_request-Reaches grants date w raw rest a b r q g here e cl te walk h run =
    let (no_nul, on) = onward w raw rest 0 a b e here in
    elim on [
      | inl (k, (blank, (text, behind))) ↦
          let (f', (first, later)) =
            walk_lines-first no_framing g raw [] (ap (walk_lines no_framing) (sym text) ∙ walk) in
          let h' = first_line-Matches raw r f' cl te first h in
          (
            r,
            (
              subst (λ x. Agree x (some r)) (walk_lines_nil f' g later) h',
              ap (end_of_headers grants r) behind
                  ∙ at_end (length rest) grants date rest k r q blank run,
            ),
          )
      | inr ((a', b'), (there, (text, behind))) ↦
          let (f', (first, later)) =
            walk_lines-first no_framing g raw (lines (take a' rest))
              (ap (walk_lines no_framing) (sym text) ∙ walk) in
          let h' = first_line-Matches raw r f' cl te first h in
          let (r', (h'', run')) =
            parse_fields-Reaches (suc (length rest)) grants date rest (0 + length raw + 1) a' b' r q
              f' g there (omega arith) later h' run in
          (r', (h'', ap (end_of_headers grants r') behind ∙ run'))
    ]

HasBody-within :
    (max_body header_len n : ℕ) (buf : List ℕ) (f : Framing)
    → HasBody max_body header_len buf f n
    → header_len ≤ n
HasBody-within max_body header_len n buf f (inl (_, (_, (out, (used, (_, (sum, _))))))) =
    omega arith
HasBody-within max_body header_len n buf f (inr (_, (sum, _))) = omega arith

-- A request that was received, once its first line is no header field, is parsed with the framing
-- that the walk has found: it has the body which that framing gives it, from the bytes of this
-- request and no others.
pub parse_http_request-IsBodyOf :
    (grants : ℕ → Bool) (date : List ℕ → Option ℕ) (buf raw after : List ℕ) (max_body n : ℕ)
    (q : Request)
    → length buf + max_body ≤ size_max
    → (check_request_frame buf max_body).0 ≡ received n
    → split_line buf ≡ some (raw, after)
    → field_is content_length_name raw ≡ false
    → field_is transfer_encoding_name raw ≡ false
    → parse_http_request grants date buf n ≡ parsed q
    → (p : Parts buf max_body n) × (HasBody max_body p.header_len buf p.framing n
        × IsBodyOf buf p.header_len n p.framing.chunked q)
unfolding parse_http_request
parse_http_request-IsBodyOf grants date buf raw after max_body n q room frame first cl te run =
    let (p, (within, has)) = check_request_frame-limits buf max_body n room frame in
    let w = take n buf in
    let taken = length-take_of_le n buf within in
    let whole = take-append-drop n buf in
    let (low, (below, _)) = header_end-bounds buf 0 p.hdr_end p.header_len p.ends in
    let in_n : p.header_len ≤ n = HasBody-within max_body p.header_len n buf p.framing has in
    let ends : header_end w 0 ≡ some (p.hdr_end, p.header_len) =
      header_end-prefix w (drop n buf) 0 p.hdr_end p.header_len
        (ap (λ x. header_end x 0) whole ∙ p.ends) (omega arith) in
    let same_head : take p.header_len w ≡ take p.header_len buf =
      sym (take-append_le w (drop n buf) p.header_len (omega arith))
      ∙ ap (take p.header_len) whole in
    let same_lines : take p.hdr_end w ≡ take p.hdr_end buf =
      sym (take-append_le w (drop n buf) p.hdr_end (omega arith)) ∙ ap (take p.hdr_end) whole in
    let clean : has_byte 0 (take p.header_len w) ≡ false = ap (has_byte 0) same_head ∙ p.no_nul in
    let walk : walk_lines no_framing (lines (take p.hdr_end w)) ≡ walked p.framing =
      ap (λ t. walk_lines no_framing (lines t)) same_lines ∙ p.walk in
    let short : ltb (length buf) n ≡ false = ground arith in
    elim (Option-cases (split_line w)) [
      | inl e ↦ absurd (ground (arith, header_end-none w 0 e, ends))
      | inr ((raw', rest), e) ↦
          let again = split_line-append w raw' rest (drop n buf) e in
          let again' : split_line buf ≡ some (raw', rest ++ drop n buf) =
            ap split_line (sym whole) ∙ again in
          let same : raw' ≡ raw = ground (arith, again', first) in
          elim (Option-cases (blank_line w)) [
            | inr (k, blank) ↦
                absurd
                  (ground (arith, short, blank_line-next_line w k blank, parse_request_line_nil))
            | inl open_line ↦
                let here : AtLine w 0 p.hdr_end p.header_len = (
                  ends ∙ ap₂ (λ x y. some (x, y)) (omega arith) (omega arith),
                  (open_line, clean),
                ) in
                let (no_nul, _) = onward w raw' rest 0 p.hdr_end p.header_len e here in
                let next = next_line-clean w raw' rest e no_nul in
                elim (Option-cases (parse_request_line (strip_cr raw') zero_request)) [
                  | inl l ↦ absurd (ground (arith, short, next, l))
                  | inr (r, l) ↦
                      let run' : parse_fields (suc (length rest)) grants date r rest ≡ parsed q =
                        ground (arith, short, next, l) in
                      let (r', (h, final)) =
                        parse_http_request-Reaches grants date w raw' rest p.hdr_end p.header_len r
                          q p.framing here e (ap (field_is content_length_name) same ∙ cl)
                          (ap (field_is transfer_encoding_name) same ∙ te) walk
                          (parse_request_line-Matches (strip_cr raw') r l) run' in
                      (
                        p,
                        (
                          has,
                          end_of_headers-IsBodyOf grants r' q p.framing buf max_body p.header_len n
                              h has within final,
                        ),
                      )
                ]
          ]
    ]
