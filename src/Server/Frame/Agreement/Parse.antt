-- ===== src/Server/Frame/Agreement/Parse.antt =====
-- The framing of server/src/worker.c and the parser of common/src/http_protocol.c on a whole
-- request.
use codo.Prelude.{
  ℕ, zero, suc, ◌+◌, ◌<◌, ◌≡◌, sym, ap, subst, ◌∙◌, Bool, Option, none, some, List, [],
  Option-cases, inl, inr, arith, length, take, drop,
}
use codo.Common.Http.{split_line}
use codo.Common.Http.Chunked.Extend.{split_line-length}
use codo.Common.Http.Request.{Request}
use codo.Common.Http.Request.Message.{parsed, end_of_headers, parse_fields}
use codo.Server.Frame.{lines, Framing, Walk, walked, walk_lines}
use codo.Server.Frame.Scan.{header_end-bounds}
use codo.Server.Frame.Agreement.Lines.{Matches}
use codo.Server.Frame.Agreement.Cursor.{header_end-none}
use codo.Server.Frame.Agreement.Whole.{
  next_line-clean, strip_cr-some, line_step, at_end, walk_lines-first, walk_lines_nil, AtLine,
  onward,
}

-- The parser reaches the end of the headers with the framing that the walk has noted.
abbrev pub Reaches : (ℕ → Bool) → Framing → List ℕ → Request → Type 0
Reaches grants g body q = (r : Request) × (Matches r g × (end_of_headers grants r body ≡ parsed q))

pub parse_fields-Reaches :
    (n : ℕ) (grants : ℕ → Bool) (date : List ℕ → Option ℕ) (w : List ℕ) (i a b : ℕ) (r q : Request)
    (f g : Framing)
    → AtLine w i a b
    → length w < n
    → walk_lines f (lines (take a w)) ≡ walked g
    → Matches r f
    → parse_fields n grants date r w ≡ parsed q
    → Reaches grants g (drop b w) q
parse_fields-Reaches zero grants date w i a b r q f g here fuel walk h run = absurd (omega arith)
parse_fields-Reaches (suc zero) grants date w i a b r q f g here fuel walk h run =
    let (_, (below, within)) = header_end-bounds w i (i + a) (i + b) here.0 in absurd (omega arith)
parse_fields-Reaches (suc (suc n)) grants date w i a b r q f g here fuel walk h run =
    elim (Option-cases (split_line w)) [
      | inl e ↦ absurd (none_is_some (header_end-none w i e) here.0)
      | inr ((raw, rest), e) ↦
          let (no_nul, on) = onward w raw rest i a b e here in
          let (full, _) = strip_cr-some w raw rest e here.1.0 in
          let next = next_line-clean w raw rest e no_nul in
          let len = split_line-length w raw rest e in
          elim on [
            | inl (k, (blank, (text, behind))) ↦
                let (f', (first, later)) =
                  walk_lines-first f g raw [] (ap (walk_lines f) (sym text) ∙ walk) in
                let (r', (h', run')) =
                  line_step (suc n) grants date w raw rest r q f f' next full first h run in
                (
                  r',
                  (
                    subst (λ x. MatchesWalk r' x) (walk_lines_nil f' g later) h',
                    ap (end_of_headers grants r') behind
                        ∙ at_end n grants date rest k r' q blank run',
                  ),
                )
            | inr ((a', b'), (there, (text, behind))) ↦
                let (f', (first, later)) =
                  walk_lines-first f g raw (lines (take a' rest))
                    (ap (walk_lines f) (sym text) ∙ walk) in
                let (r', (h', run')) =
                  line_step (suc n) grants date w raw rest r q f f' next full first h run in
                let (r'', (h'', run'')) =
                  parse_fields-Reaches (suc n) grants date rest (i + length raw + 1) a' b' r' q f' g
                    there (omega arith) later h' run' in
                (r'', (h'', ap (end_of_headers grants r'') behind ∙ run''))
          ]
    ]
  where
    none_is_some : {o : Option (ℕ × ℕ)} {x : ℕ × ℕ} → o ≡ none → o ≡ some x → ⊥
    none_is_some e e' = ground (arith, e, e')

    MatchesWalk : Request → Walk → Type 0
    MatchesWalk r (walked f) = Matches r f
    MatchesWalk r w = Unit
