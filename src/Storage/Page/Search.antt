-- ===== src/Storage/Page/Search.antt =====
-- `find_key_position` of storage/src/btree.c on a well-formed page with ascending keys.
use Prim.Native.Nat.{Ordering}
use codo.Prelude.{
  ℕ, zero, suc, ◌+◌, ◌-◌, ◌/◌, ◌≤◌, ◌<◌, ◌≡◌, ◌≢◌, refl, ◌∙◌, inl, inr, some, List, arith, length,
  get_elem?, get_elem?_in, get_elem?-lt,
}
use native.Mathlib.Decide.{dec_lt}
use codo.Storage.Memory.{done, Ensures}
use codo.Storage.Page.{Page, compare_keys, key_at, find_from, find_key_position}
use codo.Storage.Page.Entries.{Entry, Represents}
use codo.Storage.Page.Keys.{
  lex, compare_keys-lex, Ordering-cases, eq_of_lex, lex-gt→lt, lex-lt→gt, lex_trans, lex_self,
}
use codo.Storage.Page.Reads.{key_at-get}

-- The keys ascend strictly.
abbrev pub Ascending : List Entry → Type 0
Ascending es =
    (i j : ℕ) (e f : Entry)
    → i < j
    → get_elem? es i ≡ some e
    → get_elem? es j ≡ some f
    → lex e.key f.key ≡ Ordering.lt

-- `r` is the index of the first entry whose key is not below `key`, or the number of entries.
pub record IsFirstNotBelow (es : List Entry) (key : List ℕ) (r : ℕ) : Type 0 where
  pub inside : r ≤ length es
  pub below : (i : ℕ) (e : Entry) → i < r → get_elem? es i ≡ some e → lex e.key key ≡ Ordering.lt
  pub above : (i : ℕ) (e : Entry) → r ≤ i → get_elem? es i ≡ some e → lex e.key key ≢ Ordering.lt

module _ (page : Page) (key : List ℕ) (fuel left bound : ℕ) where
  no_step : find_from page key 0 left bound ≡ done left
  unfolding find_from
  no_step = refl

  abbrev mid : ℕ
  mid = (left + (bound - 1)) / 2

  empty_step : bound ≤ left → find_from page key (suc fuel) left bound ≡ done left
  unfolding find_from
  empty_step h = ground arith

  module _ (k : List ℕ) (h : left < bound) (at : key_at page mid ≡ done (some k)) where
    hit_step :
        compare_keys key k ≡ Ordering.eq → find_from page key (suc fuel) left bound ≡ done mid
    unfolding find_from
    hit_step c = ground arith

    left_step :
        compare_keys key k ≡ Ordering.lt
        → find_from page key (suc fuel) left bound ≡ find_from page key fuel left mid
    unfolding find_from
    left_step c = ground arith

    right_step :
        compare_keys key k ≡ Ordering.gt
        → find_from page key (suc fuel) left bound ≡ find_from page key fuel (mid + 1) bound
    unfolding find_from
    right_step c = ground arith

module _ (page : Page) (es : List Entry) (r : Represents page es) (sorted : Ascending es)
    (key : List ℕ) where
  record Inv (left bound : ℕ) : Type 0 where
    ordered : left ≤ bound
    bounded : bound ≤ length es
    below : (i : ℕ) (e : Entry) → i < left → get_elem? es i ≡ some e → lex e.key key ≡ Ordering.lt
    above : (i : ℕ) (e : Entry) → bound ≤ i → get_elem? es i ≡ some e → lex e.key key ≢ Ordering.lt

  not_lt : (a b : List ℕ) → lex a b ≡ Ordering.lt → lex b a ≢ Ordering.lt
  not_lt a b h k = ground (arith, lex-lt→gt a b h)

  -- Entries from one that is not below the key on are not below it.
  above_from :
      (m i : ℕ) (e f : Entry)
      → get_elem? es m ≡ some e
      → lex e.key key ≢ Ordering.lt
      → m ≤ i
      → get_elem? es i ≡ some f
      → lex f.key key ≢ Ordering.lt
  above_from m i e f he ne le hf k = elim (dec_lt m i) [
    | yes lt ↦ ne (lex_trans e.key f.key key (sorted m i e f lt he hf) k)
    | no same ↦ let same_index : i ≡ m = omega arith in ne (ground arith)
  ]

  -- Entries up to one that is below the key are below it.
  below_to :
      (m i : ℕ) (e f : Entry)
      → get_elem? es m ≡ some e
      → lex e.key key ≡ Ordering.lt
      → i ≤ m
      → get_elem? es i ≡ some f
      → lex f.key key ≡ Ordering.lt
  below_to m i e f he lt le hf = elim (dec_lt i m) [
    | yes less ↦ lex_trans f.key e.key key (sorted i m f e less hf he) lt
    | no same ↦ let same_index : i ≡ m = omega arith in ground arith
  ]

  closed : (left bound : ℕ) → bound ≤ left → Inv left bound → IsFirstNotBelow es key left
  closed left bound h inv = record {
    inside = omega arith;
    below = inv.below;
    above = λ i e le. inv.above i e (omega arith);
  }

  module _ (m : ℕ) (e : Entry) (he : get_elem? es m ≡ some e) where
    hit : lex key e.key ≡ Ordering.eq → IsFirstNotBelow es key m
    hit c =
        let same : key ≡ e.key = eq_of_lex key e.key c in
        record {
          inside = omega (arith, get_elem?-lt es m he);
          below = λ i f lt hf. rw same (sorted i m f e lt hf he);
          above = λ i f le hf. above_from m i e f he (rw (← same, lex_self key) (λ x. cc)) le hf;
        }

    cut_right :
        (left bound : ℕ)
        → left ≤ m
        → m < bound
        → lex key e.key ≡ Ordering.lt
        → Inv left bound
        → Inv left m
    cut_right left bound p q c inv = record {
      ordered = p;
      bounded = omega (arith, inv.bounded);
      below = inv.below;
      above = λ i f le hf. above_from m i e f he (not_lt key e.key c) le hf;
    }

    cut_left :
        (left bound : ℕ)
        → m < bound
        → lex key e.key ≡ Ordering.gt
        → Inv left bound
        → Inv (m + 1) bound
    cut_left left bound q c inv = record {
      ordered = omega arith;
      bounded = inv.bounded;
      below = λ i f lt hf. below_to m i e f he (lex-gt→lt key e.key c) (omega arith) hf;
      above = inv.above;
    }

  find_from-IsFirstNotBelow :
      (fuel left bound : ℕ)
      → bound - left ≤ fuel
      → Inv left bound
      → Ensures (find_from page key fuel left bound) (IsFirstNotBelow es key)
  find_from-IsFirstNotBelow zero left bound enough inv =
      rw (no_step page key 0 left bound) (closed left bound (omega arith) inv)
  find_from-IsFirstNotBelow (suc fuel) left bound enough inv = elim (dec_lt left bound) [
    | no empty ↦
        rw (empty_step page key fuel left bound (omega arith)) (closed left bound (omega arith) inv)
    | yes open_range ↦
        let m = (left + (bound - 1)) / 2 in
        let (e, he) = get_elem?_in es m (omega (arith, inv.bounded)) in
        let at = key_at-get page es r m he in
        let same = compare_keys-lex key e.key in
        elim (Ordering-cases (lex key e.key)) [
          | inl lt ↦ rw (left_step page key fuel left bound e.key open_range at (same ∙ lt)) (
              find_from-IsFirstNotBelow fuel left m (omega arith)
                (cut_right m e he left bound (omega arith) (omega arith) lt inv))
          | inr (inl eq) ↦
              rw (hit_step page key fuel left bound e.key open_range at (same ∙ eq)) (hit m e he eq)
          | inr (inr gt) ↦
              rw (right_step page key fuel left bound e.key open_range at (same ∙ gt)) (
                find_from-IsFirstNotBelow fuel (m + 1) bound (omega arith)
                  (cut_left m e he left bound (omega arith) gt inv))
        ]
  ]

  -- On a well-formed page with strictly ascending keys the binary search ends without a fault, at
  -- the index of the first entry whose key is not below the one searched for.
  pub find_key_position-IsFirstNotBelow :
      Ensures (find_key_position page key) (IsFirstNotBelow es key)
  unfolding find_key_position
  find_key_position-IsFirstNotBelow =
      find_from-IsFirstNotBelow page.key_count 0 page.key_count (omega arith) (record {
        ordered = omega arith;
        bounded = omega (arith, r.counted);
        below = λ i e lt. absurd (omega arith);
        above = λ i e le h. absurd (omega (arith, r.counted, get_elem?-lt es i h));
      })
