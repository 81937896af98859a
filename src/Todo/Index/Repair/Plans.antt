-- ===== src/Todo/Index/Repair/Plans.antt =====
-- The changes that take an ascending list of pairs to another, for the repair of api/src/todo_index.c.
use Prim.Native.Nat.{Ordering}
use codo.Prelude.{
  ◌≡◌, refl, ◌∙◌, ap, sym, Bool, true, false, ◌||◌, ◌&&◌, not, List, [], ◌∷◌, arith, inl, inr,
  Bool-cases,
}
use codo.Todo.Index.{OwnerPair, pair_compare}

unfoldable pub same_pair : OwnerPair → OwnerPair → Bool
same_pair p q = elim (pair_compare p q) [ Ordering.eq ↦ true | _ ↦ false ]

unfoldable pub member : OwnerPair → List OwnerPair → Bool
member p [] = false
member p (q ∷ qs) = same_pair p q || member p qs

-- `p` comes before every pair of the list.
abbrev pub Above : OwnerPair → List OwnerPair → Type 0
Above p [] = Unit
Above p (q ∷ qs) = (pair_compare p q ≡ Ordering.lt) × Above p qs

-- Sorted by `pair_compare`, with no pair twice.
abbrev pub Ascending : List OwnerPair → Type 0
Ascending [] = Unit
Ascending (p ∷ ps) = Above p ps × Ascending ps

pair_compare_trans :
    (p q r : OwnerPair)
    → pair_compare p q ≡ Ordering.lt
    → pair_compare q r ≡ Ordering.lt
    → pair_compare p r ≡ Ordering.lt
unfolding pair_compare
pair_compare_trans p q r h k = ground arith

pub pair_compare_flip :
    (p q : OwnerPair) → pair_compare p q ≡ Ordering.gt → pair_compare q p ≡ Ordering.lt
unfolding pair_compare
pair_compare_flip p q h = ground arith

same_pair_iff : (p q : OwnerPair) → same_pair p q ≡ true → p ≡ q
unfolding same_pair pair_compare
same_pair_iff p q h = ground arith

same_pair_eq : (p q : OwnerPair) → pair_compare p q ≡ Ordering.eq → same_pair p q ≡ true
unfolding same_pair
same_pair_eq p q h = ground arith

same_pair_self : (p : OwnerPair) → same_pair p p ≡ true
unfolding same_pair pair_compare
same_pair_self p = ground arith

same_pair_lt : (p q : OwnerPair) → pair_compare p q ≡ Ordering.lt → same_pair p q ≡ false
unfolding same_pair
same_pair_lt p q h = ground arith

same_pair_comm : (p q : OwnerPair) → same_pair p q ≡ same_pair q p
unfolding same_pair pair_compare
same_pair_comm p q = ground arith

pub Above-trans :
    (p q : OwnerPair) (qs : List OwnerPair)
    → pair_compare p q ≡ Ordering.lt
    → Above q qs
    → Above p qs
Above-trans p q [] h k = tt
Above-trans p q (r ∷ qs) h k = (pair_compare_trans p q r h k.0, Above-trans p q qs h k.1)

Above-member : (p : OwnerPair) (qs : List OwnerPair) → Above p qs → member p qs ≡ false
unfolding member
Above-member p [] h = refl
Above-member p (q ∷ qs) h = ground (arith, same_pair_lt p q h.0, Above-member p qs h.1)

pub data Change : Type 0 where
  added removed : OwnerPair → Change

-- Whether a pair is added, and whether it is removed.
unfoldable pub adds : List Change → OwnerPair → Bool
adds [] q = false
adds (added p ∷ changes) q = same_pair p q || adds changes q
adds (removed p ∷ changes) q = adds changes q

unfoldable pub removes : List Change → OwnerPair → Bool
removes [] q = false
removes (added p ∷ changes) q = removes changes q
removes (removed p ∷ changes) q = same_pair p q || removes changes q

-- The changes that take the pairs listed in `have` to those in `wanted`.
abbrev pub IsPlan : List OwnerPair → List OwnerPair → List Change → Type 0
IsPlan wanted have changes =
    (q : OwnerPair)
    → (adds changes q ≡ (member q wanted && not (member q have)))
      × (removes changes q ≡ (member q have && not (member q wanted)))

pub IsPlan-nil : IsPlan [] [] []
unfolding adds removes member
IsPlan-nil q = (refl, refl)

pub IsPlan-add :
    (w : OwnerPair) (wanted have : List OwnerPair) (changes : List Change)
    → Above w have
    → IsPlan wanted have changes
    → IsPlan (w ∷ wanted) have (added w ∷ changes)
unfolding adds removes member
IsPlan-add w wanted have changes above plan q =
    let absent = Above-member w have above in
    let same = same_pair_iff w q in
    let comm = same_pair_comm q w in
    let (a, b) = plan q in
    elim (Bool-cases (same_pair w q)) [
      | inl t ↦
          let absent' : member q have ≡ false = ap (λ x. member x have) (sym (same t)) ∙ absent in
          (ground (arith, a, absent', t, comm), ground (arith, b, absent', t, comm))
      | inr t ↦ (ground (arith, a, t, comm), ground (arith, b, t, comm))
    ]

pub IsPlan-drop :
    (wanted : List OwnerPair) (p : OwnerPair) (have : List OwnerPair) (changes : List Change)
    → Above p wanted
    → IsPlan wanted have changes
    → IsPlan wanted (p ∷ have) (removed p ∷ changes)
unfolding adds removes member
IsPlan-drop wanted p have changes above plan q =
    let absent = Above-member p wanted above in
    let same = same_pair_iff p q in
    let comm = same_pair_comm q p in
    let (a, b) = plan q in
    elim (Bool-cases (same_pair p q)) [
      | inl t ↦
          let absent' : member q wanted ≡ false =
            ap (λ x. member x wanted) (sym (same t)) ∙ absent in
          (ground (arith, a, absent', t, comm), ground (arith, b, absent', t, comm))
      | inr t ↦ (ground (arith, a, t, comm), ground (arith, b, t, comm))
    ]

pub IsPlan-both :
    (w p : OwnerPair) (wanted have : List OwnerPair) (changes : List Change)
    → pair_compare w p ≡ Ordering.eq
    → Above w wanted
    → Above p have
    → IsPlan wanted have changes
    → IsPlan (w ∷ wanted) (p ∷ have) changes
unfolding adds removes member
IsPlan-both w p wanted have changes eq above_w above_p plan q =
    let one : w ≡ p = same_pair_iff w p (same_pair_eq w p eq) in
    let twin : same_pair q p ≡ same_pair q w = ap (same_pair q) (sym one) in
    let absent_w = Above-member w wanted above_w in
    let absent_p = Above-member p have above_p in
    let same = same_pair_iff q w in
    let (a, b) = plan q in
    elim (Bool-cases (same_pair q w)) [
      | inl t ↦
          let x : member q wanted ≡ false = ap (λ z. member z wanted) (same t) ∙ absent_w in
          let y : member q have ≡ false = ap (λ z. member z have) (same t ∙ one) ∙ absent_p in
          (ground (arith, a, t, twin, x, y), ground (arith, b, t, twin, x, y))
      | inr t ↦ (ground (arith, a, t, twin), ground (arith, b, t, twin))
    ]
