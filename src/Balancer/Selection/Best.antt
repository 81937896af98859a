-- ===== src/Balancer/Selection/Best.antt =====
-- The second loop of the round robin of balancer/src/selection.c: the best of the backends seen.
use codo.Prelude.{
  ℕ, zero, suc, ◌+◌, ◌≡◌, refl, ◌∙◌, ap, sym, subst, append_nil, true, false, Bool-cases, inl, inr,
  Option, none, some, List, [], ◌∷◌, ◌++◌, arith, length, get_elem?, length-append, ◌⊎◌,
}
use mathlib.Core.List.{append_assoc}
use codo.Prelude.Int.{ℤ, ◌≤ℤ◌, ltb_ℤ}
use codo.Balancer.Selection.{Backend, is_healthy, best_from, heavier}

-- No healthy backend of the list is heavier.
abbrev pub NoneHeavier : ℤ → List Backend → Type 0
NoneHeavier w [] = Unit
NoneHeavier w (b ∷ bs) = ((is_healthy b ≡ false) ⊎ (b.current_weight ≤ℤ w)) × NoneHeavier w bs

abbrev pub NoneHealthy : List Backend → Type 0
NoneHealthy [] = Unit
NoneHealthy (b ∷ bs) = (is_healthy b ≡ false) × NoneHealthy bs

-- The best of a list of backends.
abbrev pub IsBest : List Backend → Option (ℕ × ℤ) → Type 0
IsBest bs none = NoneHealthy bs
IsBest bs (some (i, w)) =
    ((b : Backend) × (get_elem? bs i ≡ some b) × (is_healthy b ≡ true) × (b.current_weight ≡ w))
    × NoneHeavier w bs

NoneHealthy-snoc :
    (bs : List Backend) (b : Backend)
    → NoneHealthy bs
    → is_healthy b ≡ false
    → NoneHealthy (bs ++ (b ∷ []))
NoneHealthy-snoc [] b h k = (k, tt)
NoneHealthy-snoc (c ∷ bs) b h k = (h.0, NoneHealthy-snoc bs b h.1 k)

NoneHeavier-snoc :
    (w : ℤ) (bs : List Backend) (b : Backend)
    → NoneHeavier w bs
    → (is_healthy b ≡ false) ⊎ (b.current_weight ≤ℤ w)
    → NoneHeavier w (bs ++ (b ∷ []))
NoneHeavier-snoc w [] b h k = (k, tt)
NoneHeavier-snoc w (c ∷ bs) b h k = (h.0, NoneHeavier-snoc w bs b h.1 k)

NoneHeavier-mono : (v w : ℤ) (bs : List Backend) → v ≤ℤ w → NoneHeavier v bs → NoneHeavier w bs
NoneHeavier-mono v w [] h k = tt
NoneHeavier-mono v w (c ∷ bs) h k =
    let still : (is_healthy c ≡ false) ⊎ (c.current_weight ≤ℤ w) = elim k.0 [
      | inl dead ↦ inl dead
      | inr below ↦ inr (omega arith)
    ] in
    (still, NoneHeavier-mono v w bs h k.1)

NoneHeavier-of_none : (w : ℤ) (bs : List Backend) → NoneHealthy bs → NoneHeavier w bs
NoneHeavier-of_none w [] h = tt
NoneHeavier-of_none w (c ∷ bs) h = (inl h.0, NoneHeavier-of_none w bs h.1)

get-snoc_before :
    (bs : List Backend) (b c : Backend) (i : ℕ)
    → get_elem? bs i ≡ some c
    → get_elem? (bs ++ (b ∷ [])) i ≡ some c
get-snoc_before [] b c i h = cc
get-snoc_before (d ∷ bs) b c zero h = h
get-snoc_before (d ∷ bs) b c (suc i) h = get-snoc_before bs b c i h

get-snoc_last : (bs : List Backend) (b : Backend) → get_elem? (bs ++ (b ∷ [])) (length bs) ≡ some b
get-snoc_last [] b = refl
get-snoc_last (d ∷ bs) b = get-snoc_last bs b

IsBest-skip :
    (bs : List Backend) (b : Backend) (best : Option (ℕ × ℤ))
    → is_healthy b ≡ false
    → IsBest bs best
    → IsBest (bs ++ (b ∷ [])) best
IsBest-skip bs b none dead h = NoneHealthy-snoc bs b h dead
IsBest-skip bs b (some (i, w)) dead h = (
  (h.0.0, get-snoc_before bs b h.0.0 i h.0.1, h.0.2, h.0.3),
  NoneHeavier-snoc w bs b h.1 (inl dead),
)

IsBest-heavier :
    (bs : List Backend) (b : Backend) (best : Option (ℕ × ℤ))
    → is_healthy b ≡ true
    → IsBest bs best
    → IsBest (bs ++ (b ∷ [])) (heavier best (length bs) b.current_weight)
IsBest-heavier bs b none alive h = (
  (b, get-snoc_last bs b, alive, refl),
  NoneHeavier-snoc b.current_weight bs b (NoneHeavier-of_none b.current_weight bs h)
      (inr (omega arith)),
)
IsBest-heavier bs b (some (i, w)) alive h = elim (Bool-cases (ltb_ℤ w b.current_weight)) [
  | inl more ↦ rw more (
    (b, get-snoc_last bs b, alive, refl),
    NoneHeavier-snoc b.current_weight bs b
        (NoneHeavier-mono w b.current_weight bs (ground arith) h.1) (inr (omega arith)),
  )
  | inr less ↦ rw less (
    (h.0.0, get-snoc_before bs b h.0.0 i h.0.1, h.0.2, h.0.3),
    NoneHeavier-snoc w bs b h.1 (inr (ground arith)),
  )
]

pub best_from-IsBest :
    (bs pre : List Backend) (i : ℕ) (best : Option (ℕ × ℤ))
    → i ≡ length pre
    → IsBest pre best
    → IsBest (pre ++ bs) (best_from i best bs)
unfolding best_from
best_from-IsBest [] pre i best e h = subst (λ l. IsBest l best) (sym (append_nil pre)) h
best_from-IsBest (b ∷ bs) pre i best e h =
    let further : (c : Option (ℕ × ℤ))
        → IsBest (pre ++ (b ∷ [])) c
        → IsBest (pre ++ (b ∷ bs)) (best_from (i + 1) c bs) =
      λ c k.
        subst (λ l. IsBest l (best_from (i + 1) c bs)) (append_assoc pre (b ∷ []) bs)
          (best_from-IsBest bs (pre ++ (b ∷ [])) (i + 1) c
            (ap (◌+ 1) e ∙ sym (length-append pre (b ∷ []))) k) in
    elim (Bool-cases (is_healthy b)) [
      | inl alive ↦ rw alive (
          further (heavier best i b.current_weight) (
            subst (λ n. IsBest (pre ++ (b ∷ [])) (heavier best n b.current_weight)) (sym e)
              (IsBest-heavier pre b best alive h)))
      | inr dead ↦ rw dead (further best (IsBest-skip pre b best dead h))
    ]

pub NoneHeavier-at :
    (w : ℤ) (bs : List Backend) (j : ℕ) (b : Backend)
    → NoneHeavier w bs
    → get_elem? bs j ≡ some b
    → is_healthy b ≡ true
    → b.current_weight ≤ℤ w
NoneHeavier-at w [] j b h at alive = absurd (ground arith)
NoneHeavier-at w (c ∷ bs) zero b h at alive = elim h.0 [
  | inl dead ↦ absurd (ground arith)
  | inr below ↦ let same : c ≡ b = ground arith in subst (λ x. x.current_weight ≤ℤ w) same below
]
NoneHeavier-at w (c ∷ bs) (suc j) b h at alive = NoneHeavier-at w bs j b h.1 at alive
