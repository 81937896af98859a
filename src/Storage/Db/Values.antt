-- ===== src/Storage/Db/Values.antt =====
-- Reading the value of a pair (storage/src/db.c), and the list of a page around a position.
use codo.Prelude.{
  ℕ, zero, suc, ◌+◌, ◌≤◌, ◌<◌, ◌≡◌, refl, ◌∙◌, ap, sym, subst, some, List, [], ◌∷◌, ◌++◌, arith,
  length, take, drop, get_elem?, length-append, drop-append_self,
}
use mathlib.Core.List.{append_assoc}
use codo.Storage.Memory.{done, load_bytes, load_bytes_in}
use codo.Storage.Page.{Page, kv_size, encode_head, load_key}
use codo.Storage.Page.Safety.{length-encode_head}
use codo.Storage.Page.Entries.{
  Entry, Represents, encode_entry, encode_all, offset_of, load_head-entry,
}
use codo.Storage.Page.Reads.{AllFit-get, encode_around, load_key-entry}
use codo.Storage.Db.{value_is, copy_value, load_value}
use codo.Storage.Db.Tree.{All}

pub take-append_le {ℓ} :
    {A : Type ℓ} (n : ℕ) (xs ys : List A) → n ≤ length xs → take n (xs ++ ys) ≡ take n xs
take-append_le zero xs ys h = refl
take-append_le (suc n) [] ys h = absurd (omega arith)
take-append_le (suc n) (x ∷ xs) ys h = ap (◌∷◌ x) (take-append_le n xs ys (omega arith))

pub take_all {ℓ} : {A : Type ℓ} (n : ℕ) (xs : List A) → length xs ≤ n → take n xs ≡ xs
take_all zero [] h = refl
take_all zero (x ∷ xs) h = absurd (omega arith)
take_all (suc n) [] h = refl
take_all (suc n) (x ∷ xs) h = ap (◌∷◌ x) (take_all n xs (omega arith))

-- `n` bytes of an entry's value.
load_part :
    (pre post area : List ℕ) (e : Entry) (off n : ℕ)
    → area ≡ pre ++ (encode_entry e ++ post)
    → off ≡ length pre
    → n ≤ length e.value
    → load_bytes area (off + kv_size + length e.key) n ≡ done (take n e.value)
unfolding encode_entry
load_part pre post area e off n packed at small =
    let front = encode_head (length e.key) (length e.value) e.child in
    let head = pre ++ (front ++ e.key) in
    let flat : area ≡ head ++ (e.value ++ post) =
      packed
      ∙ ap (λ l. pre ++ (l ++ post)) (sym (append_assoc front e.key e.value))
      ∙ ap (pre ++◌) (append_assoc (front ++ e.key) e.value post)
      ∙ sym (append_assoc pre (front ++ e.key) (e.value ++ post)) in
    let head_size : off + kv_size + length e.key ≡ length head = omega (
      arith,
      length-append pre (front ++ e.key),
      length-append front e.key,
      length-encode_head (length e.key) (length e.value) e.child,
    ) in
    let room : off + kv_size + length e.key + n ≤ length area =
      omega
        (arith, ap length flat, length-append head (e.value ++ post), length-append e.value post) in
    load_bytes_in area (off + kv_size + length e.key) n room
    ∙ ap (λ l. done (take n (drop (off + kv_size + length e.key) l))) flat
    ∙ ap (λ l. done (take n l)) (drop-append_self head (e.value ++ post) _ head_size)
    ∙ ap done (take-append_le n e.value post small)

module _ (page : Page) (es : List Entry) (r : Represents page es) (i : ℕ) {e : Entry}
    (at : get_elem? es i ≡ some e) where
  pub load_key-get : load_key page.area (offset_of es i) ≡ done e.key
  load_key-get =
      load_key-entry (encode_all (take i es)) (encode_all (drop (suc i) es) ++ r.rest) page.area e
        (offset_of es i) (AllFit-get es i r.fit at) (r.packed ∙ encode_around es i r.rest at) refl

  -- The value of entry `i`, whole.
  pub load_value-get : load_value page.area (offset_of es i) ≡ done e.value
  unfolding load_value
  load_value-get =
      let pre = encode_all (take i es) in
      let post = encode_all (drop (suc i) es) ++ r.rest in
      let packed = r.packed ∙ encode_around es i r.rest at in
      ground (
        arith,
        load_head-entry pre post page.area e (offset_of es i) (AllFit-get es i r.fit at) packed
            refl,
        load_part pre post page.area e (offset_of es i) (length e.value) packed refl,
        take_all (length e.value) e.value,
      )

  -- What a search copies out of it.
  pub copy_value-get :
      (room : ℕ)
      → copy_value page.area (offset_of es i) room
        ≡ done (value_is (take room e.value) (length e.value))
  unfolding copy_value
  copy_value-get room =
      let pre = encode_all (take i es) in
      let post = encode_all (drop (suc i) es) ++ r.rest in
      let packed = r.packed ∙ encode_around es i r.rest at in
      ground (
        arith,
        load_head-entry pre post page.area e (offset_of es i) (AllFit-get es i r.fit at) packed
            refl,
        load_part pre post page.area e (offset_of es i) (length e.value) packed refl,
        load_part pre post page.area e (offset_of es i) room packed refl,
        take_all (length e.value) e.value,
        take_all room e.value,
      )

-- Entries of a front and of a back part are entries of the list.
pub get_elem?-take {ℓ} :
    {A : Type ℓ} (xs : List A) (n i : ℕ) {x : A}
    → get_elem? (take n xs) i ≡ some x
    → (i < n) × (get_elem? xs i ≡ some x)
get_elem?-take xs zero i h = absurd (ground arith)
get_elem?-take [] (suc n) i h = absurd (ground arith)
get_elem?-take (y ∷ xs) (suc n) zero h = (omega arith, h)
get_elem?-take (y ∷ xs) (suc n) (suc i) h =
    let (lt, at) = get_elem?-take xs n i h in (omega arith, at)

pub get_elem?-drop {ℓ} :
    {A : Type ℓ} (xs : List A) (n i k : ℕ) {x : A}
    → k ≡ n + i
    → get_elem? (drop n xs) i ≡ some x
    → get_elem? xs k ≡ some x
get_elem?-drop xs zero i k e h = let same : k ≡ i = omega arith in rw same h
get_elem?-drop [] (suc n) i k e h = absurd (ground arith)
get_elem?-drop (y ∷ xs) (suc n) i zero e h = absurd (omega arith)
get_elem?-drop (y ∷ xs) (suc n) i (suc k) e h = get_elem?-drop xs n i k (omega arith) h

pub All-get :
    (P : Entry → Type 0) (es : List Entry)
    → ((i : ℕ) (e : Entry) → get_elem? es i ≡ some e → P e)
    → All P es
All-get P [] f = tt
All-get P (e ∷ es) f = (f 0 e refl, All-get P es (λ i. f (suc i)))

pub All-at :
    (P : Entry → Type 0) (es : List Entry) (i : ℕ) {e : Entry}
    → All P es
    → get_elem? es i ≡ some e
    → P e
All-at P [] i h at = absurd (ground arith)
All-at P (f ∷ es) zero h at = subst P (ground arith) h.0
All-at P (f ∷ es) (suc i) h at = All-at P es i h.1 at
