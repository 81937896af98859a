-- ===== src/Todo/Index/Order.antt =====
-- The keys of api/src/todo_index.c: reading back, disjoint kinds, and the order of index keys.
use Prim.Native.Nat.{Ordering, compare}
use codo.Prelude.{
  ℕ, zero, suc, ◌+◌, ◌-◌, ◌/◌, ◌%◌, ◌^◌, ◌≤◌, ◌<◌, ◌≡◌, refl, ◌∙◌, ap, ap₂, sym, true, false, ◌==◌,
  none, some, List, [], ◌∷◌, ◌++◌, arith, length, take, drop, get_or, length-append, drop-append,
  take-append_self, get_or-append, append_nil,
}
use mathlib.Core.List.{append_assoc}
use native.Mathlib.Nat.{pow-suc}
use codo.Storage.Page.{compare_keys}
use codo.Storage.Page.Keys.{lex, compare_keys-lex}
use codo.Todo.Index.{
  uint64_max, index_id_width, index_prefix, index_prefix_len, index_key_len, index_user_prefix_len,
  decimal, render, todo_row_key, todo_row_key_parse, index_text, todo_index_key, same_bytes,
  todo_index_key_parse, OwnerPair, pair_compare,
}
use codo.Todo.Index.Digits.{
  fixed, length-fixed, padded-fixed, parse_digits-fixed, parse_digits-decimal, decimal-length,
  parse_digits-value, value,
}

-- Every 64-bit id has a row key, in a buffer of more than 20 bytes, and reading the key gives the id.
pub todo_row_key_parse-todo_row_key :
    (out_size id : ℕ)
    → id ≤ uint64_max
    → index_id_width < out_size
    → (key : List ℕ) × (todo_row_key out_size id ≡ some key) × (todo_row_key_parse key ≡ some id)
unfolding todo_row_key render todo_row_key_parse
todo_row_key_parse-todo_row_key out_size id h room = (
  decimal index_id_width id,
  ground (arith, decimal-length index_id_width id),
  ground (
    arith,
    decimal-length index_id_width id,
    parse_digits-decimal index_id_width id (omega arith) h,
  ),
)

pub index_text_parts :
    (u t : ℕ)
    → u ≤ uint64_max
    → t ≤ uint64_max
    → index_text u t ≡ index_prefix ++ (fixed index_id_width u ++ (b':' ∷ fixed index_id_width t))
unfolding index_text
index_text_parts u t hu ht = rw (padded-fixed u hu, padded-fixed t ht)

parse_row-fixed : (n : ℕ) → n ≤ uint64_max → todo_row_key_parse (fixed index_id_width n) ≡ some n
unfolding todo_row_key_parse
parse_row-fixed n h =
    ground
      (arith, length-fixed index_id_width n, parse_digits-fixed index_id_width n (omega arith) h)

module _ (u t : ℕ) (hu : u ≤ uint64_max) (ht : t ≤ uint64_max) where
  key_of : List ℕ
  key_of = index_text u t

  behind_user : List ℕ
  behind_user = b':' ∷ fixed index_id_width t

  parts : key_of ≡ index_prefix ++ (fixed index_id_width u ++ behind_user)
  unfolding key_of behind_user
  parts = index_text_parts u t hu ht

  front : List ℕ
  front = index_prefix ++ fixed index_id_width u

  front_parts : key_of ≡ front ++ behind_user
  unfolding front
  front_parts = parts ∙ sym (append_assoc index_prefix (fixed index_id_width u) behind_user)

  length-front : length front ≡ index_user_prefix_len - 1
  unfolding front
  length-front =
      omega
        (arith, length-append index_prefix (fixed index_id_width u), length-fixed index_id_width u)

  length-key : length key_of ≡ index_key_len
  unfolding behind_user
  length-key = omega (
    arith,
    ap length front_parts,
    length-append front behind_user,
    length-front,
    length-fixed index_id_width t,
  )

  prefix_same : same_bytes (take index_prefix_len key_of) index_prefix ≡ true
  unfolding same_bytes
  prefix_same = rw (parts) refl

  colon_at : get_or key_of (index_user_prefix_len - 1) 0 ≡ b':'
  unfolding behind_user
  colon_at =
      ap (λ l. get_or l (index_user_prefix_len - 1) 0) front_parts
      ∙ get_or-append front (fixed index_id_width t) b':' 0 (index_user_prefix_len - 1)
          (sym length-front)

  user_at : take index_id_width (drop index_prefix_len key_of) ≡ fixed index_id_width u
  user_at =
      ap (λ l. take index_id_width (drop index_prefix_len l)) parts
      ∙ take-append_self (fixed index_id_width u) behind_user index_id_width
          (sym (length-fixed index_id_width u))

  todo_at : take index_id_width (drop index_user_prefix_len key_of) ≡ fixed index_id_width t
  unfolding behind_user
  todo_at =
      ap (λ l. take index_id_width (drop index_user_prefix_len l)) front_parts
      ∙ ap (take index_id_width)
          (drop-append front behind_user index_user_prefix_len 1 (omega (arith, length-front)))
      ∙ ap (λ l. take index_id_width l) (sym (append_nil (fixed index_id_width t)))
      ∙ take-append_self (fixed index_id_width t) [] index_id_width
          (sym (length-fixed index_id_width t))

  -- Every pair of 64-bit ids has an index key, in a buffer of more than 50 bytes, and reading the
  -- key gives the pair.
  pub todo_index_key_parse-todo_index_key :
      (out_size : ℕ)
      → index_key_len < out_size
      → (key : List ℕ) × (todo_index_key out_size u t ≡ some key)
        × (todo_index_key_parse key ≡ some (u, t))
  unfolding todo_index_key render todo_index_key_parse key_of
  todo_index_key_parse-todo_index_key out_size room = (
    index_text u t,
    ground (arith, length-key),
    rw (user_at, todo_at, parse_row-fixed u hu, parse_row-fixed t ht)
        (ground (arith, length-key, prefix_same, colon_at)),
  )

  -- An index key is never taken for a row key, and what its parse gives is never a row: the two
  -- kinds of key are told apart by every scan.
  pub todo_row_key_parse-index_text : todo_row_key_parse (index_text u t) ≡ none
  unfolding todo_row_key_parse key_of
  todo_row_key_parse-index_text = ground (arith, length-key)

row_length :
    (key : List ℕ) (id : ℕ) → todo_row_key_parse key ≡ some id → length key ≤ index_id_width
unfolding todo_row_key_parse
row_length key id h = ground arith

-- A key that is read as a row is no index key.
pub index_parse_of_row :
    (key : List ℕ) (id : ℕ) → todo_row_key_parse key ≡ some id → todo_index_key_parse key ≡ none
unfolding todo_index_key_parse
index_parse_of_row key id h =
    let short = row_length key id h in
    let other : (length key == index_key_len) ≡ false = ground arith in rw other

-- What is read from a row key is the value of its digits: it never wraps round, and it fits 64 bits.
pub todo_row_key_parse-value :
    (key : List ℕ) (id : ℕ)
    → todo_row_key_parse key ≡ some id
    → (id ≡ value 0 key) × (id ≤ uint64_max)
unfolding todo_row_key_parse
todo_row_key_parse-value key id h = ground (arith, parse_digits-value key 0 id)

-- The order of keys of the same length is settled at the first difference.
lex-append :
    (xs ys as' bs' : List ℕ)
    → length xs ≡ length ys
    → lex (xs ++ as') (ys ++ bs') ≡ (elim (lex xs ys) [
      | Ordering.lt ↦ Ordering.lt
      | Ordering.gt ↦ Ordering.gt
      | Ordering.eq ↦ lex as' bs'
    ])
unfolding lex
lex-append [] [] xs' ys' h = refl
lex-append [] (y ∷ ys) xs' ys' h = absurd (omega arith)
lex-append (x ∷ xs) [] xs' ys' h = absurd (omega arith)
lex-append (x ∷ xs) (y ∷ ys) xs' ys' h = ground (arith, lex-append xs ys xs' ys' (omega arith))

lex-fixed :
    (width a b : ℕ)
    → a < 10 ^ width
    → b < 10 ^ width
    → lex (fixed width a) (fixed width b) ≡ compare a b
unfolding fixed lex
lex-fixed zero a b ha hb = ground arith
lex-fixed (suc width) a b ha hb =
    let small_a : a / 10 < 10 ^ width = omega (arith, pow-suc 10 width) in
    let small_b : b / 10 < 10 ^ width = omega (arith, pow-suc 10 width) in
    ground (
      arith,
      lex-append (fixed width (a / 10)) (fixed width (b / 10)) ((b'0' + a % 10) ∷ [])
          ((b'0' + b % 10) ∷ [])
          (omega (arith, length-fixed width (a / 10), length-fixed width (b / 10))),
      lex-fixed width (a / 10) (b / 10) small_a small_b,
    )

lex-parts :
    (u t v s : ℕ)
    → u ≤ uint64_max
    → t ≤ uint64_max
    → v ≤ uint64_max
    → s ≤ uint64_max
    → lex
        (index_prefix ++ (fixed index_id_width u ++ (b':' ∷ fixed index_id_width t)))
        (index_prefix ++ (fixed index_id_width v ++ (b':' ∷ fixed index_id_width s)))
      ≡ (elim (compare u v) [
        | Ordering.lt ↦ Ordering.lt
        | Ordering.gt ↦ Ordering.gt
        | Ordering.eq ↦ compare t s
      ])
unfolding lex
lex-parts u t v s hu ht hv hs =
    let w : ℕ = index_id_width in
    ground (
      arith,
      lex-append (fixed w u) (fixed w v) (b':' ∷ fixed w t) (b':' ∷ fixed w s)
          (omega (arith, length-fixed w u, length-fixed w v)),
      lex-fixed w u v (omega arith) (omega arith),
      lex-fixed w t s (omega arith) (omega arith),
    )

-- The order of index keys in the tree is the order of `pair_compare`: by owner, then by todo id. So
-- the entries of one owner are a contiguous range, in ascending order of id.
pub compare_keys-index_text :
    (p q : OwnerPair)
    → p.user_id ≤ uint64_max
    → p.todo_id ≤ uint64_max
    → q.user_id ≤ uint64_max
    → q.todo_id ≤ uint64_max
    → compare_keys (index_text p.user_id p.todo_id) (index_text q.user_id q.todo_id)
      ≡ pair_compare p q
unfolding pair_compare
compare_keys-index_text p q pu pt qu qt =
    compare_keys-lex _ _
    ∙ ap₂ lex (index_text_parts _ _ pu pt) (index_text_parts _ _ qu qt)
    ∙ lex-parts _ _ _ _ pu pt qu qt
    ∙ ground arith
