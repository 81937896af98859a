-- ===== src/Todo/Index.antt =====
-- The key layout of api/src/todo_index.c: decimal row keys, and index keys of two padded ids. A
-- key is the list of its bytes; `%llu` and `%0*llu` of snprintf are written out.
pub mod Digits
pub mod Order
pub mod Repair
use Prim.Native.Nat.{Ordering, compare}
use codo.Prelude.{
  ℕ, zero, suc, ◌+◌, ◌-◌, ◌*◌, ◌/◌, ◌%◌, ◌^◌, Bool, true, false, ◌&&◌, ◌||◌, not, Option, none,
  some, List, [], ◌∷◌, ◌++◌, ltb, leb, ◌==◌, if◌then◌else◌, length, take, drop, replicate, get_or,
}

abbrev pub uint64_max : ℕ
uint64_max = 18446744073709551615

-- INDEX_ID_WIDTH
abbrev pub index_id_width : ℕ
index_id_width = 20

-- INDEX_PREFIX, "idx:user:"
abbrev pub index_prefix : List ℕ
index_prefix = b'i' ∷ b'd' ∷ b'x' ∷ b':' ∷ b'u' ∷ b's' ∷ b'e' ∷ b'r' ∷ b':' ∷ []

abbrev pub index_prefix_len : ℕ
index_prefix_len = 9

abbrev pub index_user_prefix_len : ℕ
index_user_prefix_len = index_prefix_len + index_id_width + 1

abbrev pub index_key_len : ℕ
index_key_len = index_user_prefix_len + index_id_width

-- `%llu`: the first argument bounds the digits, and 20 is enough for a 64-bit number.
unfoldable pub decimal : ℕ → ℕ → List ℕ
decimal zero n = []
decimal (suc width) n = elim (ltb n 10) [
  | true ↦ (b'0' + n) ∷ []
  | false ↦ decimal width (n / 10) ++ ((b'0' + n % 10) ∷ [])
]

-- `%0*llu` at width INDEX_ID_WIDTH.
unfoldable pub padded : ℕ → List ℕ
unfolding decimal
padded n =
    let digits = decimal index_id_width n in
    replicate (index_id_width - length digits) b'0' ++ digits

-- snprintf into a buffer of `out_size` bytes: `none` is -1, when the text and its NUL do not fit.
unfoldable pub render : ℕ → List ℕ → Option (List ℕ)
render out_size text = if leb out_size (length text) then none else some text

unfoldable pub todo_row_key : ℕ → ℕ → Option (List ℕ)
todo_row_key out_size id = render out_size (decimal index_id_width id)

-- The loop of `todo_row_key_parse`, with the id read so far.
unfoldable pub parse_digits : ℕ → List ℕ → Option ℕ
parse_digits id [] = some id
parse_digits id (c ∷ key) =
    elim (ltb c b'0' || ltb b'9' c || ltb ((uint64_max - (c - b'0')) / 10) id) [
      | true ↦ none
      | false ↦ parse_digits ((id * 10 + (c - b'0')) % (uint64_max + 1)) key
    ]

-- `none` is false.
unfoldable pub todo_row_key_parse : List ℕ → Option ℕ
unfolding parse_digits
todo_row_key_parse key =
    if length key == 0 || ltb index_id_width (length key) then none else parse_digits 0 key

unfoldable pub index_text : ℕ → ℕ → List ℕ
index_text user_id todo_id = index_prefix ++ (padded user_id ++ (b':' ∷ padded todo_id))

unfoldable pub todo_index_key : ℕ → ℕ → ℕ → Option (List ℕ)
todo_index_key out_size user_id todo_id = render out_size (index_text user_id todo_id)

unfoldable pub prefix_text : ℕ → List ℕ
prefix_text user_id = index_prefix ++ (padded user_id ++ (b':' ∷ []))

unfoldable pub todo_index_prefix : ℕ → ℕ → Option (List ℕ)
todo_index_prefix out_size user_id = render out_size (prefix_text user_id)

-- `memcmp` with a constant text, as a test.
unfoldable pub same_bytes : List ℕ → List ℕ → Bool
same_bytes [] [] = true
same_bytes (x ∷ xs) (y ∷ ys) = x == y && same_bytes xs ys
same_bytes _ _ = false

-- Two results that are both there.
abbrev pub both : Option ℕ → Option ℕ → Option (ℕ × ℕ)
both (some a) (some b) = some (a, b)
both (some a) none = none
both none b = none

unfoldable pub todo_index_key_parse : List ℕ → Option (ℕ × ℕ)
todo_index_key_parse key =
    if not (length key == index_key_len)
      || not (same_bytes (take index_prefix_len key) index_prefix)
      || not (get_or key (index_user_prefix_len - 1) 0 == b':')
    then none
    else both (todo_row_key_parse (take index_id_width (drop index_prefix_len key)))
        (todo_row_key_parse (take index_id_width (drop index_user_prefix_len key)))

-- One (owner, todo) pair.
pub record OwnerPair : Type 0 where
  pub user_id : ℕ
  pub todo_id : ℕ

-- The sign of `pair_compare`.
unfoldable pub pair_compare : OwnerPair → OwnerPair → Ordering
pair_compare a b =
    if not (a.user_id == b.user_id)
    then (if ltb a.user_id b.user_id then Ordering.lt else Ordering.gt)
    else (if not (a.todo_id == b.todo_id)
        then (if ltb a.todo_id b.todo_id then Ordering.lt else Ordering.gt)
        else Ordering.eq)
