-- ===== src/Common/Connection.antt =====
-- The buffers of a connection, common/src/connection.c. Whether an allocation of a size succeeds is
-- the argument `grants` of the operations that allocate.
pub mod Growth
use codo.Prelude.{
  ℕ, zero, suc, ◌+◌, ◌*◌, ◌%◌, Bool, true, false, ◌&&◌, ◌||◌, not, List, [], ltb, leb, ◌==◌,
  if◌then◌else◌, length,
}
use codo.Common.Http.Chunked.{size_max}

abbrev pub conn_read_buffer_min : ℕ
conn_read_buffer_min = 8192

abbrev pub max_response_size : ℕ
max_response_size = 1048576

-- A buffer, its capacity, and the bytes that are in use from its start on.
pub record Buffer : Type 0 where
  pub allocated : Bool
  pub cap : ℕ
  pub used : List ℕ

-- The loop of `grow_to`: the first argument bounds the doublings, and 64 are enough for a word.
unfoldable pub double_to : ℕ → ℕ → ℕ → ℕ
double_to zero cap need = cap
double_to (suc n) cap need = elim (ltb cap need) [
  | true ↦ double_to n (cap * 2 % (size_max + 1)) need
  | false ↦ cap
]

unfoldable pub grow_to : ℕ → ℕ → ℕ
grow_to from need = double_to 64 (if from == 0 then conn_read_buffer_min else from) need

-- What `conn_reserve_read` does with the read buffer: the return value and the buffer after it.
unfoldable pub conn_reserve_read : (ℕ → Bool) → Buffer → ℕ → ℕ → Bool × Buffer
conn_reserve_read grants b need max =
    if ltb max need
    then (false, b)
    else (if b.allocated && leb need b.cap
        then (true, b)
        else (let cap = grow_to b.cap need in
            let cap = if ltb max cap then max else cap in
            if grants cap
            then (leb need cap, record b { allocated = true; cap = cap })
            else (false, b)))

-- What `conn_reserve_write` does with the write buffer.
unfoldable pub conn_reserve_write : (ℕ → Bool) → Buffer → ℕ → Bool × Buffer
conn_reserve_write grants b need =
    if ltb max_response_size need
    then (false, b)
    else (if b.allocated && leb need b.cap
        then (true, b)
        else (let cap = grow_to b.cap need in
            let cap = if ltb max_response_size cap then max_response_size else cap in
            if grants cap
            then (leb need cap, record b { allocated = true; cap = cap })
            else (false, b)))

-- What `conn_ensure_buffers` does with the read buffer.
unfoldable pub ensure_read_buffer : (ℕ → Bool) → Buffer → Bool × Buffer
ensure_read_buffer grants b =
    if b.allocated
    then (true, b)
    else (if grants conn_read_buffer_min
        then (true, record { allocated = true; cap = conn_read_buffer_min; used = [] })
        else (false, b))

-- What `conn_release_idle` does with the two buffers.
unfoldable pub release_write_buffer : Buffer → Buffer
release_write_buffer b = record { allocated = false; cap = 0; used = [] }

unfoldable pub release_read_buffer : (ℕ → Bool) → Buffer → Buffer
release_read_buffer grants b =
    if b.allocated && (ltb conn_read_buffer_min b.cap && leb (length b.used) conn_read_buffer_min)
    then (if grants conn_read_buffer_min then record b { cap = conn_read_buffer_min } else b)
    else b
