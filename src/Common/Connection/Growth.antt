-- ===== src/Common/Connection/Growth.antt =====
-- The capacities of a connection's buffers (common/src/connection.c).
use codo.Prelude.{
  ℕ, zero, suc, ◌+◌, ◌*◌, ◌%◌, ◌^◌, ◌≤◌, ◌<◌, ◌≡◌, refl, ap, Bool, true, false, ◌&&◌, Bool-cases,
  inl, inr, ltb, leb, ◌==◌, arith, length,
}
use native.Mathlib.Nat.{pow-suc, mul_assoc, mul_comm}
use codo.Common.Http.Chunked.{size_max}
use codo.Common.Connection.{
  conn_read_buffer_min, max_response_size, Buffer, double_to, grow_to, conn_reserve_read,
  conn_reserve_write,
}

-- Doubling reaches any need up to half the word, with no wrap on the way.
double_to-reaches :
    (n size need : ℕ)
    → 0 < size
    → need ≤ size * 2 ^ n
    → need * 2 ≤ size_max
    → (need ≤ double_to n size need) × (size ≤ double_to n size need)
unfolding double_to
double_to-reaches zero size need hc hn small = (omega arith, omega arith)
double_to-reaches (suc n) size need hc hn small = elim (Bool-cases (ltb size need)) [
  | inl t ↦
      let below : size < need = ground (arith, t) in
      let whole : size * 2 % (size_max + 1) ≡ size * 2 = omega arith in
      let enough : need ≤ size * 2 * 2 ^ n = omega (
        arith,
        ap (λ k. size * k) (pow-suc 2 n),
        mul_assoc size 2 (2 ^ n),
        mul_assoc size (2 ^ n) 2,
        mul_comm 2 (2 ^ n),
      ) in
      let (reached, more) = double_to-reaches n (size * 2) need (omega arith) enough small in
      rw (double_to, t, whole) (reached, omega arith)
  | inr t ↦ rw (double_to, t) (ground (arith, t), omega arith)
]

pub grow_to-reaches :
    (from need : ℕ) → need * 2 ≤ size_max → (need ≤ grow_to from need) × (from ≤ grow_to from need)
unfolding grow_to
grow_to-reaches from need small = elim (Bool-cases (from == 0)) [
  | inl t ↦
      let empty : from ≡ 0 = ground (arith, t) in
      let (reached, more) =
        double_to-reaches 64 conn_read_buffer_min need (omega arith) (omega arith) small in
      rw (t) (reached, omega arith)
  | inr t ↦
      let some_size : 0 < from = ground (arith, t) in
      rw (t) (double_to-reaches 64 from need some_size (omega arith) small)
]

-- The bytes in use fit the buffer, which is no larger than its limit.
abbrev pub IsWithin : ℕ → Buffer → Type 0
IsWithin limit b = (length b.used ≤ b.cap) × (b.cap ≤ limit)

-- What a reservation leaves: the same bytes, in a buffer within the limit that has not shrunk, with
-- the room that was asked for when it says so.
abbrev pub IsReserved : Buffer → ℕ → ℕ → Bool × Buffer → Type 0
IsReserved b need limit r =
    (r.1.used ≡ b.used)
    × (IsWithin limit r.1
        × ((b.cap ≤ r.1.cap) × (r.0 ≡ true → (need ≤ r.1.cap) × (r.1.allocated ≡ true))))

pub conn_reserve_read-IsReserved :
    (grants : ℕ → Bool) (b : Buffer) (need limit : ℕ)
    → limit * 2 ≤ size_max
    → IsWithin limit b
    → IsReserved b need limit (conn_reserve_read grants b need limit)
unfolding conn_reserve_read
conn_reserve_read-IsReserved grants b need limit small (fits, within) =
    elim (Bool-cases (ltb limit need)) [
      | inl t ↦
          rw (conn_reserve_read, t)
            (refl, ((fits, within), (omega arith, λ h. absurd (ground arith))))
      | inr t ↦ elim (Bool-cases (b.allocated && leb need b.cap)) [
        | inl u ↦
            rw (conn_reserve_read, t, u)
              (refl, ((fits, within), (omega arith, λ h. (ground (arith, u), ground (arith, u)))))
        | inr u ↦
            let wanted : need ≤ limit = ground (arith, t) in
            let (reached, more) = grow_to-reaches b.cap need (omega arith) in
            elim (Bool-cases (ltb limit (grow_to b.cap need))) [
              | inl v ↦ elim (Bool-cases (grants limit)) [
                | inl g ↦
                    rw (conn_reserve_read, t, u, v, g)
                      (refl, ((omega arith, omega arith), (omega arith, λ h. (omega arith, refl))))
                | inr g ↦
                    rw (conn_reserve_read, t, u, v, g)
                      (refl, ((fits, within), (omega arith, λ h. absurd (ground arith))))
              ]
              | inr v ↦
                  let capped : grow_to b.cap need ≤ limit = ground (arith, v) in
                  elim (Bool-cases (grants (grow_to b.cap need))) [
                    | inl g ↦
                        rw (conn_reserve_read, t, u, v, g)
                          (
                            refl,
                            ((omega arith, omega arith), (omega arith, λ h. (omega arith, refl))),
                          )
                    | inr g ↦
                        rw (conn_reserve_read, t, u, v, g)
                          (refl, ((fits, within), (omega arith, λ h. absurd (ground arith))))
                  ]
            ]
      ]
    ]

-- A need within the limit is met when memory is granted.
pub conn_reserve_read-succeeds :
    (grants : ℕ → Bool) (b : Buffer) (need limit : ℕ)
    → limit * 2 ≤ size_max
    → need ≤ limit
    → ((size : ℕ) → size ≤ limit → grants size ≡ true)
    → (conn_reserve_read grants b need limit).0 ≡ true
unfolding conn_reserve_read
conn_reserve_read-succeeds grants b need limit small wanted granted =
    let t : ltb limit need ≡ false = ground arith in
    let (reached, more) = grow_to-reaches b.cap need (omega arith) in
    elim (Bool-cases (b.allocated && leb need b.cap)) [
      | inl u ↦ rw (conn_reserve_read, t, u) refl
      | inr u ↦ elim (Bool-cases (ltb limit (grow_to b.cap need))) [
        | inl v ↦ rw (conn_reserve_read, t, u, v, granted limit (omega arith)) (ground arith)
        | inr v ↦
            rw (conn_reserve_read, t, u, v, granted (grow_to b.cap need) (ground (arith, v)))
              (ground arith)
      ]
    ]

-- The write buffer is reserved as a read buffer with the limit of a response.
pub conn_reserve_write-read :
    (grants : ℕ → Bool) (b : Buffer) (need : ℕ)
    → conn_reserve_write grants b need ≡ conn_reserve_read grants b need max_response_size
unfolding conn_reserve_write conn_reserve_read
conn_reserve_write-read grants b need = refl
