-- ===== src/Storage/Memory.antt =====
-- Bytes of a C buffer, read and written with the bounds that the machine does not check: an access
-- outside the buffer is a `fault`, never a value.
pub mod Moves
use codo.Prelude.{
  ℕ, ◌+◌, ◌≤◌, ◌≡◌, refl, List, ◌++◌, leb, if◌then◌else◌, arith, length, take, drop, length-append,
  length-take, length-drop, length-take_of_le,
}

pub data Run {ℓ} (A : Type ℓ) : Type ℓ where
  done : A → Run A
  fault : Run A

infixl 5 ◌>>=◌
abbrev pub ◌>>=◌ {ℓ κ} : {A : Type ℓ} {B : Type κ} → Run A → (A → Run B) → Run B
done a >>= f = f a
fault >>= f = fault

-- The run ends without a fault, with a result that satisfies `P`.
abbrev pub Ensures {ℓ} : {A : Type ℓ} → Run A → (A → Type 0) → Type 0
Ensures (done a) P = P a
Ensures fault P = ⊥

-- The rule for a sequence of two runs.
pub >>=-Ensures {ℓ κ} :
    {A : Type ℓ} {B : Type κ} (m : Run A) (f : A → Run B) (P : A → Type 0) (Q : B → Type 0)
    → Ensures m P
    → ((a : A) → P a → Ensures (f a) Q)
    → Ensures (m >>= f) Q
>>=-Ensures (done a) f P Q h k = k a h
>>=-Ensures fault f P Q h k = absurd h

-- The same, where the second run is told what the first one gave.
pub >>=-Ensures_eq {ℓ κ} :
    {A : Type ℓ} {B : Type κ} (m : Run A) (f : A → Run B) (P : A → Type 0) (Q : B → Type 0)
    → Ensures m P
    → ((a : A) → m ≡ done a → P a → Ensures (f a) Q)
    → Ensures (m >>= f) Q
>>=-Ensures_eq (done a) f P Q h k = k a refl h
>>=-Ensures_eq fault f P Q h k = absurd h

pub Ensures-mono {ℓ} :
    {A : Type ℓ} (m : Run A) (P Q : A → Type 0) → ((a : A) → P a → Q a) → Ensures m P → Ensures m Q
Ensures-mono (done a) P Q k h = k a h
Ensures-mono fault P Q k h = absurd h

-- The buffer with the cells from `off` on replaced.
unfoldable pub overwrite : List ℕ → ℕ → List ℕ → List ℕ
overwrite area off bytes = take off area ++ (bytes ++ drop (off + length bytes) area)

-- Bytes `[off, off + n)`, as `memcpy` out of the buffer reads them.
unfoldable pub load_bytes : List ℕ → ℕ → ℕ → Run (List ℕ)
load_bytes area off n = if leb (off + n) (length area) then done (take n (drop off area)) else fault

-- `memcpy` into the buffer at `off`.
unfoldable pub store_bytes : List ℕ → ℕ → List ℕ → Run (List ℕ)
unfolding overwrite
store_bytes area off bytes =
    if leb (off + length bytes) (length area) then done (overwrite area off bytes) else fault

-- `memmove(area + dst, area + src, n)`.
unfoldable pub memmove : List ℕ → ℕ → ℕ → ℕ → Run (List ℕ)
unfolding load_bytes store_bytes
memmove area dst src n = load_bytes area src n >>= λ bytes. store_bytes area dst bytes

pub load_bytes_in :
    (area : List ℕ) (off n : ℕ)
    → off + n ≤ length area
    → load_bytes area off n ≡ done (take n (drop off area))
unfolding load_bytes
load_bytes_in area off n h = ground arith

pub length-loaded :
    (area : List ℕ) (off n : ℕ) → off + n ≤ length area → length (take n (drop off area)) ≡ n
length-loaded area off n h =
    length-take_of_le n (drop off area) (omega (arith, length-drop off area))

pub store_bytes_in :
    (area : List ℕ) (off : ℕ) (bytes : List ℕ)
    → off + length bytes ≤ length area
    → store_bytes area off bytes ≡ done (overwrite area off bytes)
unfolding store_bytes
store_bytes_in area off bytes h = ground arith

-- A store keeps the size of the buffer.
pub length-overwrite :
    (area : List ℕ) (off : ℕ) (bytes : List ℕ)
    → off + length bytes ≤ length area
    → length (overwrite area off bytes) ≡ length area
unfolding overwrite
length-overwrite area off bytes h = omega (
  arith,
  length-append (take off area) (bytes ++ drop (off + length bytes) area),
  length-append bytes (drop (off + length bytes) area),
  length-take off area,
  length-drop (off + length bytes) area,
)

abbrev pub moved : List ℕ → ℕ → ℕ → ℕ → List ℕ
moved area dst src n = overwrite area dst (take n (drop src area))

-- A move inside the buffer does not fault and keeps its size.
pub memmove_in :
    (area : List ℕ) (dst src n : ℕ)
    → dst + n ≤ length area
    → src + n ≤ length area
    → (memmove area dst src n ≡ done (moved area dst src n))
      × (length (moved area dst src n) ≡ length area)
unfolding memmove
memmove_in area dst src n hd hs =
    let size = length-loaded area src n hs in
    (ground arith, length-overwrite area dst (take n (drop src area)) (omega arith))
