-- ===== src/Server/WebSocket/Bytes.antt =====
-- The number and mask arithmetic of server/src/websocket.c.
use codo.Prelude.{
  ℕ, zero, suc, ◌+◌, ◌*◌, ◌/◌, ◌%◌, ◌^◌, ◌<◌, ◌≡◌, refl, ap, ap₂, List, [], ◌∷◌, ◌++◌, ◌∙◌, ◌==◌,
  Bool-cases, inl, inr, if◌then◌else◌, arith, length, get_or,
}
use native.Mathlib.Nat.{pow-suc}
use codo.Server.WebSocket.{big_endian, from_bytes, xor_bits, unmask}

pub length-big_endian : (count n : ℕ) → length (big_endian count n) ≡ count
unfolding big_endian
length-big_endian zero n = refl
length-big_endian (suc count) n = ap suc (length-big_endian count n)

-- Bytes below 256.
abbrev pub AllBytes : List ℕ → Type 0
AllBytes [] = Unit
AllBytes (c ∷ p) = (c < 256) × AllBytes p

-- Masking twice with the same key gives the byte back.
xor_bits-twice : (bits a b : ℕ) → a < 2 ^ bits → xor_bits bits (xor_bits bits a b) b ≡ a
unfolding xor_bits
xor_bits-twice zero a b h = omega arith
xor_bits-twice (suc bits) a b h =
    let low : ((a % 2 + b % 2) % 2 + 2 * xor_bits bits (a / 2) (b / 2)) % 2 ≡ (a % 2 + b % 2) % 2 =
      omega arith in
    let high : ((a % 2 + b % 2) % 2 + 2 * xor_bits bits (a / 2) (b / 2)) / 2
        ≡ xor_bits bits (a / 2) (b / 2) =
      omega arith in
    let rest = xor_bits-twice bits (a / 2) (b / 2) (omega (arith, pow-suc 2 bits)) in
    rw (low, high, rest) (omega arith)

pub unmask-twice :
    (mask : List ℕ) (i : ℕ) (p : List ℕ) → AllBytes p → unmask mask i (unmask mask i p) ≡ p
unfolding unmask
unmask-twice mask i [] h = refl
unmask-twice mask i (c ∷ p) (hc, hp) =
    ap₂ ◌∷◌ (xor_bits-twice 8 c (get_or mask (i % 4) 0) hc) (unmask-twice mask (i + 1) p hp)

pub length-unmask : (mask : List ℕ) (i : ℕ) (p : List ℕ) → length (unmask mask i p) ≡ length p
unfolding unmask
length-unmask mask i [] = refl
length-unmask mask i (c ∷ p) = ap suc (length-unmask mask (i + 1) p)

-- The masking of RFC 6455, section 5.3, on the client's side. A bit of a masked byte, given by its
-- weight, is set where the bits of the byte and of the key differ.
abbrev pub differing : ℕ → ℕ → ℕ → ℕ
differing c k w = if c / w % 2 == k / w % 2 then 0 else w

unfoldable pub masked_byte : ℕ → ℕ → ℕ
masked_byte c k =
    differing c k 1
    + differing c k 2
    + differing c k 4
    + differing c k 8
    + differing c k 16
    + differing c k 32
    + differing c k 64
    + differing c k 128

-- The bytes of the key take turns.
unfoldable pub masked : List ℕ → List ℕ → List ℕ
masked key [] = []
masked [] (c ∷ p) = c ∷ p
masked (k ∷ key) (c ∷ p) = masked_byte c k ∷ masked (key ++ (k ∷ [])) p

pub length-masked : (key p : List ℕ) → length (masked key p) ≡ length p
unfolding masked
length-masked key [] = refl
length-masked [] (c ∷ p) = refl
length-masked (k ∷ key) (c ∷ p) = ap suc (length-masked (key ++ (k ∷ [])) p)

differing-bit :
    (c k w a b : ℕ) → c / w ≡ a → k / w ≡ b → differing c k w ≡ w * ((a % 2 + b % 2) % 2)
differing-bit c k w a b ha hb = elim (Bool-cases (a % 2 == b % 2)) [
  | inl t ↦
      let even : (a % 2 + b % 2) % 2 ≡ 0 = ground (arith, t) in rw (ha, hb, t, even) (omega arith)
  | inr t ↦
      let odd : (a % 2 + b % 2) % 2 ≡ 1 = ground (arith, t) in rw (ha, hb, t, odd) (omega arith)
]

xor_bits-masked_byte : (c k : ℕ) → xor_bits 8 c k ≡ masked_byte c k
unfolding masked_byte xor_bits
xor_bits-masked_byte c k = omega (
  arith,
  differing-bit c k 1 c k (omega arith) (omega arith),
  differing-bit c k 2 (c / 2) (k / 2) refl refl,
  differing-bit c k 4 (c / 2 / 2) (k / 2 / 2) (omega arith) (omega arith),
  differing-bit c k 8 (c / 2 / 2 / 2) (k / 2 / 2 / 2) (omega arith) (omega arith),
  differing-bit c k 16 (c / 2 / 2 / 2 / 2) (k / 2 / 2 / 2 / 2) (omega arith) (omega arith),
  differing-bit c k 32 (c / 2 / 2 / 2 / 2 / 2) (k / 2 / 2 / 2 / 2 / 2) (omega arith) (omega arith),
  differing-bit c k 64 (c / 2 / 2 / 2 / 2 / 2 / 2) (k / 2 / 2 / 2 / 2 / 2 / 2) (omega arith)
      (omega arith),
  differing-bit c k 128 (c / 2 / 2 / 2 / 2 / 2 / 2 / 2) (k / 2 / 2 / 2 / 2 / 2 / 2 / 2)
      (omega arith) (omega arith),
)

unmask-turns :
    (mask p : List ℕ) (i k0 k1 k2 k3 : ℕ)
    → get_or mask (i % 4) 0 ≡ k0
    → get_or mask ((i + 1) % 4) 0 ≡ k1
    → get_or mask ((i + 2) % 4) 0 ≡ k2
    → get_or mask ((i + 3) % 4) 0 ≡ k3
    → unmask mask i p ≡ masked (k0 ∷ k1 ∷ k2 ∷ k3 ∷ []) p
unfolding unmask masked
unmask-turns mask [] i k0 k1 k2 k3 h0 h1 h2 h3 = refl
unmask-turns mask (c ∷ p) i k0 k1 k2 k3 h0 h1 h2 h3 =
    let at : (m n : ℕ) → m ≡ n → get_or mask m 0 ≡ get_or mask n 0 =
      λ m n. ap (λ j. get_or mask j 0) in
    ap₂ ◌∷◌ (ap (xor_bits 8 c) h0 ∙ xor_bits-masked_byte c k0) (
      unmask-turns mask p (i + 1) k1 k2 k3 k0 h1
        (at ((i + 1 + 1) % 4) ((i + 2) % 4) (omega arith) ∙ h2)
        (at ((i + 1 + 2) % 4) ((i + 3) % 4) (omega arith) ∙ h3)
        (at ((i + 1 + 3) % 4) (i % 4) (omega arith) ∙ h0))

-- What the server unmasks with is what the client masked with.
pub unmask-masked : (mask p : List ℕ) → length mask ≡ 4 → unmask mask 0 p ≡ masked mask p
unmask-masked (a ∷ b ∷ c ∷ d ∷ []) p h =
    unmask-turns (a ∷ b ∷ c ∷ d ∷ []) p 0 a b c d refl refl refl refl
unmask-masked [] p h = absurd (omega arith)
unmask-masked (a ∷ []) p h = absurd (omega arith)
unmask-masked (a ∷ b ∷ []) p h = absurd (omega arith)
unmask-masked (a ∷ b ∷ c ∷ []) p h = absurd (omega arith)
unmask-masked (a ∷ b ∷ c ∷ d ∷ e ∷ mask) p h = absurd (omega arith)

-- The two widths of a length on the wire, in network order.
unfoldable pub octets_2 : ℕ → List ℕ
octets_2 n = n / 256 % 256 ∷ n % 256 ∷ []

unfoldable pub octets_8 : ℕ → List ℕ
octets_8 n =
    n / 2 ^ 56 % 256
    ∷ n / 2 ^ 48 % 256
    ∷ n / 2 ^ 40 % 256
    ∷ n / 2 ^ 32 % 256
    ∷ n / 2 ^ 24 % 256
    ∷ n / 2 ^ 16 % 256
    ∷ n / 2 ^ 8 % 256
    ∷ n % 256
    ∷ []

-- The code writes them so.
pub big_endian_2-octets : (n : ℕ) → big_endian 2 n ≡ octets_2 n
unfolding big_endian octets_2
big_endian_2-octets n = ground arith

pub big_endian_8-octets : (n : ℕ) → big_endian 8 n ≡ octets_8 n
unfolding big_endian octets_8
big_endian_8-octets n = ground arith

-- And reads them back.
pub from_bytes-octets_2 : (n : ℕ) → n < 65536 → from_bytes 0 (octets_2 n) ≡ n
unfolding from_bytes octets_2
from_bytes-octets_2 n h = omega arith

pub from_bytes-octets_8 : (n : ℕ) → n < 18446744073709551616 → from_bytes 0 (octets_8 n) ≡ n
unfolding from_bytes octets_8
from_bytes-octets_8 n h = omega arith
