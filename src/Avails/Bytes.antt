-- ===== src/Avails/Bytes.antt =====
-- `struct.pack("!I", n)`, `struct.pack("!Q", n)` and their inverses: a number as big-endian bytes.
-- A byte is a number below 256. A number that does not fit is a struct.error, here `none`.
use native.Mathlib.Nat.{pow-suc}
use peer_connect.Prelude.{
  ℕ, zero, suc, ◌+◌, ◌*◌, ◌/◌, ◌%◌, ◌^◌, ◌<◌, Option, none, some, List, [], ◌∷◌, ◌++◌, ◌≡◌, refl,
  ◌∙◌, arith, ltb, ◌==◌, if◌then◌else◌, length, length-append,
}

abbrev pub Bytes : Type 0
Bytes = List ℕ

unfoldable pub pack_be : ℕ → ℕ → Bytes
pack_be zero n = []
pack_be (suc k) n = pack_be k (n / 256) ++ (n % 256) ∷ []

unfoldable pub unpack_from : ℕ → Bytes → ℕ
unpack_from acc [] = acc
unpack_from acc (b ∷ bs) = unpack_from (acc * 256 + b) bs

unfoldable pub unpack_be : ℕ → Bytes → Option ℕ
unfolding unpack_from
unpack_be k bs = if length bs == k then some (unpack_from 0 bs) else none

unfoldable pub pack : ℕ → ℕ → Option Bytes
unfolding pack_be
pack k n = if ltb n (256 ^ k) then some (pack_be k n) else none

pub length-pack_be : (k n : ℕ) → length (pack_be k n) ≡ k
unfolding pack_be
length-pack_be zero n = refl
length-pack_be (suc k) n =
    omega
      (arith, length-append {0} (pack_be k (n / 256)) ((n % 256) ∷ []), length-pack_be k (n / 256))

unpack-append :
    (acc : ℕ) (xs : Bytes) (b : ℕ) → unpack_from acc (xs ++ b ∷ []) ≡ unpack_from acc xs * 256 + b
unfolding unpack_from
unpack-append acc [] b = refl
unpack-append acc (x ∷ xs) b = unpack-append (acc * 256 + x) xs b

unpack-pack_be : (k n : ℕ) → n < 256 ^ k → unpack_from 0 (pack_be k n) ≡ n
unfolding pack_be unpack_from
unpack-pack_be zero n h = omega arith
unpack-pack_be (suc k) n h =
    unpack-append 0 (pack_be k (n / 256)) (n % 256)
    ∙ (let below : n / 256 < 256 ^ k = omega (arith, pow-suc 256 k) in
        omega (arith, unpack-pack_be k (n / 256) below))

-- A number that fits comes back from its bytes.
pub unpack-pack :
    (k n : ℕ) {bs : Bytes} → pack k n ≡ some bs → (unpack_be k bs ≡ some n) × (length bs ≡ k)
unfolding pack unpack_be
unpack-pack k n h = ground (arith, length-pack_be k n, unpack-pack_be k n)
