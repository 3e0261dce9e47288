-- ===== src/Otm/Hypercube/Flip.antt =====
-- `i ^ (1 << j)`, by the binary digits of `i`.
use native.Mathlib.Nat.{pow-suc}
use peer_connect.Prelude.{
  ℕ, zero, suc, ◌+◌, ◌-◌, ◌*◌, ◌/◌, ◌%◌, ◌^◌, ◌<◌, Bool, true, ◌&&◌, ◌≡◌, ◌≢◌, refl, inl, inr,
  arith, ◌==◌, if◌then◌else◌, Bool-cases,
}
use Prim.Native.Nat.{bit_xor}

unfoldable pub flip : ℕ → ℕ → ℕ
flip zero i = if i % 2 == 0 then i + 1 else i - 1
flip (suc j) i = 2 * flip j (i / 2) + i % 2

all_below : ℕ → (ℕ → Bool) → Bool
all_below zero p = true
all_below (suc n) p = p n && all_below n p

-- the native exclusive or agrees, for up to 64 peers in 6 dimensions
flip-bit_xor : all_below 64 (λ i. all_below 6 (λ j. flip j i == bit_xor i (2 ^ j))) ≡ true
unfolding all_below flip
flip-bit_xor = refl

pub flip-flip : (j i : ℕ) → flip j (flip j i) ≡ i
unfolding flip
flip-flip zero i = ground arith
flip-flip (suc j) i =
    let down : (2 * flip j (i / 2) + i % 2) / 2 ≡ flip j (i / 2) = omega arith in
    let last : (2 * flip j (i / 2) + i % 2) % 2 ≡ i % 2 = omega arith in
    rw (down, last, flip-flip j (i / 2)) (omega arith)

pub flip-ne : (j i : ℕ) → flip j i ≢ i
unfolding flip
flip-ne zero i e = ground arith
flip-ne (suc j) i e = flip-ne j (i / 2) (omega arith)

-- A positive number below 2 ^ d has a bit that is set: to flip it makes the number smaller.
pub set_bit : (d i : ℕ) → 0 < i → i < 2 ^ d → (j : ℕ) × (j < d) × (flip j i < i)
unfolding flip
set_bit zero i pos_i h = absurd (omega arith)
set_bit (suc d) i pos_i h = elim (Bool-cases (i % 2 == 0)) [
  | inl even ↦
      let half = set_bit d (i / 2) (ground arith) (omega (arith, pow-suc 2 d)) in
      (suc half.0, omega (arith, half.1), ground (arith, half.2))
  | inr odd ↦ (0, omega arith, ground arith)
]
