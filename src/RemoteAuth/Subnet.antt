-- ===== src/RemoteAuth/Subnet.antt =====
-- src/remote_auth.c: what a range such as 10.1.2.0/24 means.
use native.Mathlib.Nat.{pow-suc, pow-zero, pow-le-pow_right, div-div-eq-div-mul}
use mega65_expansion_board_i.Base.{
  ℕ, zero, suc, ◌+◌, ◌-◌, ◌*◌, ◌/◌, ◌%◌, ◌^◌, ◌<◌, ◌≤◌, ◌≡◌, inl, inr, refl, ap, ◌∙◌, true, false,
  ◌&&◌, ◌==◌, if◌then◌else◌, arith, Bool-cases, ==_iff,
}
use mega65_expansion_board_i.Base.Bits.{odd}
use mega65_expansion_board_i.RemoteAuth.Address.{and_bits, and32, prefix_mask}

pub pow_positive : (n : ℕ) → 1 ≤ 2 ^ n
pow_positive zero = omega (arith, pow-zero)
pow_positive (suc n) = let ih = pow_positive n in rw pow-suc (omega arith)

low_bit :
    (a b rest : ℕ) → odd b ≡ true → (if odd a && odd b then 1 else 0) + 2 * rest ≡ a % 2 + 2 * rest
low_bit a b rest h = ground arith

no_low_bit :
    (a b rest : ℕ) → odd b ≡ false → (if odd a && odd b then 1 else 0) + 2 * rest ≡ 2 * rest
no_low_bit a b rest h = ground arith

odd_ones : (m : ℕ) → 1 ≤ m → odd (m * 2 - 1) ≡ true
odd_ones m h = ground arith

and_bits-ones : (n a : ℕ) → a < 2 ^ n → and_bits n a (2 ^ n - 1) ≡ a
unfolding and_bits
and_bits-ones zero a h = omega (arith, rw pow-zero at h)
and_bits-ones (suc n) a h =
    let small : a < 2 ^ n * 2 = rw pow-suc at h in
    let pos = pow_positive n in
    let half : (2 ^ n * 2 - 1) / 2 ≡ 2 ^ n - 1 = omega arith in
    let ih = and_bits-ones n (a / 2) (omega arith) in
    rw (pow-suc, half, ih) (low_bit a (2 ^ n * 2 - 1) (a / 2) (odd_ones (2 ^ n) pos) ∙ omega arith)

even_mask : (m q : ℕ) → odd (m * 2 - q * 2) ≡ false
even_mask m q = ground arith

regroup_product : (a q : ℕ) → 2 * (a / 2 / q * q) ≡ a / (q * 2) * (q * 2)
regroup_product a q =
    let e : a / 2 / q ≡ a / (q * 2) = div-div-eq-div-mul a 2 q ∙ ap (λ m. a / m) (omega arith) in
    rw e (grind arith)

and_bits-prefix : (n k a : ℕ) → k ≤ n → a < 2 ^ n → and_bits n a (2 ^ n - 2 ^ k) ≡ a / 2 ^ k * 2 ^ k
unfolding and_bits
and_bits-prefix n zero a le h = and_bits-ones n a h ∙ omega arith
and_bits-prefix zero (suc k) a le h = absurd (omega arith)
and_bits-prefix (suc n) (suc k) a le h =
    let small : a < 2 ^ n * 2 = rw pow-suc at h in
    let half : (2 ^ n * 2 - 2 ^ k * 2) / 2 ≡ 2 ^ n - 2 ^ k = omega arith in
    let ih = and_bits-prefix n k (a / 2) (omega arith) (omega arith) in
    rw (pow-suc, pow-suc, half, ih)
      (no_low_bit a (2 ^ n * 2 - 2 ^ k * 2) _ (even_mask (2 ^ n) (2 ^ k))
        ∙ regroup_product a (2 ^ k))

prefix_mask_lem : (p : ℕ) → p ≤ 32 → prefix_mask p ≡ 2 ^ 32 - 2 ^ (32 - p)
unfolding prefix_mask
prefix_mask_lem p h = elim (Bool-cases (p == 0)) [
  | inl none' ↦ let e : p ≡ 0 = (==_iff p 0).0 none' in rw e refl
  | inr some' ↦
      let pos = pow_positive (32 - p) in
      let cap : 2 ^ (32 - p) ≤ 2 ^ 32 =
        pow-le-pow_right (omega arith) {i = 32 - p} {j = 32} (omega arith) in
      simp some' (omega arith)
]

-- the network address of a range of prefix `p`
pub network_of :
    (p a : ℕ) → p ≤ 32 → a < 2 ^ 32 → and32 a (prefix_mask p) ≡ a / 2 ^ (32 - p) * 2 ^ (32 - p)
network_of p a h small =
    rw (prefix_mask_lem p h) (and_bits-prefix 32 (32 - p) a (omega arith) small)
