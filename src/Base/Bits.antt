-- ===== src/Base/Bits.antt =====
-- Words as lists of bits in both orders, as the shift loops send and gather them.
use native.Mathlib.Nat.{div-div-eq-div-mul, div-eq_of_lt, div-one, pow-suc, pow-zero}
use mega65_expansion_board_i.Base.{
  ℕ, zero, suc, ◌+◌, ◌*◌, ◌/◌, ◌%◌, ◌^◌, ◌<◌, ◌≡◌, refl, sym, ap, ◌∙◌, Bool, List, [], ◌∷◌, arith,
  ◌==◌, if◌then◌else◌, length,
}

-- `(w & 1u) != 0`
abbrev pub odd : ℕ → Bool
odd w = w % 2 == 1

-- `((w >> i) & 1u) != 0`
abbrev pub test_bit : ℕ → ℕ → Bool
test_bit w i = odd (w / 2 ^ i)

abbrev pub bit_value : Bool → ℕ
bit_value b = if b then 1 else 0

-- the low `n` bits of `w`, bit 0 first
abbrev pub bits_lsb : ℕ → ℕ → List Bool
bits_lsb zero w = []
bits_lsb (suc n) w = odd w ∷ bits_lsb n (w / 2)

-- the low `n` bits of `w`, bit `n - 1` first
abbrev pub bits_msb : ℕ → ℕ → List Bool
bits_msb zero w = []
bits_msb (suc n) w = test_bit w n ∷ bits_msb n w

-- the number whose bit 0 comes first
abbrev pub of_lsb : List Bool → ℕ
of_lsb [] = 0
of_lsb (b ∷ bs) = bit_value b + 2 * of_lsb bs

-- the number that `bs` appends, top bit first, to the bits of `acc`
abbrev pub of_msb : ℕ → List Bool → ℕ
of_msb acc [] = acc
of_msb acc (b ∷ bs) = of_msb (2 * acc + bit_value b) bs

pub div-pow-suc : (w i : ℕ) → w / 2 ^ suc i ≡ w / 2 ^ i / 2
div-pow-suc w i = rw pow-suc (sym (div-div-eq-div-mul w (2 ^ i) 2))

pub div-pow-zero : (w : ℕ) → w / 2 ^ zero ≡ w
div-pow-zero w = rw pow-zero (div-one w)

bit_value-odd : (w : ℕ) → bit_value (odd w) ≡ w % 2
bit_value-odd w = ground arith

pub of_lsb-bits_lsb : (n w : ℕ) → w < 2 ^ n → of_lsb (bits_lsb n w) ≡ w
of_lsb-bits_lsb zero w h = omega (arith, rw pow-zero at h)
of_lsb-bits_lsb (suc n) w h = omega (
  arith,
  bit_value-odd w,
  of_lsb-bits_lsb n (w / 2) (let h' : w < 2 ^ n * 2 = rw pow-suc at h in omega arith),
)

of_msb-bits_msb_from : (n w : ℕ) → of_msb (w / 2 ^ n) (bits_msb n w) ≡ w
of_msb-bits_msb_from zero w = div-pow-zero w
of_msb-bits_msb_from (suc n) w =
    let e : 2 * (w / 2 ^ suc n) + bit_value (test_bit w n) ≡ w / 2 ^ n =
      rw div-pow-suc (omega (arith, bit_value-odd (w / 2 ^ n))) in
    ap (λ k. of_msb k (bits_msb n w)) e ∙ of_msb-bits_msb_from n w

pub of_msb-bits_msb : (n w : ℕ) → w < 2 ^ n → of_msb 0 (bits_msb n w) ≡ w
of_msb-bits_msb n w h = let e : w / 2 ^ n ≡ 0 = div-eq_of_lt h in rw e at (of_msb-bits_msb_from n w)

pub length-bits_msb : (n w : ℕ) → length (bits_msb n w) ≡ n
length-bits_msb zero w = refl
length-bits_msb (suc n) w = ap suc (length-bits_msb n w)
