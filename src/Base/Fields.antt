-- ===== src/Base/Fields.antt =====
-- Bit fields: a shift left that cuts off the high bits, then a shift right.
use Prim.Native.Nat.{ℕ, zero, suc, ◌+◌, ◌*◌, ◌/◌, ◌%◌, ◌^◌, ◌<◌}
use mathlib.Core.Path.{◌≡◌, ap, ◌∙◌}
use native.Mathlib.Nat.{
  mul-add-div_right, mul-add-mod_self_right, mod-eq_of_lt, div-eq_of_lt, div-add-mod', mod-lt,
  pow-suc, zero-add,
}
use native.Mathlib.Omega.{arith}

pub mod_of : (q m r : ℕ) → r < m → (q * m + r) % m ≡ r
mod_of q m r h = mul-add-mod_self_right q m r ∙ mod-eq_of_lt h

pub div_of : (q m r : ℕ) → r < m → (q * m + r) / m ≡ q
div_of q m r h = mul-add-div_right (omega arith) q r ∙ (rw (div-eq_of_lt h) (omega arith))

pub pow-add : (m n : ℕ) → 2 ^ (m + n) ≡ 2 ^ m * 2 ^ n
pow-add zero n = ground (arith, zero-add n)
pow-add (suc m) n =
    let shift : suc m + n ≡ suc (m + n) = omega arith in
    rw shift (
      omega (
        arith,
        pow-suc 2 (m + n),
        pow-suc 2 m,
        pow-add m n,
        ap (λ (t : ℕ). t * 2 ^ n) (pow-suc 2 m),
      ))

product_lt : (t u s l : ℕ) → t < l → u < s → t * s + u < l * s
product_lt t u s l p q = grind arith

-- With x = (q * l + t) * s + u, both sides are t.
split_field :
    (q t u p s l : ℕ)
    → 0 < p
    → t < l
    → u < s
    → (((q * l + t) * s + u) * p % (p * (s * l)) / (p * s) ≡ t)
      × (((q * l + t) * s + u) / s % l ≡ t)
split_field q t u p s l pos tl us = (
  rw (cut, mod_of q (p * (s * l)) (t * (p * s) + u * p) fits) (div_of t (p * s) (u * p) low),
  rw (div_of (q * l + t) s u us) (mod_of q l t tl),
)
  where
    cut : ((q * l + t) * s + u) * p ≡ q * (p * (s * l)) + (t * (p * s) + u * p)
    cut = omega arith

    low : u * p < p * s
    low = grind arith

    fits : t * (p * s) + u * p < p * (s * l)
    fits = grind (arith, product_lt t (u * p) (p * s) l tl low)

pub field_lem : (x p s l : ℕ) → 0 < p → 0 < s → 0 < l → x * p % (p * (s * l)) / (p * s) ≡ x / s % l
field_lem x p s l pp ps pl =
    let parts =
      split_field (x / s / l) (x / s % l) (x % s) p s l pp (mod-lt (x / s) pl) (mod-lt x ps) in
    let whole : (x / s / l * l + x / s % l) * s + x % s ≡ x =
      rw (div-add-mod' (x / s) l) (div-add-mod' x s) in
    rw whole at parts.0
