-- ===== src/Prelude/Int.antt =====
-- Integers that a server may send. `negsuc n` is -(n + 1).
use Prim.Native.Nat.{ℕ, zero, suc, ◌+◌, ◌-◌, ◌≤◌}
use mathlib.Core.Path.{◌≡◌, refl, ap, ◌∙◌}
use mathlib.Core.List.{◌∷◌}
use native.Mathlib.Omega.{arith}
use zscalerctl.Prelude.Texts.{Text, itoa}
use mathlib.Core.Bool.{Bool, true, false}
use zscalerctl.Prelude.Tests.{◌==◌, ltb}

pub data ℤ : Type 0 where
  pos : ℕ → ℤ
  negsuc : ℕ → ℤ

abbrev pub is_negative : ℤ → Bool
is_negative (pos n) = false
is_negative (negsuc n) = true

-- The value of an integer that has been tested not to be negative.
abbrev pub to_nat : ℤ → ℕ
to_nat (pos n) = n
to_nat (negsuc n) = 0

abbrev pub is_nat : ℤ → ℕ → Bool
is_nat (pos n) m = n == m
is_nat (negsuc n) m = false

-- `z < n`
abbrev pub is_below : ℤ → ℕ → Bool
is_below (pos a) n = ltb a n
is_below (negsuc a) n = true

-- The difference of two natural numbers.
unfoldable pub subtract : ℕ → ℕ → ℤ
subtract a zero = pos a
subtract zero (suc b) = negsuc b
subtract (suc a) (suc b) = subtract a b

-- `z + n`
unfoldable pub add_nat : ℤ → ℕ → ℤ
unfolding subtract
add_nat (pos a) n = pos (a + n)
add_nat (negsuc a) n = subtract n (suc a)

-- `z - n`
unfoldable pub sub_nat : ℤ → ℕ → ℤ
unfolding subtract
sub_nat (pos a) n = subtract a n
sub_nat (negsuc a) n = negsuc (a + n)

pub sub_nat-add_nat : (z : ℤ) (n : ℕ) → add_nat (sub_nat z 1) (suc n) ≡ add_nat z n
unfolding add_nat sub_nat
sub_nat-add_nat (pos zero) n = ground arith
sub_nat-add_nat (pos (suc a)) n = ground arith
sub_nat-add_nat (negsuc a) n = ground arith

-- The decimal text of an integer.
unfoldable pub int_text : ℤ → Text
unfolding itoa
int_text (pos a) = itoa a
int_text (negsuc a) = b'-' ∷ itoa (suc a)

subtract_eq : (x y x' y' : ℕ) → x ≡ x' → y ≡ y' → subtract x y ≡ subtract x' y'
subtract_eq x y x' y' hx hy = cc

add_nat-subtract : (x y k : ℕ) → add_nat (subtract x y) k ≡ subtract (x + k) y
unfolding add_nat subtract
add_nat-subtract x zero k = refl
add_nat-subtract zero (suc y) k = subtract_eq k (suc y) (0 + k) (suc y) (omega arith) refl
add_nat-subtract (suc x) (suc y) k =
    add_nat-subtract x y k
    ∙ subtract_eq (suc (x + k)) (suc y) (suc x + k) (suc y) (omega arith) refl

sub_nat-subtract : (x y k : ℕ) → sub_nat (subtract x y) k ≡ subtract x (y + k)
unfolding sub_nat subtract
sub_nat-subtract x zero k = ground arith
sub_nat-subtract zero (suc y) k = subtract_eq 0 (suc (y + k)) 0 (suc y + k) refl (omega arith)
sub_nat-subtract (suc x) (suc y) k =
    sub_nat-subtract x y k
    ∙ subtract_eq (suc x) (suc (y + k)) (suc x) (suc y + k) refl (omega arith)

subtract-plus : (a b : ℕ) → subtract (a + b) b ≡ pos a
unfolding subtract
subtract-plus a zero = ground arith
subtract-plus a (suc b) = ground (arith, subtract-plus a b)

pub subtract_le : (a b : ℕ) → b ≤ a → subtract a b ≡ pos (a - b)
unfolding subtract
subtract_le a zero h = ground arith
subtract_le zero (suc b) h = ground (arith, h)
subtract_le (suc a) (suc b) h = subtract_le a b (omega (arith, h)) ∙ ap pos (omega arith)

subtract_both : (a b c : ℕ) → subtract (a + c) (b + c) ≡ subtract a b
unfolding subtract
subtract_both a b zero = ground arith
subtract_both a b (suc c) =
    subtract_eq (a + suc c) (b + suc c) (suc (a + c)) (suc (b + c)) (omega arith) (omega arith)
    ∙ subtract_both a b c

-- Adding more than is taken away again.
pub sub_nat-add_more : (z : ℤ) (a b : ℕ) → sub_nat (add_nat z (a + b)) b ≡ add_nat z a
unfolding add_nat sub_nat
sub_nat-add_more (pos x) a b =
    subtract_eq (x + (a + b)) b (x + a + b) b (omega arith) refl ∙ subtract-plus (x + a) b
sub_nat-add_more (negsuc x) a b = sub_nat-subtract (a + b) (suc x) b ∙ subtract_both a (suc x) b

pub add_nat-add_nat : (z : ℤ) (a b : ℕ) → add_nat (add_nat z a) b ≡ add_nat z (a + b)
unfolding add_nat
add_nat-add_nat (pos x) a b = ground arith
add_nat-add_nat (negsuc x) a b = add_nat-subtract a (suc x) b

pub sub_nat-zero : (z : ℤ) → sub_nat z 0 ≡ z
unfolding sub_nat subtract
sub_nat-zero (pos x) = refl
sub_nat-zero (negsuc x) = ground arith

pub add_nat-zero : (z : ℤ) → add_nat z 0 ≡ z
unfolding add_nat subtract
add_nat-zero (pos x) = ground arith
add_nat-zero (negsuc x) = refl
