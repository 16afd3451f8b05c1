-- ===== src/Base/Sizes.antt =====
-- How long printed texts are.
use Prim.Native.Nat.{ℕ, zero, suc, ◌+◌, ◌*◌, ◌/◌, ◌%◌, ◌^◌, ◌≤◌, ◌<◌}
use Prim.Native.String.{String, ◌++◌}
use Prim.Native.String.append as append
use mathlib.Core.Path.{◌≡◌, refl, sym, ap, subst}
use mathlib.Core.Bool.{Bool, true, false}
use mathlib.Core.List.{List, [], ◌∷◌}
use native.Mathlib.Omega.{arith}
use native.Mathlib.Nat.{pow-suc}
use colex.Base.Tests.{ltb, if◌then◌else◌}
use colex.Base.Lists.{length}
use colex.Base.Text.{codes, hex_digit, hex, digits_from, decimal}

unfoldable pub text_size : String → ℕ
text_size s = length (codes s)

pub text_size-append : (s t : String) → text_size (s ++ t) ≡ text_size s + text_size t
unfolding text_size
text_size-append String.[] t =
    let same : length (codes (String.[] ++ t)) ≡ length (codes t) =
      ap (λ x. length (codes x)) (append.nil t) in
    omega arith
text_size-append (String.◌∷◌ c s) t =
    let same : length (codes (String.◌∷◌ c s ++ t)) ≡ suc (length (codes (s ++ t))) =
      ap (λ x. length (codes x)) (append.cons c s t) in
    omega (arith, text_size-append s t)

size_if :
    (b : Bool) (s t : String)
    → text_size s ≡ 1
    → text_size t ≡ 1
    → text_size (if b then s else t) ≡ 1
size_if true s t p q = p
size_if false s t p q = q

hex_digit-size : (n : ℕ) → text_size (hex_digit n) ≡ 1
unfolding hex_digit text_size
hex_digit-size n = search size_if depth 40

pub text_size-hex : (bs : List ℕ) → text_size (hex bs) ≡ length bs * 2
unfolding hex
text_size-hex [] = unfold text_size in refl
text_size-hex (b ∷ bs) = omega (
  arith,
  text_size-append (hex_digit (b / 16) ++ hex_digit (b % 16)) (hex bs),
  text_size-append (hex_digit (b / 16)) (hex_digit (b % 16)),
  hex_digit-size (b / 16),
  hex_digit-size (b % 16),
  text_size-hex bs,
)

-- One more digit is written in front.
digit_before : (n : ℕ) (out : String) → text_size (hex_digit n ++ out) ≡ suc (text_size out)
digit_before n out = omega (arith, text_size-append (hex_digit n) out, hex_digit-size n)

quotient-lt : (n m : ℕ) → n < m * 10 → n / 10 < m
quotient-lt n m lt = omega arith

empty_size : text_size "" ≡ 0
unfolding text_size
empty_size = refl

by_digit :
    (fuel n k : ℕ) (out : String) (last : Bool)
    → ltb n 10 ≡ last
    → n < 10 ^ suc k
    → ((j : ℕ)
        → suc j ≡ k
        → text_size (digits_from fuel (n / 10) (hex_digit (n % 10) ++ out))
          ≤ suc j + text_size (hex_digit (n % 10) ++ out))
    → text_size (elim last [
      | true ↦ hex_digit n ++ out
      | false ↦ digits_from fuel (n / 10) (hex_digit (n % 10) ++ out)
    ])
      ≤ suc k + text_size out
by_digit fuel n k out true e lt later = omega (arith, digit_before n out)
by_digit fuel n zero out false e lt later = ground arith
by_digit fuel n (suc k) out false e lt later =
    omega (arith, digit_before (n % 10) out, later k refl)

digits_from-size :
    (fuel n k : ℕ) (out : String)
    → n < 10 ^ suc k
    → text_size (digits_from fuel n out) ≤ suc k + text_size out
unfolding digits_from
digits_from-size zero n k out lt = omega arith
digits_from-size (suc fuel) n k out lt = by_digit fuel n k out (ltb n 10) refl lt (λ j e.
    digits_from-size fuel (n / 10) j (hex_digit (n % 10) ++ out) (
      quotient-lt n (10 ^ suc j) (
        subst (λ (m : ℕ). n < m) (pow-suc 10 (suc j))
          (subst (λ (m : ℕ). n < 10 ^ suc m) (sym e) lt))))

-- A number below 10 ^ k is printed in k digits at most.
pub text_size-decimal : (n k : ℕ) → n < 10 ^ suc k → text_size (decimal n) ≤ suc k
unfolding decimal
text_size-decimal n k lt = omega (arith, digits_from-size (suc n) n k "" lt, empty_size)
