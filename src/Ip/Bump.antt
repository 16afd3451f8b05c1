-- ===== src/Ip/Bump.antt =====
-- The increment loop of getNextFromPool (controller/ipPool.go) against arithmetic.
use colex.Base.{
  sym, ℕ, zero, suc, ◌+◌, ◌*◌, ◌%◌, ◌^◌, ◌<◌, ◌≡◌, refl, Bool, true, false, [], ◌∷◌, if◌then◌else◌,
  ◌==◌, length, length-set, get_or, set, arith, All,
}
use native.Mathlib.Nat.{pow-suc, mod-eq_of_lt, mod_self}
use native.Mathlib.Decide.{ℕ_discrete}
use colex.Ip.{Ip, bump, bump_from}

-- The number that the bytes write in base 256.
unfoldable pub value : Ip → ℕ
value [] = 0
value (b ∷ bs) = b * 256 ^ length bs + value bs

abbrev pub IsBytes : Ip → Type 0
IsBytes = All (λ b. b < 256)

-- Whether the loop over the first `i` bytes passes them all.
carry : ℕ → Ip → Bool
carry zero xs = true
carry (suc i) xs =
    let rest = carry i (set xs i 0) in if (get_or xs i 0 + 1) % 256 == 0 then rest else false

bump_from-cons :
    (i x : ℕ) (xs : Ip)
    → bump_from (suc i) (x ∷ xs) ≡ ((if carry i xs then (x + 1) % 256 else x) ∷ bump_from i xs)
unfolding bump_from carry
bump_from-cons zero x xs = ground arith
bump_from-cons (suc i) x xs = ground (arith, bump_from-cons i x (set xs i 0))

carry-cons :
    (i x : ℕ) (xs : Ip)
    → carry (suc i) (x ∷ xs) ≡ (if carry i xs then (x + 1) % 256 == 0 else false)
unfolding carry
carry-cons zero x xs = ground arith
carry-cons (suc i) x xs = ground (arith, carry-cons i x (set xs i 0))

value-lt : (xs : Ip) → IsBytes xs → value xs < 256 ^ length xs
unfolding value
value-lt [] h = omega arith
value-lt (x ∷ xs) h = grind (arith, pow-suc, value-lt xs h.1)

pub length-bump_from : (i : ℕ) (ip : Ip) → length (bump_from i ip) ≡ length ip
unfolding bump_from
length-bump_from zero ip = refl
length-bump_from (suc i) ip = ground (
  arith,
  length-bump_from i (set ip i ((get_or ip i 0 + 1) % 256)),
  length-set ip i ((get_or ip i 0 + 1) % 256),
)

set-IsBytes : (ip : Ip) (i v : ℕ) → IsBytes ip → v < 256 → IsBytes (set ip i v)
set-IsBytes [] i v h k = tt
set-IsBytes (x ∷ xs) zero v h k = (k, h.1)
set-IsBytes (x ∷ xs) (suc i) v h k = (h.0, set-IsBytes xs i v h.1 k)

bump_from-IsBytes : (i : ℕ) (ip : Ip) → IsBytes ip → IsBytes (bump_from i ip)
unfolding bump_from
bump_from-IsBytes zero ip h = h
bump_from-IsBytes (suc i) ip h =
    let fits : (get_or ip i 0 + 1) % 256 < 256 = omega arith in
    let stored = set-IsBytes ip i ((get_or ip i 0 + 1) % 256) h fits in
    let further = bump_from-IsBytes i (set ip i ((get_or ip i 0 + 1) % 256)) stored in
    ground (arith, stored, further)

-- One byte in front of a loop that has ended, with `c` its carry.
value_step :
    (c : Bool) (x : ℕ) (xs ys : Ip)
    → IsBytes (x ∷ xs)
    → length ys ≡ length xs
    → value ys + (if c then 256 ^ length xs else 0) ≡ value xs + 1
    → value ((if c then (x + 1) % 256 else x) ∷ ys)
        + (if (if c then (x + 1) % 256 == 0 else false) then 256 ^ suc (length xs) else 0)
      ≡ value (x ∷ xs) + 1
unfolding value
value_step true x xs ys h l e = rw l (elim (ℕ_discrete x 255) [
  | yes top ↦ rw (top, pow-suc) (omega arith)
  | no low ↦ let next : (x + 1) % 256 ≡ x + 1 = omega (arith, h.0) in rw next (grind arith)
])
value_step false x xs ys h l e = rw l (omega arith)

-- Within the loop: either every byte was 255 and the number is 0 now, or it grew by one.
bump_from-value :
    (xs : Ip)
    → IsBytes xs
    → value (bump_from (length xs) xs) + (if carry (length xs) xs then 256 ^ length xs else 0)
      ≡ value xs + 1
bump_from-value [] h = unfold value carry bump_from in omega arith
bump_from-value (x ∷ xs) h =
    rw (bump_from-cons (length xs) x xs, carry-cons (length xs) x xs)
      (value_step (carry (length xs) xs) x xs (bump_from (length xs) xs) h
        (length-bump_from (length xs) xs) (bump_from-value xs h.1))

wrap : (v m n : ℕ) (c : Bool) → v < m → n < m → n + (if c then m else 0) ≡ v + 1 → n ≡ (v + 1) % m
wrap v m n true old new e = let full : v + 1 ≡ m = omega arith in rw (full, mod_self) (omega arith)
wrap v m n false old new e = let same : v + 1 ≡ n = omega arith in rw same (sym (mod-eq_of_lt new))

-- The increment loop adds one to the address, modulo 2 ^ 8 for each byte.
pub value-bump : (ip : Ip) → IsBytes ip → value (bump ip) ≡ (value ip + 1) % 256 ^ length ip
unfolding bump
value-bump ip h =
    let step = bump_from-value ip h in
    let old = value-lt ip h in
    let new = value-lt (bump_from (length ip) ip) (bump_from-IsBytes (length ip) ip h) in
    wrap (value ip) (256 ^ length ip) _ (carry (length ip) ip) old
      (rw (length-bump_from (length ip) ip) at new) step

pub bump-IsBytes : (ip : Ip) → IsBytes ip → IsBytes (bump ip)
unfolding bump
bump-IsBytes ip = bump_from-IsBytes (length ip) ip

pub length-bump : (ip : Ip) → length (bump ip) ≡ length ip
unfolding bump
length-bump ip = length-bump_from (length ip) ip
