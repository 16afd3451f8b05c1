-- ===== src/Auth/Rows.antt =====
-- Lines and fields of the certificates file: what splitting at one byte gives for joined texts.
use colex.Base.{
  ℕ, ◌==◌, true, List, [], ◌∷◌, ◌++◌, ◌≡◌, ◌≢◌, refl, ap, ◌∙◌, arith, All, if◌then◌else◌,
}
use colex.Base.Text.{Bytes, split, drop_cr, same_bytes, cons_piece}
use colex.Auth.{sanitized, space, newline}

-- No byte of the text is `b`.
abbrev pub IsFree : ℕ → Bytes → Type 0
IsFree b = All (λ x. x ≢ b)

cons_piece-append :
    (b : ℕ) (ps qs : List Bytes) → ps ≢ [] → cons_piece b (ps ++ qs) ≡ cons_piece b ps ++ qs
cons_piece-append b [] qs h = absurd (h refl)
cons_piece-append b (p ∷ ps) qs h = refl

split_nonempty : (sep : ℕ) (xs : Bytes) → split sep xs ≢ []
unfolding split
split_nonempty sep [] = λ e. cc
split_nonempty sep (x ∷ xs) =
    elim (split sep xs) as (λ r. (if x == sep then [] ∷ r else cons_piece x r) ≢ []) [
      | [] ↦ λ e. ground arith
      | p ∷ ps ↦ λ e. ground arith
    ]

pub split-append :
    (sep : ℕ) (xs ys : Bytes) → split sep (xs ++ sep ∷ ys) ≡ split sep xs ++ split sep ys
unfolding split
split-append sep [] ys = ground arith
split-append sep (x ∷ xs) ys = ground (
  arith,
  split-append sep xs ys,
  cons_piece-append x (split sep xs) (split sep ys) (split_nonempty sep xs),
)

pub split-IsFree : (sep : ℕ) (xs : Bytes) → IsFree sep xs → split sep xs ≡ xs ∷ []
unfolding split
split-IsFree sep [] h = refl
split-IsFree sep (x ∷ xs) h = let no = h.0 in ground (arith, split-IsFree sep xs h.1)

-- A field that is free of the separator, and what follows it.
pub split-field :
    (sep : ℕ) (xs ys : Bytes) → IsFree sep xs → split sep (xs ++ sep ∷ ys) ≡ xs ∷ split sep ys
split-field sep xs ys h = rw (split-append sep xs ys, split-IsFree sep xs h) refl

pub IsFree-append : (b : ℕ) (xs ys : Bytes) → IsFree b xs → IsFree b ys → IsFree b (xs ++ ys)
IsFree-append b [] ys h k = k
IsFree-append b (x ∷ xs) ys h k = (h.0, IsFree-append b xs ys h.1 k)

pub sanitized-IsFree : (bs : Bytes) → IsFree space (sanitized bs) × IsFree newline (sanitized bs)
unfolding sanitized
sanitized-IsFree [] = (tt, tt)
sanitized-IsFree (b ∷ bs) = ground (arith, sanitized-IsFree bs)

pub drop_cr-IsFree : (xs : Bytes) → IsFree 13 xs → drop_cr xs ≡ xs
drop_cr-IsFree [] h = refl
drop_cr-IsFree (b ∷ []) h = let no = h.0 in ground arith
drop_cr-IsFree (b ∷ c ∷ bs) h = ap (λ r. b ∷ r) (drop_cr-IsFree (c ∷ bs) h.1)

-- Only the end of a line matters for the carriage return.
pub drop_cr-append :
    (xs : Bytes) (y : ℕ) (ys : Bytes) → drop_cr (xs ++ y ∷ ys) ≡ xs ++ drop_cr (y ∷ ys)
drop_cr-append [] y ys = refl
drop_cr-append (x ∷ []) y ys = refl
drop_cr-append (x ∷ w ∷ xs) y ys = ap (λ r. x ∷ r) (drop_cr-append (w ∷ xs) y ys)

pub same_bytes_refl : (xs : Bytes) → same_bytes xs xs ≡ true
unfolding same_bytes
same_bytes_refl [] = refl
same_bytes_refl (x ∷ xs) = ground (arith, same_bytes_refl xs)

pub same_bytes→≡ : (xs ys : Bytes) → same_bytes xs ys ≡ true → xs ≡ ys
unfolding same_bytes
same_bytes→≡ [] [] h = refl
same_bytes→≡ [] (y ∷ ys) h = cc
same_bytes→≡ (x ∷ xs) [] h = cc
same_bytes→≡ (x ∷ xs) (y ∷ ys) h = ground (arith, same_bytes→≡ xs ys)

-- The four fields of a row, joined by blanks.
module _ (n r t k : Bytes) where
  pub IsFree-joined :
      (b : ℕ)
      → space ≢ b
      → IsFree b n
      → IsFree b r
      → IsFree b t
      → IsFree b k
      → IsFree b (n ++ (space ∷ (r ++ (space ∷ (t ++ (space ∷ k))))))
  IsFree-joined b s hn hr ht hk =
      IsFree-append b n _ hn (s, IsFree-append b r _ hr (s, IsFree-append b t _ ht (s, hk)))

  pub drop_cr-joined :
      IsFree 13 k
      → drop_cr (n ++ (space ∷ (r ++ (space ∷ (t ++ (space ∷ k))))))
        ≡ n ++ (space ∷ (r ++ (space ∷ (t ++ (space ∷ k)))))
  drop_cr-joined hk =
      drop_cr-append n space _
      ∙ ap (λ xs. n ++ xs)
          (drop_cr-append (space ∷ r) space _
            ∙ ap (λ xs. space ∷ (r ++ xs))
                (drop_cr-append (space ∷ t) space k
                  ∙ ap (λ xs. space ∷ (t ++ xs)) (drop_cr-IsFree (space ∷ k) (omega arith, hk))))

  pub split-joined :
      IsFree space n
      → IsFree space r
      → IsFree space t
      → IsFree space k
      → split space (n ++ (space ∷ (r ++ (space ∷ (t ++ (space ∷ k)))))) ≡ n ∷ r ∷ t ∷ k ∷ []
  split-joined hn hr ht hk =
      split-field space n _ hn
      ∙ ap (λ xs. n ∷ xs)
          (split-field space r _ hr
            ∙ ap (λ xs. r ∷ xs)
                (split-field space t k ht ∙ ap (λ xs. t ∷ xs) (split-IsFree space k hk)))
