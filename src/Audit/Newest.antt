-- ===== src/Audit/Newest.antt =====
-- The newest elements of a sequence, for the bounded buffer of audit events that drops the oldest.
use holonomy_source.Common.{
  ℕ, suc, ◌≤◌, ◌<◌, ◌≡◌, refl, inl, inr, List, [], ◌∷◌, ◌++◌, length, length-append, arith, ltb,
  leb, Bool-cases, if◌then◌else◌, ap,
}

-- The list without its first element.
abbrev pub tail : {A : Type 0} → List A → List A
tail [] = []
tail (x ∷ xs) = xs

-- The last `n` elements of a list.
abbrev pub last : {A : Type 0} → ℕ → List A → List A
last n [] = []
last n (x ∷ xs) = if leb (length (x ∷ xs)) n then x ∷ xs else last n xs

module _ {E : Type 0} where
  pub length-last : (n : ℕ) (xs : List E) → length (last n xs) ≤ n
  length-last n [] = ground arith
  length-last n (x ∷ xs) = ground (arith, length-last n xs)

  pub last_short : (n : ℕ) (xs : List E) → length xs ≤ n → last n xs ≡ xs
  last_short n [] h = refl
  last_short n (x ∷ xs) h = ground arith

  -- The elements before the last `n` do not matter.
  pub last-append : (n : ℕ) (xs ys : List E) → n ≤ length ys → last n (xs ++ ys) ≡ last n ys
  last-append n [] ys h = refl
  last-append n (x ∷ xs) ys h = ground (arith, length-append xs ys, last-append n xs ys h)

  pub append_one : (l : List E) (e : E) (es : List E) → (l ++ e ∷ []) ++ es ≡ l ++ e ∷ es
  append_one [] e es = refl
  append_one (d ∷ l) e es = ap (λ t. d ∷ t) (append_one l e es)

  pub append_nil : (l : List E) → l ++ [] ≡ l
  append_nil [] = refl
  append_nil (d ∷ l) = ap (λ t. d ∷ t) (append_nil l)

  -- Dropping the oldest of a full queue for a newer event loses nothing of the last `n`.
  pub last-tail :
      (n : ℕ) (l : List E) (e : E) (es : List E)
      → 0 < n
      → length l ≤ n
      → last n (((if ltb (length l) n then l else tail l) ++ e ∷ []) ++ es) ≡ last n (l ++ e ∷ es)
  last-tail n [] e es h b = ground arith
  last-tail n (d ∷ l) e es h b = elim (Bool-cases (ltb (suc (length l)) n)) [
    | inl t ↦ rw (t, append_one l e es) refl
    | inr f ↦ rw (f, append_one l e es) ground (arith, length-append l (e ∷ es), f)
  ]
