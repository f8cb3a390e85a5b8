-- ===== src/Read/Pick.antt =====
-- Lists of which a mask of Booleans picks elements, for the rows that a filter keeps.
use holonomy_source.Common.{
  ℕ, suc, ◌≡◌, refl, ap, Bool, true, false, ◌&&◌, Option, none, some, List, [], ◌∷◌, map, arith,
  length,
}
use holonomy_source.Filter.{repeat}

-- The elements under a true.
abbrev pub pick {ℓ} : {V : Type ℓ} → List Bool → List V → List V
pick [] xs = []
pick (b ∷ bs) [] = []
pick (true ∷ bs) (x ∷ xs) = x ∷ pick bs xs
pick (false ∷ bs) (x ∷ xs) = pick bs xs

-- The elements under a true, where the mask has nulls.
abbrev pub select : {V : Type 0} → List (Option Bool) → List V → List V
select [] xs = []
select (b ∷ bs) [] = []
select (some true ∷ bs) (x ∷ xs) = x ∷ select bs xs
select (some false ∷ bs) (x ∷ xs) = select bs xs
select (none ∷ bs) (x ∷ xs) = select bs xs

abbrev pub trues : List Bool → ℕ
trues [] = 0
trues (true ∷ bs) = suc (trues bs)
trues (false ∷ bs) = trues bs

-- The conjunction, row by row.
abbrev pub zip_and : List Bool → List Bool → List Bool
zip_and [] bs = []
zip_and (a ∷ cs) [] = []
zip_and (a ∷ cs) (b ∷ bs) = (a && b) ∷ zip_and cs bs

pub length-pick :
    {V : Type 0} (m : List Bool) (xs : List V) → length m ≡ length xs → length (pick m xs) ≡ trues m
length-pick [] xs h = refl
length-pick (b ∷ m) [] h = omega (arith, h)
length-pick (true ∷ m) (x ∷ xs) h = omega (arith, length-pick m xs (omega (arith, h)))
length-pick (false ∷ m) (x ∷ xs) h = length-pick m xs (omega (arith, h))

pub pick-map :
    {V W : Type 0} (f : V → W) (m : List Bool) (xs : List V) → map f (pick m xs) ≡ pick m (map f xs)
pick-map f [] xs = refl
pick-map f (b ∷ m) [] = refl
pick-map f (true ∷ m) (x ∷ xs) = ap (λ l. f x ∷ l) (pick-map f m xs)
pick-map f (false ∷ m) (x ∷ xs) = pick-map f m xs

pub pick-repeat : (m : List Bool) → pick m (repeat true (length m)) ≡ repeat true (trues m)
unfolding repeat
pick-repeat [] = refl
pick-repeat (true ∷ m) = ap (λ l. true ∷ l) (pick-repeat m)
pick-repeat (false ∷ m) = pick-repeat m

zip_and-nil : (cs : List Bool) → zip_and cs [] ≡ []
zip_and-nil [] = refl
zip_and-nil (a ∷ cs) = refl

pick-nil : {V : Type 0} (m : List Bool) → pick {V = V} m [] ≡ []
pick-nil [] = refl
pick-nil (b ∷ m) = refl

pub zip_and-pick : (m cs bs : List Bool) → zip_and (pick m cs) (pick m bs) ≡ pick m (zip_and cs bs)
zip_and-pick [] cs bs = refl
zip_and-pick (b ∷ m) [] bs = refl
zip_and-pick (true ∷ m) (a ∷ cs) [] = refl
zip_and-pick (false ∷ m) (a ∷ cs) [] = zip_and-nil (pick m cs)
zip_and-pick (true ∷ m) (a ∷ cs) (b ∷ bs) = ap (λ l. (a && b) ∷ l) (zip_and-pick m cs bs)
zip_and-pick (false ∷ m) (a ∷ cs) (b ∷ bs) = zip_and-pick m cs bs

-- What a mask picks of what another mask picks.
pub pick-pick :
    {V : Type 0} (m p : List Bool) (xs : List V)
    → pick (pick m p) (pick m xs) ≡ pick (zip_and m p) xs
pick-pick [] p xs = refl
pick-pick (b ∷ m) [] xs = refl
pick-pick (true ∷ m) (c ∷ p) [] = refl
pick-pick (false ∷ m) (c ∷ p) [] = pick-nil (pick m p)
pick-pick (true ∷ m) (true ∷ p) (x ∷ xs) = ap (λ l. x ∷ l) (pick-pick m p xs)
pick-pick (true ∷ m) (false ∷ p) (x ∷ xs) = pick-pick m p xs
pick-pick (false ∷ m) (c ∷ p) (x ∷ xs) = pick-pick m p xs

pub pick-all : {V : Type 0} (xs : List V) → pick (repeat true (length xs)) xs ≡ xs
unfolding repeat
pick-all [] = refl
pick-all (x ∷ xs) = ap (λ l. x ∷ l) (pick-all xs)

pub length-map : {V W : Type 0} (f : V → W) (xs : List V) → length (map f xs) ≡ length xs
length-map f [] = refl
length-map f (x ∷ xs) = ap suc (length-map f xs)
