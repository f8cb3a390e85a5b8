-- ===== src/Governance/Masks.antt =====
-- The masks that a role has for a column, and the one that is applied.
use Prim.Native.Nat.{Ordering}
use Prim.Native.String.{compare}
use mathlib.Core.Option
use holonomy_source.Common.{
  ℕ, zero, suc, ap, String, ◌≡◌, refl, sym, subst, ◌≢◌, ◌⊎◌, inl, inr, Bool, true, false, ◌&&◌,
  ◌||◌, Option, none, some, List, [], ◌∷◌, arith, length, get_elem?, member, member→Has, Has,
  str_eq, eq_iff, Bool-cases, Option-cases, if◌then◌else◌,
}
use holonomy_source.Common.Dict.{Dict, get}
use holonomy_source.Auth.{set_insert}
use holonomy_source.Auth.Principals.{member-set_insert}
use holonomy_source.Policy.{PrincipalPolicy}
use holonomy_source.Governance.{
  key_matches, column_mask_set, tag_mask_set, or_unlisted, role_masks, greatest, target_mask,
  mask_values,
}

Ordering-cases : (o : Ordering) → (o ≡ Ordering.lt) ⊎ (o ≢ Ordering.lt)
Ordering-cases Ordering.lt = inl refl
Ordering-cases Ordering.eq = inr (λ e. cc)
Ordering-cases Ordering.gt = inr (λ e. cc)

-- Is there an entry with the mask whose key matches the column?
abbrev pub column_grants : (String → String → Bool) → String → String → Dict String → Bool
column_grants matches column mask [] = false
column_grants matches column mask ((k, m) ∷ d) =
    (matches column k && str_eq m mask) || column_grants matches column mask d

-- Has one of the tags the mask?
abbrev pub tag_grants : String → List String → Dict String → Bool
tag_grants mask [] d = false
tag_grants mask (t ∷ ts) d =
    elim (get t d) [ none ↦ false | some m ↦ str_eq m mask ] || tag_grants mask ts d

member-tag_mask_set :
    (mask : String) (tags : List String) (d : Dict String) (masks : List String)
    → member mask (tag_mask_set tags d masks) ≡ (member mask masks || tag_grants mask tags d)
unfolding tag_mask_set
member-tag_mask_set mask [] d masks = ground arith
member-tag_mask_set mask (t ∷ ts) d masks = elim (Option-cases (get t d)) [
  | inl missing ↦ ground (arith, missing, member-tag_mask_set mask ts d masks)
  | inr (m, found) ↦ ground (
    arith,
    found,
    member-tag_mask_set mask ts d (set_insert m masks),
    member-set_insert mask m masks,
  )
]

module _ (lower : String → String) where
  member-column_mask_set :
      (mask column : String) (d : Dict String) (masks : List String)
      → member mask (column_mask_set lower column d masks)
        ≡ (member mask masks || column_grants (key_matches lower) column mask d)
  unfolding column_mask_set
  member-column_mask_set mask column [] masks = ground arith
  member-column_mask_set mask column ((k, m) ∷ d) masks = ground (
    arith,
    member-column_mask_set mask column d
        (if key_matches lower column k then set_insert m masks else masks),
    member-set_insert mask m masks,
  )

  -- Does the role have the mask for the column, by a key that matches the name or by a tag?
  unfoldable pub has_mask : PrincipalPolicy → String → List String → String → Bool
  has_mask policy column tags mask =
      column_grants (key_matches lower) column mask policy.column_masks
      || tag_grants mask tags policy.tag_masks

  -- A mask other than "UNLISTED" is in the set exactly when the role has it, by name or by tag.
  pub member-role_masks :
      (policy : PrincipalPolicy) (column : String) (tags : List String) (mask : String)
      → mask ≢ "UNLISTED"
      → member mask (role_masks lower policy column tags) ≡ has_mask policy column tags mask
  unfolding role_masks or_unlisted has_mask
  member-role_masks policy column tags mask h = ground (
    arith,
    eq_iff "UNLISTED" mask,
    member-tag_mask_set mask tags policy.tag_masks
        (column_mask_set lower column policy.column_masks []),
    member-column_mask_set mask column policy.column_masks [],
  )

  -- Where the role has some mask, the set is exactly the masks that it has.
  pub member-role_masks_found :
      (policy : PrincipalPolicy) (column : String) (tags : List String) (word mask : String)
      → has_mask policy column tags word ≡ true
      → member mask (role_masks lower policy column tags) ≡ has_mask policy column tags mask
  unfolding role_masks or_unlisted has_mask
  member-role_masks_found policy column tags word mask h = ground (
    arith,
    member-tag_mask_set word tags policy.tag_masks
        (column_mask_set lower column policy.column_masks []),
    member-column_mask_set word column policy.column_masks [],
    member-tag_mask_set mask tags policy.tag_masks
        (column_mask_set lower column policy.column_masks []),
    member-column_mask_set mask column policy.column_masks [],
  )

  -- With no mask at all the set is "UNLISTED" alone.
  pub role_masks-unlisted :
      (policy : PrincipalPolicy) (column : String) (tags : List String)
      → ((mask : String) → has_mask policy column tags mask ≡ false)
      → role_masks lower policy column tags ≡ "UNLISTED" ∷ []
  unfolding role_masks or_unlisted has_mask
  role_masks-unlisted policy column tags h =
      go (tag_mask_set tags policy.tag_masks (column_mask_set lower column policy.column_masks []))
        refl
    where
      go :
          (set : List String)
          → tag_mask_set tags policy.tag_masks (column_mask_set lower column policy.column_masks [])
            ≡ set
          → or_unlisted set ≡ "UNLISTED" ∷ []
      go [] e = refl
      go (m ∷ ms) e = absurd (
          ground (
            arith,
            h m,
            e,
            eq_iff m m,
            member-tag_mask_set m tags policy.tag_masks
                (column_mask_set lower column policy.column_masks []),
            member-column_mask_set m column policy.column_masks [],
          ))

greatest-Has :
    (x : String) (xs : List String) → (m : String) × (greatest (x ∷ xs) ≡ some m) × Has m (x ∷ xs)
unfolding greatest
greatest-Has x [] = (x, refl, inl refl)
greatest-Has x (y ∷ ys) =
    let (m, e, h) = greatest-Has y ys in
    elim (Ordering-cases (compare x m)) [
      | inl below ↦ (m, rw (e, below), inr h)
      | inr keeps ↦ (x, rw e (ground (arith, keeps)), inl refl)
    ]

Has-of_eq : (s t : String) (masks : List String) → s ≡ t → Has t masks → Has s masks
Has-of_eq s t masks e h = subst (λ u. Has u masks) (sym e) h

-- The mask that is applied is one of the set.
pub target_mask-Has : (x : String) (xs : List String) → Has (target_mask (x ∷ xs)) (x ∷ xs)
unfolding target_mask
target_mask-Has x xs =
    let masks = x ∷ xs in
    let (m, e, h) = greatest-Has x xs in
    elim (Bool-cases (member "HASH" masks)) [
      | inl t ↦ Has-of_eq _ "HASH" masks (ground (arith, t)) (member→Has "HASH" masks t)
      | inr a ↦ elim (Bool-cases (member "REDACT" masks)) [
        | inl t ↦ Has-of_eq _ "REDACT" masks (ground (arith, a, t)) (member→Has "REDACT" masks t)
        | inr b ↦ elim (Bool-cases (member "UNLISTED" masks)) [
          | inl t ↦
              Has-of_eq _ "UNLISTED" masks (ground (arith, a, b, t)) (member→Has "UNLISTED" masks t)
          | inr c ↦ Has-of_eq _ m masks (ground (arith, a, b, c, e)) h
        ]
      ]
    ]

-- The order of the precedence: "HASH", then "REDACT", then "UNLISTED".
pub target_mask-precedence :
    (masks : List String)
    → (member "HASH" masks ≡ true → target_mask masks ≡ "HASH")
      × (member "HASH" masks ≡ false → member "REDACT" masks ≡ true → target_mask masks ≡ "REDACT")
unfolding target_mask
target_mask-precedence masks = ground arith

-- The rows of a masked text array: a null stays null, and a value is masked.
pub get_elem?-mask_values :
    (f : String → String) (vs : List (Option String)) (i : ℕ)
    → get_elem? (mask_values f vs) i ≡ Option.map (Option.map f) (get_elem? vs i)
unfolding mask_values
get_elem?-mask_values f [] i = refl
get_elem?-mask_values f (none ∷ vs) zero = refl
get_elem?-mask_values f (some v ∷ vs) zero = refl
get_elem?-mask_values f (none ∷ vs) (suc i) = get_elem?-mask_values f vs i
get_elem?-mask_values f (some v ∷ vs) (suc i) = get_elem?-mask_values f vs i

pub length-mask_values :
    (f : String → String) (vs : List (Option String)) → length (mask_values f vs) ≡ length vs
unfolding mask_values
length-mask_values f [] = refl
length-mask_values f (none ∷ vs) = ap suc (length-mask_values f vs)
length-mask_values f (some v ∷ vs) = ap suc (length-mask_values f vs)
