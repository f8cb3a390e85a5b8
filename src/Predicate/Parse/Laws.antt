-- ===== src/Predicate/Parse/Laws.antt =====
-- holonomy-core/src/ingestion/s3_client.rs: which filters `parse_filter` ignores.
use Prim.Native.String.{len, slice}
use holonomy_source.Common.{
  ℕ, ◌+◌, String, ◌≡◌, ◌≢◌, ◌↔◌, inl, inr, none, List, [], ◌∷◌, arith, All, Option-cases, find_at,
  trim,
}
use holonomy_source.Predicate.{PredicateValue}
use holonomy_source.Predicate.Parse.{
  Outcome, panics, returns, value_of, of_op, parse_at, parse_with, operators, parse_filter,
}

parse_at-ne-none :
    (op filter : String) (idx : ℕ)
    → ((col : String) (val : PredicateValue) → of_op op col val ≢ none)
    → parse_at filter op idx ≢ returns none
unfolding parse_at
parse_at-ne-none op filter idx known =
    go (value_of (trim (slice filter (idx + len op) (len filter))))
  where
    go :
        (o : Outcome PredicateValue)
        → elim o [
          | panics ↦ panics
          | returns val ↦ returns (of_op op (trim (slice filter 0 idx)) val)
        ]
          ≢ returns none
    go panics h = cc
    go (returns val) h = known (trim (slice filter 0 idx)) val (cc h)

parse_with-eq-none :
    (op : String) (ops : List String) (filter : String)
    → ((col : String) (val : PredicateValue) → of_op op col val ≢ none)
    → parse_with (op ∷ ops) filter ≡ returns none
    → (find_at filter op ≡ none) × (parse_with ops filter ≡ returns none)
unfolding parse_with
parse_with-eq-none op ops filter known h = elim (Option-cases (find_at filter op)) [
  | inl e ↦ (e, ground (arith, e))
  | inr (idx, e) ↦ absurd (parse_at-ne-none op filter idx known (ground (arith, e)))
]

-- A row filter is ignored exactly when it contains none of the five operators.
pub parse_filter-eq-none_iff :
    (filter : String)
    → (parse_filter filter ≡ returns none) ↔ All (λ op. find_at filter op ≡ none) operators
unfolding parse_filter of_op
parse_filter-eq-none_iff filter = (to, from)
  where
    to : parse_filter filter ≡ returns none → All (λ op. find_at filter op ≡ none) operators
    to h =
        let (a, h1) =
          parse_with-eq-none "==" ("!=" ∷ "=" ∷ ">" ∷ "<" ∷ []) filter (λ c v e. cc) h in
        let (b, h2) = parse_with-eq-none "!=" ("=" ∷ ">" ∷ "<" ∷ []) filter (λ c v e. cc) h1 in
        let (c, h3) = parse_with-eq-none "=" (">" ∷ "<" ∷ []) filter (λ c v e. cc) h2 in
        let (d, h4) = parse_with-eq-none ">" ("<" ∷ []) filter (λ c v e. cc) h3 in
        let (e, h5) = parse_with-eq-none "<" [] filter (λ c v e. cc) h4 in
        (a, (b, (c, (d, (e, tt)))))

    from : All (λ op. find_at filter op ≡ none) operators → parse_filter filter ≡ returns none
    from (a, (b, (c, (d, (e, u))))) = ground (arith, a, b, c, d, e)
