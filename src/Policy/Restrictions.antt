-- ===== src/Policy/Restrictions.antt =====
-- The restrictions of a layer that the merge keeps: row filters and sampling caps.
use holonomy_source.Common.{
  ℕ, ◌≤◌, String, ◌≡◌, inl, inr, Option, none, some, arith, Has, Has-append_left, Has-append_right,
  Option-cases, ◌∙◌,
}
use holonomy_source.Common.Dict.{Distinct, get}
use holonomy_source.Policy.{PrincipalPolicy, PolicyManifest, merge_cap, merge_principal, merge}
use holonomy_source.Policy.Merge.{policy_of, get-merge}

-- The smaller of two caps is a cap that both allow.
abbrev pub CapLe : Option ℕ → Option ℕ → Type 0
CapLe m none = Unit
CapLe none (some b) = ⊥
CapLe (some a) (some b) = a ≤ b

-- `m` restricts a principal at least as much as `p`: it has all of its row filters, and its cap.
pub record Restricts (m p : PrincipalPolicy) : Type 0 where
  pub globals : (f : String) → Has f p.global_row_filters → Has f m.global_row_filters
  pub selectives : (f : String) → Has f p.selective_row_filters → Has f m.selective_row_filters
  pub cap : CapLe m.sampling_cap p.sampling_cap

CapLe-refl : (a : Option ℕ) → CapLe a a
CapLe-refl none = tt
CapLe-refl (some a) = omega arith

CapLe-trans : (a b c : Option ℕ) → CapLe a b → CapLe b c → CapLe a c
CapLe-trans a b none h k = tt
CapLe-trans none none (some c) h k = k
CapLe-trans none (some b) (some c) h k = h
CapLe-trans (some a) none (some c) h k = elim k [ ]
CapLe-trans (some a) (some b) (some c) h k = omega arith

merge_cap-CapLe : (a b : Option ℕ) → CapLe (merge_cap a b) a × CapLe (merge_cap a b) b
unfolding merge_cap
merge_cap-CapLe none none = (tt, tt)
merge_cap-CapLe none (some b) = (tt, omega arith)
merge_cap-CapLe (some a) none = (omega arith, tt)
merge_cap-CapLe (some a) (some b) = ground arith

pub Restricts-refl : (p : PrincipalPolicy) → Restricts p p
Restricts-refl p = record {
  globals = λ f h. h;
  selectives = λ f h. h;
  cap = CapLe-refl p.sampling_cap;
}

pub Restricts-trans : {m n p : PrincipalPolicy} → Restricts m n → Restricts n p → Restricts m p
Restricts-trans {m} {n} {p} h k = record {
  globals = λ f x. h.globals f (k.globals f x);
  selectives = λ f x. h.selectives f (k.selectives f x);
  cap = CapLe-trans m.sampling_cap n.sampling_cap p.sampling_cap h.cap k.cap;
}

merge_principal-Restricts :
    (a b : PrincipalPolicy) → Restricts (merge_principal a b) a × Restricts (merge_principal a b) b
unfolding merge_principal
merge_principal-Restricts a b =
    let (ca, cb) = merge_cap-CapLe a.sampling_cap b.sampling_cap in
    (
      record {
        globals = λ f h. Has-append_left f a.global_row_filters b.global_row_filters h;
        selectives = λ f h. Has-append_left f a.selective_row_filters b.selective_row_filters h;
        cap = ca;
      },
      record {
        globals = λ f h. Has-append_right f a.global_row_filters b.global_row_filters h;
        selectives = λ f h. Has-append_right f a.selective_row_filters b.selective_row_filters h;
        cap = cb;
      },
    )

-- The policy of a principal under a manifest restricts at least as `p` does.
abbrev pub Enforces : String → PolicyManifest → PrincipalPolicy → Type 0
Enforces q m p = (p' : PrincipalPolicy) × (get q m.principals ≡ some p') × Restricts p' p

pub merge-Enforces_left :
    (q : String) (a b : PolicyManifest) (p : PrincipalPolicy)
    → Distinct b.principals
    → Enforces q a p
    → Enforces q (merge a b) p
merge-Enforces_left q a b p d (p', at_a, r) = elim (Option-cases (get q b.principals)) [
  | inl no_b ↦ (p', get-merge q a b d ∙ ground (arith, at_a, no_b), r)
  | inr (o, at_b) ↦ (
    merge_principal p' o,
    get-merge q a b d ∙ ground (arith, at_a, at_b),
    Restricts-trans (merge_principal-Restricts p' o).0 r,
  )
]

pub merge-Enforces_right :
    (q : String) (a b : PolicyManifest) (p : PrincipalPolicy)
    → Distinct b.principals
    → get q b.principals ≡ some p
    → Enforces q (merge a b) p
merge-Enforces_right q a b p d at_b = (
  merge_principal (policy_of (get q a.principals)) p,
  get-merge q a b d ∙ ground (arith, at_b),
  (merge_principal-Restricts (policy_of (get q a.principals)) p).1,
)
