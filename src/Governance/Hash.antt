-- ===== src/Governance/Hash.antt =====
-- holonomy-core/src/governance/simd_ops.rs, `compute_salted_hash_into`: the salted hash of a value, in
-- hex. SHA-256 is the parameter `sha256`, on bytes.
use Prim.Native.String.{len, find, slice}
use text.Mathlib.TextPositions.{len-append, slice-append_left, slice-append_right}
use holonomy_source.Common.{
  ℕ, zero, suc, refl, ap, sym, ◌∙◌, ◌≡◌, ◌<◌, inl, inr, Bool, true, ◌&&◌, ◌==◌, Bool-cases, arith,
  All, subst, ◌≢◌, ◌↔◌, ◌+◌, ◌/◌, ◌%◌, String, List, [], ◌∷◌, ◌++◌, as_bytes, ◌<>◌,
}

abbrev pub hex_alphabet : String
hex_alphabet = "0123456789abcdef"

abbrev pub hex_digit : ℕ → String
hex_digit n = slice hex_alphabet n (n + 1)

-- The loop over the digest: the high half of a byte, then the low one.
unfoldable pub hex : List ℕ → String
hex [] = ""
hex (byte ∷ bytes) = hex_digit (byte / 16) <> (hex_digit (byte % 16) <> hex bytes)

-- `compute_salted_hash_into`.
unfoldable pub compute_salted_hash_into : (List ℕ → List ℕ) → String → String → String
compute_salted_hash_into sha256 salt val = hex (sha256 (as_bytes salt ++ as_bytes val))

-- Does the test hold of every number below a bound?
abbrev all_below : (ℕ → Bool) → ℕ → Bool
all_below test zero = true
all_below test (suc n) = test n && all_below test n

all_below-at : (test : ℕ → Bool) (n k : ℕ) → all_below test n ≡ true → k < n → test k ≡ true
all_below-at test zero k all h = ground arith
all_below-at test (suc n) k all h = elim (Bool-cases (k == n)) [
  | inl same ↦ let e : n ≡ k = ground arith in rw (← e) (ground arith)
  | inr differs ↦ all_below-at test n k (ground arith) (ground arith)
]

-- A digit is one character, and the alphabet has it at its number.
abbrev is_digit : ℕ → Bool
is_digit n = (find hex_alphabet (hex_digit n) == n) && (len (hex_digit n) == 1)

hex_digit-len : (n : ℕ) → n < 16 → len (hex_digit n) ≡ 1
hex_digit-len n h = let d = all_below-at is_digit 16 n refl h in ground arith

hex_digit-injective : (m n : ℕ) → m < 16 → n < 16 → hex_digit m ≡ hex_digit n → m ≡ n
hex_digit-injective m n hm hn e =
    let dm = all_below-at is_digit 16 m refl hm in
    let dn = all_below-at is_digit 16 n refl hn in
    let f : find hex_alphabet (hex_digit m) ≡ find hex_alphabet (hex_digit n) =
      ap (find hex_alphabet) e in
    ground arith

abbrev pub AllBytes : List ℕ → Type 0
AllBytes = All (λ byte. byte < 256)

-- The first character of a text, and the text behind it.
head-digit : (d r : String) → len d ≡ 1 → slice (d <> r) 0 1 ≡ d
head-digit d r one = subst (λ n. slice (d <> r) 0 n ≡ d) one (slice-append_left d r)

strip-digit : (d r : String) → len d ≡ 1 → slice (d <> r) 1 (len (d <> r)) ≡ r
strip-digit d r one =
    subst (λ n. slice (d <> r) n (len (d <> r)) ≡ r) one
      (subst (λ n. slice (d <> r) (len d) n ≡ r) (sym (len-append d r)) (slice-append_right d r))

-- Texts that begin with one character each agree in it and in what is behind it.
cons-digit-injective :
    (c d r t : String) → len c ≡ 1 → len d ≡ 1 → c <> r ≡ d <> t → (c ≡ d) × (r ≡ t)
cons-digit-injective c d r t hc hd e = (
  sym (head-digit c r hc) ∙ ap (λ s. slice s 0 1) e ∙ head-digit d t hd,
  sym (strip-digit c r hc) ∙ ap (λ s. slice s 1 (len s)) e ∙ strip-digit d t hd,
)

hex_digit-not_nil : (n : ℕ) (r : String) → n < 16 → len (hex_digit n <> r) ≢ 0
hex_digit-not_nil n r h e =
    let one = hex_digit-len n h in
    let sum = len-append (hex_digit n) r in omega (arith, one, sum, e)

halves-injective : (x y : ℕ) → x / 16 ≡ y / 16 → x % 16 ≡ y % 16 → x ≡ y
halves-injective x y h l = omega (arith, h, l)

-- The hex text of bytes determines them.
pub hex-injective : (xs ys : List ℕ) → AllBytes xs → AllBytes ys → hex xs ≡ hex ys → xs ≡ ys
unfolding hex
hex-injective [] [] hx hy e = refl
hex-injective [] (y ∷ ys) hx (by, hy) e =
    absurd (hex_digit-not_nil (y / 16) _ (omega (arith, by)) (ap len (sym e)))
hex-injective (x ∷ xs) [] (bx, hx) hy e =
    absurd (hex_digit-not_nil (x / 16) _ (omega (arith, bx)) (ap len e))
hex-injective (x ∷ xs) (y ∷ ys) (bx, hx) (by, hy) e =
    let (high, e1) =
      cons-digit-injective (hex_digit (x / 16)) (hex_digit (y / 16)) _ _
        (hex_digit-len (x / 16) (omega (arith, bx))) (hex_digit-len (y / 16) (omega (arith, by)))
        e in
    let (low, e2) =
      cons-digit-injective (hex_digit (x % 16)) (hex_digit (y % 16)) _ _
        (hex_digit-len (x % 16) (omega arith)) (hex_digit-len (y % 16) (omega arith)) e1 in
    let rest = hex-injective xs ys hx hy e2 in
    let same =
      halves-injective x y
        (hex_digit-injective (x / 16) (y / 16) (omega (arith, bx)) (omega (arith, by)) high)
        (hex_digit-injective (x % 16) (y % 16) (omega arith) (omega arith) low) in
    rw (same, rest) refl

-- Where the digest is bytes, two values have the same masked text exactly when the digests of the
-- salted values are the same.
pub compute_salted_hash_into-injective :
    (sha256 : List ℕ → List ℕ) (salt u v : String)
    → ((bs : List ℕ) → AllBytes (sha256 bs))
    → (compute_salted_hash_into sha256 salt u ≡ compute_salted_hash_into sha256 salt v)
      ↔ (sha256 (as_bytes salt ++ as_bytes u) ≡ sha256 (as_bytes salt ++ as_bytes v))
unfolding compute_salted_hash_into
compute_salted_hash_into-injective sha256 salt u v bytes =
    (hex-injective _ _ (bytes _) (bytes _), λ e. ap hex e)
