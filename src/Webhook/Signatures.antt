-- ===== src/Webhook/Signatures.antt =====
-- Which signatures are accepted.
use Prim.Native.Char.{code}
use Prim.Native.String.{◌++◌ as str_append}
use text.Mathlib.TextEquality.{Char-path}
use text.Mathlib.TextLemmas.{nil-append, cons-append}
use warmrunners.Base.{
  String, ◌≡◌, refl, ap, ◌∙◌, subst, inl, inr, true, false, none, some, [], ◌∷◌, arith, ◌==◌,
  nat_eq, eq_iff, ◌↔◌, Bool-cases, Option-cases,
}
use warmrunners.Webhook.{Bytes}
use warmrunners.Webhook.Verify.{
  hex_decode, bytes_equal, after_prefix, verify_signature, signature_prefix,
}

bytes_equal_iff : (xs ys : Bytes) → (bytes_equal xs ys ≡ true) ↔ (xs ≡ ys)
unfolding bytes_equal
bytes_equal_iff [] [] = (λ h. refl, λ h. refl)
bytes_equal_iff [] (y ∷ ys) = (λ h. cc, λ h. cc)
bytes_equal_iff (x ∷ xs) [] = (λ h. cc, λ h. cc)
bytes_equal_iff (x ∷ xs) (y ∷ ys) =
    (λ h. ground (arith, bytes_equal_iff xs ys), λ h. ground (arith, bytes_equal_iff xs ys))

after_prefix-append : (p s : String) → after_prefix p (str_append p s) ≡ some s
unfolding after_prefix
after_prefix-append String.[] s = rw nil-append refl
after_prefix-append (String.◌∷◌ c p) s = rw cons-append (ground (arith, after_prefix-append p s))

after_prefix-eq-some : (p s rest : String) → after_prefix p s ≡ some rest → s ≡ str_append p rest
unfolding after_prefix
after_prefix-eq-some String.[] s rest h = rw nil-append cc
after_prefix-eq-some (String.◌∷◌ c p) String.[] rest h = absurd cc
after_prefix-eq-some (String.◌∷◌ c p) (String.◌∷◌ d s) rest h =
    elim (Bool-cases (nat_eq (code c) (code d))) [
      | inl same ↦
          rw cons-append
            (cc (Char-path c d (ground arith), after_prefix-eq-some p s rest (ground arith)))
      | inr other ↦ absurd (ground (arith, other, h))
    ]

module _ (mac : Bytes → Bytes → Bytes) (body secret : Bytes) (sig_header : String) where
  accepted_hex :
      verify_signature mac body sig_header secret ≡ none
      → (hex : String) × (sig_header ≡ str_append signature_prefix hex)
        × (hex_decode hex ≡ some (mac secret body))
  unfolding verify_signature
  accepted_hex h = elim (Option-cases (after_prefix signature_prefix sig_header)) [
    | inl absent ↦ absurd (ground (arith, absent, h))
    | inr (hex, there) ↦ elim (Option-cases (hex_decode hex)) [
      | inl odd ↦ absurd (ground (arith, there, odd, h))
      | inr (got, decoded) ↦ (
        hex,
        after_prefix-eq-some signature_prefix sig_header hex there,
        ground (arith, there, decoded, h, bytes_equal_iff got (mac secret body)),
      )
    ]
  ]

  hex_accepted :
      (hex : String)
      → after_prefix signature_prefix sig_header ≡ some hex
      → (sig_header == "") ≡ false
      → hex_decode hex ≡ some (mac secret body)
      → verify_signature mac body sig_header secret ≡ none
  unfolding verify_signature
  hex_accepted hex there given decoded =
      ground (arith, there, given, decoded, bytes_equal_iff (mac secret body) (mac secret body))

empty_prefix : (hex : String) → after_prefix signature_prefix "" ≡ some hex → ⊥
unfolding after_prefix
empty_prefix hex h = cc

prefix-nonempty : (s hex : String) → after_prefix signature_prefix s ≡ some hex → (s == "") ≡ false
prefix-nonempty s hex h = elim (Bool-cases (s == "")) [
  | inr other ↦ other
  | inl same ↦ absurd (
      empty_prefix hex
        (subst (λ t. after_prefix signature_prefix t ≡ some hex) ((eq_iff s "").0 same) h))
]

-- A signature is accepted exactly if it is sha256= and a hexadecimal text of the body's HMAC.
pub verify_signature_iff :
    (mac : Bytes → Bytes → Bytes) (body secret : Bytes) (sig_header : String)
    → (verify_signature mac body sig_header secret ≡ none) ↔ (
        (hex : String) × (sig_header ≡ str_append "sha256=" hex)
        × (hex_decode hex ≡ some (mac secret body)))
verify_signature_iff mac body secret sig_header = (
  accepted_hex mac body secret sig_header,
  λ (hex, given, decoded).
      let there : after_prefix signature_prefix sig_header ≡ some hex =
        ap (after_prefix signature_prefix) given ∙ after_prefix-append signature_prefix hex in
      hex_accepted mac body secret sig_header hex there (prefix-nonempty sig_header hex there)
        decoded,
)
