-- ===== src/Webhook/Verify.antt =====
-- Signatures: internal/webhook/verify.go, with `hex.DecodeString`.
use Prim.Native.Char.{Char, code}
use warmrunners.Base.{
  ℕ, ◌+◌, ◌-◌, ◌*◌, String, Bool, true, false, ◌&&◌, Option, none, some, [], ◌∷◌, if◌then◌else◌,
  ◌==◌, leb, nat_eq,
}
use warmrunners.Webhook.{Bytes}

-- The value of a hexadecimal digit of either case.
unfoldable pub hex_digit : Char → Option ℕ
hex_digit c =
    let n = code c in
    if leb 48 n && leb n 57
    then some (n - 48)
    else if leb 97 n && leb n 102
    then some (n - 87)
    else if leb 65 n && leb n 70
    then some (n - 55)
    else none

-- The byte of two digits, in front of the bytes that follow.
unfoldable pub hex_byte : Option ℕ → Option ℕ → Option Bytes → Option Bytes
hex_byte (some high) (some low) (some bytes) = some ((high * 16 + low) ∷ bytes)
hex_byte (some high) (some low) none = none
hex_byte (some high) none rest = none
hex_byte none low rest = none

-- `hex.DecodeString`; `none` is its error: an odd length or another character.
unfoldable pub hex_decode : String → Option Bytes
hex_decode String.[] = some []
hex_decode (String.◌∷◌ c String.[]) = none
hex_decode (String.◌∷◌ c (String.◌∷◌ d s)) = hex_byte (hex_digit c) (hex_digit d) (hex_decode s)

-- `hmac.Equal`
unfoldable pub bytes_equal : Bytes → Bytes → Bool
bytes_equal [] [] = true
bytes_equal [] (b ∷ ys) = false
bytes_equal (a ∷ xs) [] = false
bytes_equal (a ∷ xs) (b ∷ ys) = nat_eq a b && bytes_equal xs ys

-- `strings.HasPrefix` and `strings.TrimPrefix`: what follows the prefix, where it is there.
unfoldable pub after_prefix : String → String → Option String
after_prefix String.[] s = some s
after_prefix (String.◌∷◌ p ps) String.[] = none
after_prefix (String.◌∷◌ p ps) (String.◌∷◌ c s) =
    if nat_eq (code p) (code c) then after_prefix ps s else none

abbrev pub err_missing_signature : String
err_missing_signature = "webhook: X-Hub-Signature-256 missing"

abbrev pub err_invalid_signature : String
err_invalid_signature = "webhook: X-Hub-Signature-256 invalid"

abbrev pub signature_prefix : String
signature_prefix = "sha256="

-- `VerifySignature`, with the HMAC as its first argument; `none` is the nil error.
unfoldable pub verify_signature : (Bytes → Bytes → Bytes) → Bytes → String → Bytes → Option String
verify_signature mac body sig_header secret =
    if sig_header == ""
    then some err_missing_signature
    else elim (after_prefix signature_prefix sig_header) [
      | none ↦ some err_invalid_signature
      | some hex ↦ elim (hex_decode hex) [
        | none ↦ some err_invalid_signature
        | some got ↦ if bytes_equal got (mac secret body) then none else some err_invalid_signature
      ]
    ]
