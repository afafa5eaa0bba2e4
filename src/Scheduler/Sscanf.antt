-- ===== src/Scheduler/Sscanf.antt =====
-- What `fmt.Sscanf` does with the verbs and the literal of "%d:%d", and `strconv.ParseInt`.
use Prim.Native.Char.{Char, code}
use warmrunners.Base.{
  ℕ, ◌+◌, ◌-◌, ◌*◌, String, Bool, true, false, ◌&&◌, ◌||◌, Option, none, some, if◌then◌else◌, ltb,
  leb, nat_eq, ◌==◌, ℤ, pos, sub_ℕ,
}

-- `isSpace` of package fmt
unfoldable pub is_space : ℕ → Bool
is_space c =
    (leb 9 c && leb c 13)
    || nat_eq c 32
    || nat_eq c 0x85
    || nat_eq c 0xA0
    || nat_eq c 0x1680
    || (leb 0x2000 c && leb c 0x200a)
    || nat_eq c 0x2028
    || nat_eq c 0x2029
    || nat_eq c 0x202f
    || nat_eq c 0x205f
    || nat_eq c 0x3000

-- `SkipSpace`: a newline is an error.
unfoldable pub skip_space : String → Option String
skip_space String.[] = some String.[]
skip_space (String.◌∷◌ c s) =
    let rest = skip_space s in
    if nat_eq (code c) 10 then none else if is_space (code c) then rest else some (String.◌∷◌ c s)

abbrev pub is_digit : Char → Bool
is_digit c = leb b'0' (code c) && leb (code c) b'9'

-- The digits at the front, as a number behind `acc`, and what follows them.
unfoldable pub scan_digits : ℕ → String → ℕ × String
scan_digits acc String.[] = (acc, String.[])
scan_digits acc (String.◌∷◌ c s) =
    let rest = scan_digits (acc * 10 + (code c - 48)) s in
    if is_digit c then rest else (acc, String.◌∷◌ c s)

-- `scanNumber` and `ParseInt`: one digit at least, and a value that fits int64.
unfoldable pub scan_unsigned : Bool → String → Option (ℤ × String)
scan_unsigned negative String.[] = none
scan_unsigned negative (String.◌∷◌ c s) =
    if is_digit c
    then (let (n, rest) = scan_digits 0 (String.◌∷◌ c s) in
        if negative
        then (if leb n 9223372036854775808 then some (sub_ℕ 0 n, rest) else none)
        else if ltb n 9223372036854775808
        then some (pos n, rest)
        else none)
    else none

-- The optional sign.
unfoldable pub scan_signed : String → Option (ℤ × String)
scan_signed String.[] = none
scan_signed (String.◌∷◌ c s) =
    if nat_eq (code c) b'-'
    then scan_unsigned true s
    else if nat_eq (code c) b'+'
    then scan_unsigned false s
    else scan_unsigned false (String.◌∷◌ c s)

-- the verb `%d` into an int
unfoldable pub scan_int : String → Option (ℤ × String)
scan_int s = elim (skip_space s) [ none ↦ none | some rest ↦ scan_signed rest ]

-- the literal ":"
unfoldable pub expect_colon : String → Option String
expect_colon String.[] = none
expect_colon (String.◌∷◌ c s) = if nat_eq (code c) b':' then some s else none

-- `strconv.ParseInt(s, 10, 64)`: a sign, digits, and nothing behind them.
unfoldable pub parse_int : String → Option ℤ
parse_int s = elim (scan_signed s) [
  | none ↦ none
  | some (n, rest) ↦ if rest == "" then some n else none
]
