-- ===== src/Base/Texts.antt =====
-- Texts: the order of Go's strings, membership in a list of texts, joining and splitting.
use Prim.Native.Char.{Char, code}
use Prim.Native.String.{String}
use mathlib.Core.Path.{◌≡◌, refl}
use mathlib.Core.Bool.{Bool, true, false, ◌||◌}
use mathlib.Core.List.{List, [], ◌∷◌, ◌++◌}
use native.Mathlib.Omega.{arith}
use text.Mathlib.Text.{◌==◌ as text_eq}
use text.Mathlib.TextEquality.{Char-path}
use warmrunners.Base.Tests.{ltb, nat_eq, if◌then◌else◌}

infix 50 ◌==◌
abbrev pub ◌==◌ : String → String → Bool
s == t = text_eq s t

-- `a < b` on Go strings: bytewise, which on UTF-8 is the order of the code points.
unfoldable pub str_lt : String → String → Bool
str_lt s String.[] = false
str_lt String.[] (String.◌∷◌ d t) = true
str_lt (String.◌∷◌ c s) (String.◌∷◌ d t) =
    if ltb (code c) (code d) then true else if nat_eq (code c) (code d) then str_lt s t else false

pub str_lt_irrefl : (s : String) → str_lt s s ≡ false
unfolding str_lt
str_lt_irrefl String.[] = refl
str_lt_irrefl (String.◌∷◌ c s) = ground (arith, str_lt_irrefl s)

pub str_lt_trans : (s t u : String) → str_lt s t ≡ true → str_lt t u ≡ true → str_lt s u ≡ true
unfolding str_lt
str_lt_trans s t String.[] h k = ground arith
str_lt_trans s String.[] (String.◌∷◌ e u) h k = ground arith
str_lt_trans String.[] (String.◌∷◌ d t) (String.◌∷◌ e u) h k = refl
str_lt_trans (String.◌∷◌ c s) (String.◌∷◌ d t) (String.◌∷◌ e u) h k =
    ground (arith, str_lt_trans s t u)

cons_eq : {c d : Char} {s t : String} → code c ≡ code d → s ≡ t → String.◌∷◌ c s ≡ String.◌∷◌ d t
cons_eq {c} {d} h k = cc (Char-path c d h, k)

pub str_lt_total : (s t : String) → str_lt s t ≡ false → str_lt t s ≡ false → s ≡ t
unfolding str_lt
str_lt_total String.[] String.[] h k = refl
str_lt_total String.[] (String.◌∷◌ d t) h k = cc
str_lt_total (String.◌∷◌ c s) String.[] h k = cc
str_lt_total (String.◌∷◌ c s) (String.◌∷◌ d t) h k =
    cons_eq (ground arith) (str_lt_total s t (ground arith) (ground arith))

pub str_lt_asym : (s t : String) → str_lt s t ≡ true → str_lt t s ≡ false
unfolding str_lt
str_lt_asym s String.[] h = cc
str_lt_asym String.[] (String.◌∷◌ d t) h = refl
str_lt_asym (String.◌∷◌ c s) (String.◌∷◌ d t) h = ground (arith, str_lt_asym s t)

pub str_lt_cotrans : (s t u : String) → str_lt s t ≡ false → str_lt t u ≡ false → str_lt s u ≡ false
unfolding str_lt
str_lt_cotrans s t String.[] h k = refl
str_lt_cotrans s String.[] (String.◌∷◌ e u) h k = cc
str_lt_cotrans String.[] (String.◌∷◌ d t) (String.◌∷◌ e u) h k = cc
str_lt_cotrans (String.◌∷◌ c s) (String.◌∷◌ d t) (String.◌∷◌ e u) h k =
    ground (arith, str_lt_cotrans s t u)

-- `x ∈ xs`, as a test; a Go `map[string]struct{}` is the list of its keys.
unfoldable pub contains : List String → String → Bool
contains [] x = false
contains (y ∷ ys) x = y == x || contains ys x

pub contains-append :
    (xs ys : List String) (x : String) → contains (xs ++ ys) x ≡ contains xs x || contains ys x
unfolding contains
contains-append [] ys x = refl
contains-append (y ∷ xs) ys x = ground (arith, contains-append xs ys x)
