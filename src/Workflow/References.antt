-- ===== src/Workflow/References.antt =====
-- `classifyUses`, `resolveMatrixRunsOn` and `singleMatrixRef` of internal/predictor/workflow/parse.go.
use Prim.Native.Char.{code}
use warmrunners.Base.{
  ℕ, String, Bool, false, ◌&&◌, ◌||◌, List, [], ◌∷◌, Option, none, some, lookup, if◌then◌else◌,
  ◌==◌, nat_eq, is_some,
}
use warmrunners.Activity.{has_suffix}
use warmrunners.Demand.Retry.{trim_space}
use warmrunners.Workflow.Combos.{Combo}

-- `strings.HasPrefix` and what follows the prefix.
unfoldable pub cut_prefix : String → String → Option String
cut_prefix String.[] s = some s
cut_prefix (String.◌∷◌ c prefix) String.[] = none
cut_prefix (String.◌∷◌ c prefix) (String.◌∷◌ d s) =
    let rest = cut_prefix prefix s in if nat_eq (code c) (code d) then rest else none

-- `strings.Contains(s, c)` of one character, and `strings.ContainsAny(s, chars)`
unfoldable pub has_char : ℕ → String → Bool
has_char n String.[] = false
has_char n (String.◌∷◌ c s) = nat_eq (code c) n || has_char n s

unfoldable pub contains_any : String → String → Bool
contains_any s String.[] = false
contains_any s (String.◌∷◌ c chars) = has_char (code c) s || contains_any s chars

pub data UsesKind : Type 0 where
  uses_none uses_local uses_remote : UsesKind

unfoldable pub classify_uses : String → UsesKind
unfolding cut_prefix has_char
classify_uses s =
    if s == ""
    then UsesKind.uses_none
    else if is_some (cut_prefix "./" s)
    then UsesKind.uses_local
    else if has_char b'@' s && has_char b'/' s
    then UsesKind.uses_remote
    else UsesKind.uses_none

-- `t[:len(t)-2]`, where the last two characters are known.
unfoldable pub drop_two : String → String
drop_two String.[] = String.[]
drop_two (String.◌∷◌ c String.[]) = String.[]
drop_two (String.◌∷◌ c (String.◌∷◌ d String.[])) = String.[]
drop_two (String.◌∷◌ c (String.◌∷◌ d (String.◌∷◌ e s))) =
    String.◌∷◌ c (drop_two (String.◌∷◌ d (String.◌∷◌ e s)))

-- The name behind `matrix.`, where it is a single reference.
unfoldable pub matrix_key : String → Option String
matrix_key inner = elim (cut_prefix "matrix." inner) [
  | none ↦ none
  | some key ↦ if key == "" || contains_any key " \t().${}" then none else some key
]

unfoldable pub single_matrix_ref : String → Option String
unfolding matrix_key
single_matrix_ref s =
    let t = trim_space s in
    elim (cut_prefix "${{" t) [
      | none ↦ none
      | some rest ↦ if has_suffix t "}}" then matrix_key (trim_space (drop_two rest)) else none
    ]

unfoldable pub resolve_matrix_runs_on : String → List Combo → Option (List String)
resolve_matrix_runs_on expr combos = elim (single_matrix_ref expr) [
  | none ↦ none
  | some key ↦ elim combos [
    | [] ↦ none
    | c ∷ rest ↦ elim (lookup key c) [ none ↦ none | some v ↦ some (v ∷ []) ]
  ]
]
