-- ===== src/Labels.antt =====
-- Label sets: internal/predictor/predictor.go (`LabelSetKey`), and the filters on them of
-- internal/controller/warmrunnerpolicy_controller.go and internal/demand/github_poller.go.
pub mod Canonical
pub mod RoundTrip
pub mod Filter
use Prim.Native.Char.{Char, code}
use Prim.Native.String.{◌++◌ as str_append}
use warmrunners.Base.{
  String, Bool, true, false, ◌&&◌, List, [], ◌∷◌, ◌++◌, if◌then◌else◌, nat_eq, contains, str_lt,
  Option, none, some,
}
use warmrunners.Base.Sort.{sort}

-- The loop of `LabelSetKey`: `seen` is the set, `uniq` the labels in the order they were met.
unfoldable pub uniq_from : List String → List String → List String → List String
uniq_from seen uniq [] = uniq
uniq_from seen uniq (l ∷ labels) = elim (contains seen l) [
  | true ↦ uniq_from seen uniq labels
  | false ↦ uniq_from (l ∷ seen) (uniq ++ l ∷ []) labels
]

-- `strings.Join(labels, ",")`
unfoldable pub join_comma : List String → String
join_comma [] = ""
join_comma (l ∷ []) = l
join_comma (l ∷ m ∷ labels) = str_append l (str_append "," (join_comma (m ∷ labels)))

unfoldable pub label_set_key : List String → String
label_set_key [] = ""
label_set_key (l ∷ labels) = join_comma (sort str_lt (uniq_from [] [] (l ∷ labels)))

abbrev pub is_comma : Char → Bool
is_comma c = nat_eq (code c) b','

-- One more character in front of the first part.
abbrev pub extend_first : Char → List String → List String
extend_first c [] = String.◌∷◌ c String.[] ∷ []
extend_first c (p ∷ parts) = String.◌∷◌ c p ∷ parts

-- `strings.Split(key, ",")`
unfoldable pub split_comma : String → List String
split_comma String.[] = String.[] ∷ []
split_comma (String.◌∷◌ c s) =
    let parts = split_comma s in if is_comma c then String.[] ∷ parts else extend_first c parts

unfoldable pub split_label_set_key : String → List String
split_label_set_key String.[] = []
split_label_set_key (String.◌∷◌ c s) = split_comma (String.◌∷◌ c s)

-- The loop over `want`: every wanted label is in the set.
unfoldable pub has_all : List String → List String → Bool
has_all set [] = true
has_all set (w ∷ want) = if contains set w then has_all set want else false

-- `labelsSuperset(have, want)`
unfoldable pub labels_superset : List String → List String → Bool
labels_superset have [] = true
labels_superset have (w ∷ want) = has_all have (w ∷ want)

-- `labelsMatch(have, want)` of the demand poller, the same code
unfoldable pub labels_match : List String → List String → Bool
labels_match have [] = true
labels_match have (w ∷ want) = has_all have (w ∷ want)
