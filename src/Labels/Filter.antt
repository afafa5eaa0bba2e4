-- ===== src/Labels/Filter.antt =====
-- The label filters, and why the reactive and the predictive signal attribute alike.
use warmrunners.Base.{
  String, ◌≡◌, refl, sym, ◌∙◌, ◌↔◌, true, List, [], ◌∷◌, arith, eq_iff, eq_refl, contains,
}
use warmrunners.Labels.{has_all, labels_superset, labels_match, label_set_key, split_label_set_key}
use warmrunners.Labels.RoundTrip.{AreProper, contains-split_label_set_key}

-- Every label of `want` is in `have`.
abbrev pub Includes : List String → List String → Type 0
Includes have want = (l : String) → contains want l ≡ true → contains have l ≡ true

has_all-Includes : (have want : List String) → has_all have want ≡ true → Includes have want
unfolding has_all contains
has_all-Includes have [] h l k = cc
has_all-Includes have (w ∷ want) h l k = ground (arith, eq_iff w l, has_all-Includes have want _ l)

Includes-has_all : (have want : List String) → Includes have want → has_all have want ≡ true
unfolding has_all contains
Includes-has_all have [] h = refl
Includes-has_all have (w ∷ want) h =
    rw (h w (ground (arith, eq_refl w))) (Includes-has_all have want (λ l k. h l (ground arith)))

labels_superset-eq-has_all :
    (have want : List String) → labels_superset have want ≡ has_all have want
unfolding labels_superset has_all
labels_superset-eq-has_all have [] = refl
labels_superset-eq-has_all have (w ∷ want) = refl

labels_match-eq-has_all : (have want : List String) → labels_match have want ≡ has_all have want
unfolding labels_match has_all
labels_match-eq-has_all have [] = refl
labels_match-eq-has_all have (w ∷ want) = refl

-- The filter passes exactly when every wanted label is present; no wanted label passes always.
pub labels_superset_iff :
    (have want : List String) → (labels_superset have want ≡ true) ↔ Includes have want
labels_superset_iff have want = (
  λ h. has_all-Includes have want (sym (labels_superset-eq-has_all have want) ∙ h),
  λ h. labels_superset-eq-has_all have want ∙ Includes-has_all have want h,
)

has_all-congr :
    (have have' want : List String)
    → ((l : String) → contains have l ≡ contains have' l)
    → has_all have want ≡ has_all have' want
unfolding has_all
has_all-congr have have' [] h = refl
has_all-congr have have' (w ∷ want) h = ground (arith, h w, has_all-congr have have' want h)

-- A predicted job with proper labels is attributed, through its key, to the very policies to which
-- the demand poller attributes a queued job with those labels.
pub attribution_agrees :
    (labels want : List String)
    → AreProper labels
    → labels_superset (split_label_set_key (label_set_key labels)) want ≡ labels_match labels want
attribution_agrees labels want p =
    labels_superset-eq-has_all (split_label_set_key (label_set_key labels)) want
    ∙ has_all-congr (split_label_set_key (label_set_key labels)) labels want
        (λ l. contains-split_label_set_key labels l p)
    ∙ sym (labels_match-eq-has_all labels want)
