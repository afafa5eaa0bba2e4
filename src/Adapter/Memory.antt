-- ===== src/Adapter/Memory.antt =====
-- A client over an in-memory cluster of one object, which shows that the laws can be met.
use warmrunners.Base.{
  String, ◌≡◌, refl, sym, ap, Option, none, some, List, [], ◌∷◌, arith, ◌≢◌, Bool, true, false,
  ◌&&◌, ℤ, ok, if◌then◌else◌, ◌==◌, eq_iff, eq_refl,
}
use warmrunners.Adapter.{Client}
use warmrunners.Adapter.Laws.{IsLawful}

abbrev pub Fields : Type 0
Fields = List (List String × ℤ)

abbrev pub path_eq : List String → List String → Bool
path_eq [] [] = true
path_eq [] (q ∷ qs) = false
path_eq (p ∷ ps) [] = false
path_eq (p ∷ ps) (q ∷ qs) = p == q && path_eq ps qs

path_eq_refl : (ps : List String) → path_eq ps ps ≡ true
path_eq_refl [] = refl
path_eq_refl (p ∷ ps) = ground (arith, eq_refl p, path_eq_refl ps)

abbrev pub read_field : Fields → List String → Option ℤ
read_field [] q = none
read_field ((p, v) ∷ fs) q = if path_eq p q then some v else read_field fs q

-- Every reference names the one object.
abbrev pub memory_client : Client
memory_client = record {
  Cluster = Fields;
  Object = Fields;
  get = λ w k ref. ok w;
  update = λ w k o. ok o;
  nested_int64 = λ o p. ok (read_field o p);
  set_nested_field = λ o v p. ok ((p, v) ∷ o);
}

set_read :
    (o o' : Fields) (v : ℤ) (path : List String)
    → ok ((path, v) ∷ o) ≡ ok o'
    → read_field o' path ≡ some v
set_read o o' v path h = let e : ((path, v) ∷ o) ≡ o' = cc in rw (← e) (rw (path_eq_refl path) refl)

set_read_ne :
    (o o' : Fields) (v : ℤ) (parent f g : String)
    → f ≢ g
    → ok ((parent ∷ f ∷ [], v) ∷ o) ≡ ok o'
    → read_field o' (parent ∷ g ∷ []) ≡ read_field o (parent ∷ g ∷ [])
set_read_ne o o' v parent f g ne h =
    let e : ((parent ∷ f ∷ [], v) ∷ o) ≡ o' = cc in rw (← e) (ground (arith, eq_iff f g))

pub memory_client-IsLawful : IsLawful memory_client
memory_client-IsLawful = record {
  nested-set = λ o o' v path h. ap ok (set_read o o' v path h);
  nested-set_ne = λ o o' v parent f g ne h. ap ok (set_read_ne o o' v parent f g ne h);
  get-update = λ w w' k ref o o' v path h i j. (o', sym j, λ p. refl);
}
