-- ===== src/Adapter.antt =====
-- The runner backends: internal/adapter/adapter.go, arc_adapter.go and garm_adapter.go, over the
-- Kubernetes client and apimachinery's access to unstructured objects, which are parameters.
pub mod Laws
pub mod Memory
use Prim.Native.String.{◌++◌ as str_append}
use warmrunners.Base.{
  String, Option, none, some, List, [], ◌∷◌, ℤ, pos, to_i32, Result, ok, err, ◌>>=◌,
}
use warmrunners.Policy.{Ref}

-- `schema.GroupVersionKind`
pub record Gvk : Type 0 where
  pub group : String
  pub version : String
  pub kind : String

unfoldable pub arc_gvk : Gvk
arc_gvk = record {
  group = "actions.github.com";
  version = "v1alpha1";
  kind = "AutoscalingRunnerSet";
}

unfoldable pub garm_gvk : Gvk
garm_gvk = record { group = "garm-operator.mercedes-benz.com"; version = "v1beta1"; kind = "Pool" }

-- What the adapters call: `client.Get` and `client.Update`, and `NestedInt64` and `SetNestedField` of
-- `unstructured`. A cluster is what the API server holds.
pub record Client : Type 1 where
  pub Cluster : Type 0
  pub Object : Type 0
  pub get : Cluster → Gvk → Ref → Result Object
  pub update : Cluster → Gvk → Object → Result Cluster
  pub nested_int64 : Object → List String → Result (Option ℤ)
  pub set_nested_field : Object → ℤ → List String → Result Object

-- `Adapter`: a floor, its setter, and the cap, which may be unset.
pub record Adapter (Cluster : Type 0) : Type 0 where
  pub get_floor : Cluster → Ref → Result ℤ
  pub set_floor : Cluster → Ref → ℤ → Result Cluster
  pub get_max : Cluster → Ref → Result (Option ℤ)

-- `fmt.Errorf(label + ": %w", err)`
unfoldable pub wrap_error {ℓ} : {A : Type ℓ} → String → Result A → Result A
wrap_error label (ok a) = ok a
wrap_error label (err e) = err (str_append label (str_append ": " e))

-- `v, found` of `NestedInt64`, as the floor.
unfoldable pub floor_of : Option ℤ → ℤ
floor_of none = pos 0
floor_of (some v) = to_i32 v

unfoldable pub max_of : Option ℤ → Option ℤ
max_of none = none
max_of (some v) = some (to_i32 v)

module _ (c : Client) where
  open c use {Cluster, get, update, nested_int64, set_nested_field}

  unfoldable pub arc_get_floor : Cluster → Ref → Result ℤ
  arc_get_floor w ref = do
    u ← get w arc_gvk ref
    v ← wrap_error "spec.minRunners" (nested_int64 u ("spec" ∷ "minRunners" ∷ []))
    ok (floor_of v)

  unfoldable pub arc_get_max : Cluster → Ref → Result (Option ℤ)
  arc_get_max w ref = do
    u ← get w arc_gvk ref
    v ← wrap_error "spec.maxRunners" (nested_int64 u ("spec" ∷ "maxRunners" ∷ []))
    ok (max_of v)

  unfoldable pub arc_set_floor : Cluster → Ref → ℤ → Result Cluster
  arc_set_floor w ref floor = do
    u ← get w arc_gvk ref
    u' ← set_nested_field u floor ("spec" ∷ "minRunners" ∷ [])
    update w arc_gvk u'

  unfoldable pub garm_get_floor : Cluster → Ref → Result ℤ
  garm_get_floor w ref = do
    u ← get w garm_gvk ref
    v ← wrap_error "spec.minIdleRunners" (nested_int64 u ("spec" ∷ "minIdleRunners" ∷ []))
    ok (floor_of v)

  unfoldable pub garm_get_max : Cluster → Ref → Result (Option ℤ)
  garm_get_max w ref = do
    u ← get w garm_gvk ref
    v ← nested_int64 u ("spec" ∷ "maxRunners" ∷ [])
    ok (max_of v)

  unfoldable pub garm_set_floor : Cluster → Ref → ℤ → Result Cluster
  garm_set_floor w ref floor = do
    u ← get w garm_gvk ref
    u' ← set_nested_field u floor ("spec" ∷ "minIdleRunners" ∷ [])
    update w garm_gvk u'

  -- `NewArcAdapter`
  unfoldable pub arc_adapter : Adapter Cluster
  arc_adapter = record {
    get_floor = arc_get_floor;
    set_floor = arc_set_floor;
    get_max = arc_get_max;
  }

  -- `NewGarmAdapter`
  unfoldable pub garm_adapter : Adapter Cluster
  garm_adapter = record {
    get_floor = garm_get_floor;
    set_floor = garm_set_floor;
    get_max = garm_get_max;
  }
