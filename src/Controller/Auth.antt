-- ===== src/Controller/Auth.antt =====
-- The GitHub token: `resolveAuthToken`, `predictorToken` and `demandSource`.
use Prim.Native.String.{◌++◌ as str_append}
use warmrunners.Base.{
  String, ◌||◌, Option, none, some, Result, ok, err, lookup, ◌==◌, if◌then◌else◌,
}
use warmrunners.Policy.{Policy}
use warmrunners.Controller.{Source, Reconciler, World}

module _ {Cluster : Type 0} (world : World Cluster) where
  -- The token under a key of the data: an absent and an empty one are errors.
  unfoldable pub token_of : String → Option String → Result String
  token_of missing none = err missing
  token_of missing (some token) = if token == "" then err missing else ok token

  unfoldable pub resolve_auth_token : Policy → Result String
  unfolding token_of
  resolve_auth_token pol =
      let sel = pol.spec.github.auth in
      if sel.name == "" || sel.key == ""
      then err "github auth secretRef is incomplete"
      else elim (world.get_secret pol.namespace sel.name) [
        | err e ↦ err (str_append "resolving auth secret: " e)
        | ok secret ↦ token_of "auth secret missing key" (lookup sel.key secret)
      ]

  unfoldable pub predictor_token : Reconciler Cluster → Policy → Result String
  predictor_token r pol = elim r.demand [
    | none ↦ resolve_auth_token pol
    | some _ ↦ elim (resolve_auth_token pol) [ err e ↦ ok "" | ok tok ↦ ok tok ]
  ]

  unfoldable pub demand_source : Reconciler Cluster → Policy → Result Source
  demand_source r pol = elim r.demand [
    | some source ↦ ok source
    | none ↦ elim (resolve_auth_token pol) [
      | err e ↦ err e
      | ok token ↦ ok (world.new_poller token)
    ]
  ]
