-- ===== src/Predictor.antt =====
-- internal/predictor/workflow_needs_graph.go: the predictor's types, and its state. `W` is the state
-- of what it calls: the HTTP client, and the fetcher of workflow files behind its interface.
pub mod Listing
pub mod Walk
pub mod Predict
pub mod Coherence
pub mod Runs
pub mod Steps
pub mod Depth
pub mod Keeping
pub mod Reports
pub mod Additions
pub mod Totals
pub mod Outcomes
use warmrunners.Base.{ℕ, String, List, Option, Result, GoMap, ℤ}
use warmrunners.Workflow.{Actionlint}

-- `runRef`
pub record RunRef : Type 0 where
  pub id : ℤ
  pub path : String
  pub head_sha : String

-- The headers of a GET that depend on the call.
pub record Request : Type 0 where
  pub url : String
  pub authorization : Option String
  pub if_none_match : Option String

-- What `Do` returns, with what `io.ReadAll` makes of the body.
pub data Reply : Type 0 where
  failed : String → Reply
  response : (code : ℕ) (status etag : String) (body : Result String) → Reply

-- The code outside this file: `NewRequestWithContext` with its error, `Do`, `url.PathEscape`, the
-- decoders of the two listings, the fetcher, and the parser of the syntax tree.
pub record Outside (W : Type 0) : Type 0 where
  pub new_request : String → Option String
  pub http_do : Request → W → Reply × W
  pub path_escape : String → String
  pub decode_runs : String → Result (List RunRef)
  pub decode_jobs : String → Result (List String)
  pub fetch : (owner repo path ref token : String) → W → Result String × W
  pub lint : Actionlint

-- `listCacheEntry`
pub record ListCacheEntry : Type 0 where
  pub etag : String
  pub body : String

-- The calls of the hooks.
pub data Report : Type 0 where
  dynamic_skipped : String → Report
  yaml_fetch : String → Report

-- The fields that a prediction changes, the surroundings, the calls of the hooks and `PerLabelSet`.
pub record PredictState (W : Type 0) : Type 0 where
  pub outside : W
  pub list_cache : GoMap ListCacheEntry
  pub events : List Report
  pub totals : GoMap ℤ

-- `Predict`'s arguments, and the fields that stay.
pub record Call : Type 0 where
  pub owner : String
  pub repo : String
  pub token : String
  pub base_url : String
  pub runs_cap : ℕ
