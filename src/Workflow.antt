-- ===== src/Workflow.antt =====
-- internal/predictor/workflow/parse.go: the jobs of one workflow file, read from the syntax tree of
-- github.com/rhysd/actionlint. The tree is data; what its methods and its parser compute is the
-- record `Actionlint`. A Go map is a list of its entries, in the order of the iteration.
pub mod Combos
pub mod Product
pub mod Crossing
pub mod Exclusion
pub mod Inclusion
pub mod Documents
pub mod References
pub mod Jobs
pub mod Flags
pub mod Runners
use warmrunners.Base.{String, Bool, List, Option, GoMap}

-- `RawYAMLValue`: nil, a `*RawYAMLString`, or another value with what its `String()` returns.
pub data RawYaml : Type 0 where
  absent : RawYaml
  text : String → RawYaml
  composite : String → RawYaml

-- `MatrixRow`, `MatrixCombination`, `MatrixCombinations` and `Matrix`: a nil pointer is `none`, and
-- an assignment is its value.
pub record MatrixRow : Type 0 where
  pub values : List RawYaml
  pub expression : Option String

pub record MatrixCombination : Type 0 where
  pub assigns : GoMap (Option RawYaml)
  pub expression : Option String

pub record MatrixCombinations : Type 0 where
  pub combinations : List (Option MatrixCombination)
  pub expression : Option String

pub record Matrix : Type 0 where
  pub rows : GoMap (Option MatrixRow)
  pub include : Option MatrixCombinations
  pub exclude : Option MatrixCombinations
  pub expression : Option String

-- `Runner`, `WorkflowCall`, `Strategy`, `Job` and `Workflow`.
pub record Runner : Type 0 where
  pub labels : List (Option String)
  pub labels_expr : Option String
  pub group : Option String

pub record WorkflowCall : Type 0 where
  pub uses : Option String

pub record Strategy : Type 0 where
  pub matrix : Option Matrix

pub record JobNode : Type 0 where
  pub needs : List (Option String)
  pub runs_on : Option Runner
  pub strategy : Option Strategy
  pub workflow_call : Option WorkflowCall

pub record WorkflowNode : Type 0 where
  pub jobs : GoMap JobNode

-- The parser, with the messages of its errors, and the two methods `ContainsExpression`.
pub record Actionlint : Type 0 where
  pub parse_ast : String → Option WorkflowNode × List String
  pub contains_expression : String → Bool
  pub combinations_contain_expression : MatrixCombinations → Bool

-- The code's own types.
pub record RunsOnSpec : Type 0 where
  pub labels : List String
  pub group : String
  pub dynamic : Bool

pub record MatrixSpec : Type 0 where
  pub combos : List (GoMap String)
  pub dynamic : Bool

pub record Job : Type 0 where
  pub id : String
  pub needs : List String
  pub runs_on : RunsOnSpec
  pub matrix : MatrixSpec
  pub uses_local : String
  pub uses_remote : Bool
  pub dynamic : Bool

pub record Workflow : Type 0 where
  pub jobs : GoMap Job
