-- ===== src/Functions.antt =====
-- src/functions/src/lib.rs: what a function is to the rest of the engine.
pub mod Boolean
pub mod Aggregate
pub mod Registry
use incresql.Prelude.{ℕ, ◌≡◌, Option, List, map}
use incresql.Data.Datum.{Externals, Datum}
use incresql.Data.DataType.{DataType}
use incresql.Data.Datum.Stored.{stored}
use mathlib.Core.Option

pub record FunctionSignature : Type 0 where
  pub name : List ℕ
  pub args : List DataType
  pub ret : DataType

-- The trait objects `dyn Function`, with what one does to its arguments (`none` is a panic; the
-- session of a query is fixed), and `dyn AggregateFunction`. A function sees the values of its
-- arguments and not who owns their bytes.
pub record Functions (x : Externals) : Type 1 where
  pub Function : Type 0
  pub AggregateFunction : Type 0
  pub execute : Function → FunctionSignature → List (Datum x) → Option (Datum x)
  pub execute-stored :
      (f : Function) (s : FunctionSignature) (ds es : List (Datum x))
      → map stored ds ≡ map stored es
      → Option.map stored (execute f s ds) ≡ Option.map stored (execute f s es)
