-- ===== src/Base/Json.antt =====
-- `json.dumps` and `json.loads` on the values that a service stores as text. `loads` gives `none`
-- where it raises.
use mathlib.Core.Path.{◌≡◌}
use mathlib.Core.Logic.{◌≢◌}
use mathlib.Core.Option.{Option, some}
use Prim.Native.String.{String}

pub record Json (V : Type 0) : Type 0 where
  pub dumps : V → String
  pub loads : String → Option V

-- What the services rely on: a stored text is not empty, and reads back as the value.
pub record IsJson (V : Type 0) ⦃j : Json V⦄ : Type 0 where
  pub dumps-ne-empty : (v : V) → j.dumps v ≢ ""
  pub loads-dumps : (v : V) → j.loads (j.dumps v) ≡ some v

-- The same for one value.
pub record ReadsBack {V : Type 0} ⦃j : Json V⦄ (v : V) : Type 0 where
  pub not_empty : j.dumps v ≢ ""
  pub reads : j.loads (j.dumps v) ≡ some v
