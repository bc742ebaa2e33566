-- ===== src/Fake/Panics.antt =====
-- fake/client.go: when an operation of the fake client panics, and that maps which are made stay made.
use capi_noplane.Prelude.{◌≡◌, ◌≢◌, ◌⊎◌, none, string_eq}
use capi_noplane.Errors.{Result, panic}
use capi_noplane.Plane.{CreateRequest}
use capi_noplane.Fake.{find, FakeClient}

-- Both maps are made.
pub record IsInitialized (f : FakeClient) : Type 0 where
  pub by_id : f.planes ≢ none
  pub by_name : f.planes_by_name ≢ none

-- The outcome of an operation that started on f: no panic, and no map became nil.
abbrev pub IsSafe : {A : Type 0} → FakeClient → Result A × FakeClient → Type 0
IsSafe f (r, g) =
    (r ≢ panic)
    × (f.planes ≢ none → g.planes ≢ none)
    × (f.planes_by_name ≢ none → g.planes_by_name ≢ none)

-- What makes a creation panic: no error is injected, the name is free, and a map is nil.
abbrev pub IsDoomed : CreateRequest → FakeClient → Type 0
IsDoomed req f =
    (f.create_err ≡ none)
    × (find req.name f.planes_by_name ≡ none)
    × ((f.planes ≡ none) ⊎ (f.planes_by_name ≡ none))
