-- ===== src/Plane.antt =====
-- internal/api/noplane/types.go, and the interface of internal/api/noplane/client.go that the
-- controller is written against.
use capi_noplane.Prelude.{String}
use capi_noplane.Prelude.Int.{ℤ}
use capi_noplane.Errors.{Result}
use capi_noplane.Exec.{Op}
use capi_noplane.Types.{Bytes}

pub record Endpoint : Type 0 where
  pub host : String
  pub port : ℤ

pub record Plane : Type 0 where
  pub id : String
  pub name : String
  pub status : String
  pub endpoint : Endpoint
  pub kubernetes_version : String

pub record CreateRequest : Type 0 where
  pub name : String
  pub kubernetes_version : String

pub record UpdateRequest : Type 0 where
  pub kubernetes_version : String

-- The operations against the noplane.io API, each on a world `W`.
pub record ClientInterface (W : Type 0) : Type 0 where
  pub create_plane : CreateRequest → Op W Plane
  pub get_plane : String → Op W Plane
  pub get_plane_by_name : String → Op W Plane
  pub update_plane : String → UpdateRequest → Op W (Unit {0})
  pub delete_plane : String → Op W (Unit {0})
  pub get_kubeconfig : String → Op W Bytes

-- A client for an API key.
abbrev pub ClientFactory : Type 0 → Type 0
ClientFactory W = String → Result (ClientInterface W)
