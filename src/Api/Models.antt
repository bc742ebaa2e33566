-- ===== src/Api/Models.antt =====
-- The data types of the API. A pointer field is an Option.
use capi_noplane.Prelude.{String, Bool, List, Option, Dict}
use capi_noplane.Prelude.Int.{ℤ}

-- A time.Time, by its text on the wire; no code reads it.
abbrev pub Time : Type 0
Time = String

pub record BootstrapTokenListItem : Type 0 where
  pub created_at : Time
  pub expires_at : Time
  pub id : String
  pub name : String
  pub secret : String

pub record CreateTenantRequest : Type 0 where
  pub description : Option String
  pub kubernetes_version : Option String
  pub labels : Option (Dict String String)
  pub name : String
  pub replicas : Option ℤ
  pub subdomain : Option String
  pub unique_id : String

pub record CreateTokenRequest : Type 0 where
  pub ttl : String

-- The anonymous struct of Error.Errors.
pub record FieldError : Type 0 where
  pub code : Option String
  pub field : String
  pub message : String

pub record ApiError : Type 0 where
  pub detail : Option String
  pub errors : Option (List FieldError)
  pub instance_uri : Option String
  pub status : ℤ
  pub title : String
  pub type_uri : String

pub record Tenant : Type 0 where
  pub created_at : Time
  pub description : Option String
  pub hash : String
  pub hostname : Option String
  pub id : String
  pub kubernetes_version : Option String
  pub labels : Option (Dict String String)
  pub name : String
  pub owner : String
  pub replicas : Option ℤ
  pub subdomain : Option String
  pub updated_at : Option Time

-- The anonymous structs of the answers.
pub record KubeconfigBody : Type 0 where
  pub kubeconfig : String

pub record AvailableBody : Type 0 where
  pub available : Bool
