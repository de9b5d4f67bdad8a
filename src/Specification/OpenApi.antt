-- ===== src/Specification/OpenApi.antt =====
-- OpenAPI documents as kin-openapi hands them over, and its functions, as parameters.
use swagger_hub_controller.Base.{String, List, Option, Result}
use swagger_hub_controller.Base.Dict.{Dict}
use swagger_hub_controller.Kube.Workload.{Bytes}
use swagger_hub_controller.Api.Specification.{Contact, License}
use swagger_hub_controller.Specification.Json.{Json, Fields}

-- `openapi3.Operation`, with the field that is written
pub record Operation : Type 0 where
  pub tags : List String
  pub content : Json

-- `openapi3.PathItem`, with its operations by method
pub record PathItem : Type 0 where
  pub operations : Dict Operation
  pub content : Json

-- `openapi3.Components`, with the fields that are used
pub record Components : Type 0 where
  pub schemas : Dict Json
  pub security_schemes : Dict Json

-- `openapi3.Info`
pub record OpenApiInfo : Type 0 where
  pub title : String
  pub description : String
  pub terms_of_service : String
  pub contact : Contact
  pub license : License
  pub version : String

-- `openapi3.Server`
pub record OpenApiServer : Type 0 where
  pub url : String
  pub description : String

-- The document that is generated.
pub record OpenApi : Type 0 where
  pub open_api : String
  pub info : OpenApiInfo
  pub servers : List OpenApiServer
  pub paths : Dict PathItem
  pub components : Components

-- A document that was loaded, with `s.Servers.BasePath()`.
pub record Loaded : Type 0 where
  pub components : Option Components
  pub paths : Dict PathItem
  pub base_path : Result String

pub record OpenApiLibrary : Type 0 where
  -- `json.Unmarshal` into a map, and `json.Marshal` of it
  pub unmarshal : Bytes → Result Fields
  pub marshal : Fields → Result Bytes
  -- `loader.LoadFromData`
  pub load_from_data : Bytes → Result Loaded
  -- `openapi3.NewPaths` of `openapi3.WithPath`s
  pub new_paths : List (String × PathItem) → Dict PathItem
  -- `openapiSpec.MarshalJSON()`
  pub marshal_json : OpenApi → Result Bytes
