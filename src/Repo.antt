-- ===== src/Repo.antt =====
-- repo/repo.go: the interface between the controller and the storage backends.
pub mod Laws
pub mod Shared
use openspmregistry.Prelude.{ℕ, Bool, Option, List, Result}
use openspmregistry.Strings.{Bytes}
use openspmregistry.Json.{Fields}
use openspmregistry.Models.Element.{UploadElement, ListElement}

abbrev pub Context : Type 0
Context = Option Bytes

-- S is the state of the storage, W an open writer. What only reads takes the state; what writes
-- returns the new one. A reader is the content that it yields, a time is in seconds.
pub record Repo (S W : Type 0) : Type 0 where
  -- Access
  pub exists : Context → UploadElement → S → Bool
  pub get_reader : Context → UploadElement → S → Result Bytes
  pub get_writer : Context → UploadElement → S → Result W × S
  pub write : W → Bytes → S → Result W × S
  pub close : W → S → Result (Unit {0}) × S
  -- Repo
  pub extract_manifest_files : Context → UploadElement → S → Result (Unit {0}) × S
  pub list : Context → Bytes → Bytes → S → Result (List ListElement)
  pub encode_base64 : Context → UploadElement → S → Result Bytes
  pub publish_date : Context → UploadElement → S → Result ℕ
  pub checksum : Context → UploadElement → S → Result Bytes
  pub load_metadata : Context → Bytes → Bytes → Bytes → S → Result Fields
  pub get_alternative_manifests : Context → UploadElement → S → Result (List UploadElement)
  pub get_swift_tool_version : Context → UploadElement → S → Result Bytes
  pub lookup : Context → Bytes → S → Option (List Bytes)
  pub remove : Context → UploadElement → S → Result (Unit {0}) × S
  pub list_scopes : Context → S → Result (List Bytes)
  pub list_in_scope : Context → Bytes → S → Result (List ListElement)
  pub list_all : Context → S → Result (List ListElement)
  pub load_package_json : Context → Bytes → Bytes → Bytes → S → Result Fields
