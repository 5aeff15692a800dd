-- ===== src/Collections/Data.antt =====
-- models/collections.go. A slice that may be nil, which encoding/json writes as null, is an Option; a
-- map is a list of its entries, each key once.
use openspmregistry.Prelude.{List, Option}
use openspmregistry.Int.{ℤ}
use openspmregistry.Strings.{Bytes}

pub record GeneratedBy : Type 0 where
  pub name : Bytes

pub record Author : Type 0 where
  pub name : Bytes

pub record License : Type 0 where
  pub name : Bytes
  pub url : Bytes

pub record Signer : Type 0 where
  pub common_name : Bytes
  pub organization : Bytes

pub record CompatiblePlatform : Type 0 where
  pub name : Bytes

pub record VerifiedCompatibility : Type 0 where
  pub platform : CompatiblePlatform
  pub swift_version : Bytes

pub record Target : Type 0 where
  pub name : Bytes
  pub module_name : Bytes

pub record Product : Type 0 where
  pub name : Bytes
  pub kind : List (Bytes × Option (List Bytes))
  pub targets : Option (List Bytes)

pub record MinimumPlatformVersion : Type 0 where
  pub name : Bytes
  pub version : Bytes

pub record PackageManifest : Type 0 where
  pub tools_version : Bytes
  pub package_name : Bytes
  pub targets : List Target
  pub products : List Product
  pub minimum_platform_versions : List MinimumPlatformVersion

pub record PackageVersion : Type 0 where
  pub version : Bytes
  pub summary : Bytes
  pub manifests : List (Bytes × PackageManifest)
  pub default_tools_version : Bytes
  pub verified_compatibility : List VerifiedCompatibility
  pub license : Option License
  pub author : Option Author
  pub signer : Option Signer
  pub created_at : Bytes

pub record CollectionPackage : Type 0 where
  pub url : Bytes
  pub summary : Bytes
  pub keywords : List Bytes
  pub versions : List PackageVersion
  pub readme_url : Bytes
  pub license : Option License

pub record PackageCollection : Type 0 where
  pub name : Bytes
  pub overview : Bytes
  pub keywords : List Bytes
  pub packages : List CollectionPackage
  pub format_version : Bytes
  pub revision : ℤ
  pub generated_at : Bytes
  pub generated_by : GeneratedBy
