-- ===== src/Tests/CollectionTests.antt =====
-- repo/collections.go and controller/collections.go: the theorems at concrete inputs.
use mathlib.Core.List.{Memᴰ}
use mathlib.Core.List.Permᴰ
use openspmregistry.Prelude.{◌≡◌, ◌↔◌, refl, true, false, none, some, List, [], ◌∷◌, ok, All}
use openspmregistry.Strings.{Bytes, codes, is_empty}
use openspmregistry.Json.{end}
use openspmregistry.Http.{fresh}
use openspmregistry.Config.{ServerConfig}
use openspmregistry.Sort.{Ranked}
use openspmregistry.Sort.Insertion.{by_insertion}
use openspmregistry.Models.Element.{ListElement}
use openspmregistry.Repo.{Repo}
use openspmregistry.Collections.Grouping.{Iteration}
use openspmregistry.Collections.Generate.{generate_collection}
use openspmregistry.Collections.Generate.Order.{UrlBefore}
use openspmregistry.Collections.Generate.Complete.{Shown, described, generate_collection-Shown}
use openspmregistry.Collections.Generate.Sound.{SoundPackage, generate_collection-SoundPackage}
use openspmregistry.Controller.Request.{Request}
use openspmregistry.Controller.Collections.{scope_collection_action}
use openspmregistry.Controller.Collections.Answers.{Answered, Marshals, scope_collection_action_iff}
use openspmregistry.Tests.Memory.{Keys, memory}
use openspmregistry.Tests.ControllerTests.{config}

abbrev element : Bytes → Bytes → ListElement
element name version = record { scope = codes "a"; package_name = name; version = version }

abbrev packages : List ListElement
packages =
    element (codes "b") (codes "1.0.0")
    ∷ element (codes "c") (codes "2.0.0")
    ∷ element (codes "b") (codes "1.1.0")
    ∷ []

-- a storage of these packages, which all have a Package.json
abbrev stocked : Repo Keys Bytes
stocked = record memory {
  list_all = λ ctx s. ok packages;
  list_in_scope = λ ctx scope s. ok packages;
  load_package_json = λ ctx scope name version s. ok end;
}

abbrev in_order : Iteration
in_order = record { order = λ entries. entries; permuted = λ entries. Permᴰ.refl entries }

generate_collection-Shown_example :
    Shown
      (codes "a.b")
      (described stocked by_insertion in_order 0
        (λ t. [])
        none
        []
        (element (codes "b") (codes "1.1.0"))
        end
        refl)
      (generate_collection stocked by_insertion in_order 0
        (λ t. [])
        none
        []
        packages
        []
        []).packages
generate_collection-Shown_example =
    generate_collection-Shown stocked by_insertion in_order 0 (λ t. []) none []
      (element (codes "b") (codes "1.1.0")) end refl [] [] packages
      (Memᴰ.tail (Memᴰ.tail (Memᴰ.head refl)))

generate_collection-SoundPackage_example :
    All
      (SoundPackage stocked by_insertion in_order 0 (λ t. []) none [] packages)
      (generate_collection stocked by_insertion in_order 0
        (λ t. [])
        none
        []
        packages
        []
        []).packages
    × Ranked
        (λ a b. ¬ UrlBefore b a)
        (generate_collection stocked by_insertion in_order 0
          (λ t. [])
          none
          []
          packages
          []
          []).packages
generate_collection-SoundPackage_example =
    generate_collection-SoundPackage stocked by_insertion in_order 0 (λ t. []) none [] packages []
      []

abbrev enabled : ServerConfig
enabled = record config {
  package_collections = record {
    enabled = true;
    require_package_json = false;
    public_read = false;
    allow_auth_query_param = false;
  };
}

abbrev asked : Request
asked = record {
  accept = [];
  authorization = [];
  scope = codes "a";
  package_name = [];
  version = [];
  query = λ name. [];
  multipart = none;
}

scope_collection_action_iff_example :
    Answered (codes "{}") (
      scope_collection_action stocked by_insertion in_order 0
        (λ t. [])
        (λ c. some (codes "{}"))
        enabled
        asked
        fresh
        [])
    ↔ ((true ≡ true)
        × ((is_empty (codes "a") ≡ false)
            × ((e : ListElement) × (listed : List ListElement) × (ok packages ≡ ok (e ∷ listed))
                × Marshals stocked by_insertion in_order 0
                    (λ t. [])
                    (λ c. some (codes "{}"))
                    enabled
                    asked
                    []
                    (codes "{}")
                    (codes "a")
                    (e ∷ listed))))
scope_collection_action_iff_example =
    scope_collection_action_iff stocked by_insertion in_order 0 (λ t. []) (λ c. some (codes "{}"))
      enabled asked [] (codes "{}")
