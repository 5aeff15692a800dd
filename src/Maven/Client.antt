-- ===== src/Maven/Client.antt =====
-- repo/maven/client.go
use openspmregistry.Prelude.{
  ℕ, not, ◌&&◌, ◌||◌, Option, none, some, List, [], ◌∷◌, ◌++◌, ◌==◌, leb, Result, ok, err, ◌>>=◌,
  if◌then◌else◌, map,
}
use openspmregistry.Int.{ℤ, pos, lt_int, mul_int}
use openspmregistry.Strings
use openspmregistry.Strings.{Bytes, codes, is_empty, eq_bytes, trim_suffix}
use openspmregistry.Config.{MavenConfig}
use openspmregistry.Sort.{SortFunc}
use openspmregistry.Models.Element.{Platform}
use openspmregistry.Repo.{Context}

-- What is sent: a field that is not set is empty.
pub record Call : Type 0 where
  pub url : Bytes
  pub authorization : Bytes
  pub content_type : Bytes
  pub body : Bytes

-- A response: `body` is what reading it yields.
pub record Response : Type 0 where
  pub status : ℕ
  pub header : Bytes → Bytes
  pub body : Result Bytes

-- The client of net/http over the state S of the Maven server, by method. HEAD and GET leave the
-- server as it is.
pub record HttpClient (S : Type 0) : Type 0 where
  -- http.NewRequestWithContext, for a url
  pub new_request : Bytes → Result (Unit {0})
  pub head : Call → S → Result Response
  pub get : Call → S → Result Response
  pub put : Call → S → Result Response × S
  pub delete : Call → S → Result Response × S

-- The response of a request, a status of 400 or more, or another error.
pub data Fetched : Type 0 where
  fetched : Response → Fetched
  status_error : ℕ → Fetched
  request_error : Bytes → Fetched

-- spmRegistryIndexResponse; a nil map is none
pub record Index : Type 0 where
  pub scopes : List Bytes
  pub packages : Option (List (Bytes × List Bytes))

-- The text formats of the server's files.
pub record Formats : Type 0 where
  -- base64.StdEncoding.EncodeToString
  pub base64 : Bytes → Bytes
  -- the first value of a json.Decoder, into an index
  pub decode_index : Bytes → Result Index
  -- json.Marshal of an index that has no scopes
  pub marshal_packages : List (Bytes × List Bytes) → Result Bytes

abbrev pub spm_registry_index_path : Bytes
spm_registry_index_path = codes "com/spm/registry/index/1/index-1.json"

-- the timeout of `newClient`, in nanoseconds
unfoldable pub client_timeout : MavenConfig → ℤ
client_timeout cfg =
    if lt_int (pos 0) cfg.timeout then mul_int cfg.timeout (pos 1000000000) else pos 30000000000

module _ {S : Type 0} (http : HttpClient S) (p : Platform) (cfg : MavenConfig) (formats : Formats)
    (ctx : Context) where
  unfoldable pub build_basic_auth : Bytes → Bytes → Bytes
  build_basic_auth username password =
      codes "Basic " ++ formats.base64 (username ++ (codes ":" ++ password))

  abbrev passed_through : Context → Bytes
  passed_through none = []
  passed_through (some header) = header

  unfoldable pub get_auth_header : Bytes
  unfolding build_basic_auth eq_bytes
  get_auth_header =
      if eq_bytes cfg.auth_mode (codes "passthrough")
      then passed_through ctx
      else if eq_bytes cfg.auth_mode (codes "config")
          || (is_empty cfg.auth_mode && not (is_empty cfg.username))
      then build_basic_auth cfg.username cfg.password
      else []

  -- baseURL of `newClient`
  abbrev base : Bytes
  base = trim_suffix cfg.base_url (codes "/")

  abbrev full_url : Bytes → Result Bytes
  full_url path =
      if is_empty path
      then ok (trim_suffix base (codes "/") ++ codes "/")
      else elim (p.join_path base (path ∷ [])) [
        | none ↦ err (codes "failed to build URL")
        | some url ↦ ok url
      ]

  unfoldable pub make_request : Bytes → Bytes → Bytes → Result Call
  unfolding get_auth_header trim_suffix
  make_request path body content_type = do
    url ← full_url path
    _ ← http.new_request url
    ok (record {
      url = url;
      authorization = get_auth_header;
      content_type = content_type;
      body = body;
    })

  abbrev below_400 : Result Response → Fetched
  below_400 (err e) = request_error (codes "request failed: " ++ e)
  below_400 (ok response) =
      if leb 400 response.status then status_error response.status else fetched response

  -- `GET`, with `doRequest`
  unfoldable pub get : Bytes → S → Fetched
  unfolding make_request
  get path s = elim (make_request path [] []) [
    | err e ↦ request_error e
    | ok call ↦ below_400 (http.get call s)
  ]

  -- `HEAD`: every status is a response
  unfoldable pub head : Bytes → S → Result Response
  unfolding make_request
  head path s = do call ← make_request path [] []; http.head call s

  -- closing the body of a response is taken to succeed
  abbrev put_answer : Result Response × S → Result (Unit {0}) × S
  put_answer (err e, s) = (err (codes "PUT request failed: " ++ e), s)
  put_answer (ok response, s) =
      (if leb 400 response.status then err (codes "PUT request failed with status") else ok tt, s)

  unfoldable pub put : Bytes → Bytes → Bytes → S → Result (Unit {0}) × S
  unfolding make_request
  put path body content_type s = elim (make_request path body content_type) [
    | err e ↦ (err e, s)
    | ok call ↦ put_answer (http.put call s)
  ]

  abbrev delete_answer : Result Response × S → Result (Unit {0}) × S
  delete_answer (err e, s) = (err (codes "DELETE request failed: " ++ e), s)
  delete_answer (ok response, s) = (
    if leb 400 response.status && not (response.status == 404)
        then err (codes "DELETE request failed with status")
        else ok tt,
    s,
  )

  unfoldable pub delete : Bytes → S → Result (Unit {0}) × S
  unfolding make_request
  delete path s = elim (make_request path [] []) [
    | err e ↦ (err e, s)
    | ok call ↦ delete_answer (http.delete call s)
  ]

-- sort.Strings
abbrev pub sort_strings : SortFunc → List Bytes → List Bytes
sort_strings slices = slices.sort Strings.compare

-- a nil map, made empty
abbrev pub packages_of_index : Index → List (Bytes × List Bytes)
packages_of_index index = elim index.packages [ none ↦ [] | some packages ↦ packages ]

module _ {S : Type 0} (http : HttpClient S) (p : Platform) (cfg : MavenConfig) (formats : Formats)
    (ctx : Context) (slices : SortFunc) where
  abbrev scopes_or_keys : List Bytes → List (Bytes × List Bytes) → List Bytes
  scopes_or_keys [] packages = sort_strings slices (map (λ entry. entry.0) packages)
  scopes_or_keys (scope ∷ scopes) packages = scope ∷ scopes

  -- missing packages and scopes, filled in
  unfoldable pub normalized : Index → Index
  normalized index =
      let packages = packages_of_index index in
      record { scopes = scopes_or_keys index.scopes packages; packages = some packages }

  abbrev full_index : Fetched → Result Index
  full_index (request_error e) = err e
  full_index (status_error status) = err (codes "request failed with status")
  full_index (fetched response) =
      if not (response.status == 200)
      then err (codes "request failed with status")
      else do text ← response.body; index ← formats.decode_index text; ok (normalized index)

  unfoldable pub get_spm_registry_index_full : S → Result Index
  unfolding get normalized
  get_spm_registry_index_full s = full_index (get http p cfg formats ctx spm_registry_index_path s)

  unfoldable pub get_spm_registry_index : S → Result (List Bytes)
  unfolding get_spm_registry_index_full
  get_spm_registry_index s = do
    index ← get_spm_registry_index_full s
    ok (sort_strings slices index.scopes)
