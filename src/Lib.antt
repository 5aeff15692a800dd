-- ===== src/Lib.antt =====
-- OpenSPMRegistry, a registry server for Swift packages.
--
-- A request passes the router and the authentication and reaches a handler of the controller
-- (controller/). The handler checks the Accept header, calls the storage behind the interface
-- repo.Repo (repo/repo.go), which the backends in repo/files, repo/s3 and repo/maven implement, and
-- writes a response. models/ holds the versions and elements that both sides share.
--
--   Prelude     tests on native numbers, lists, results; names of the libraries passed on
--   Int         Go's int: 64 bits, with the wrap-around written out
--   Strings     Go's strings and strconv on lists of bytes
--   Sort        slices.SortFunc: what its documentation promises, as a record of a function and two
--               laws, and an insertion sort that fills it
--   Json        JSON values with the objects' members in order
--   Config      config/server.go and utils.BaseUrl
--   Http        a response writer: the status counts when it is written first, and with it the
--               header of that moment
--   Models      models/models.go. Version: ParseVersion, Compare, SortVersions; Element:
--               UploadElement with FileName and Extension; Release: ListRelease and MarshalJSON
--   Repo        repo/repo.go, as a record of operations over a type S of storage states and a type W
--               of open writers; Repo/Laws holds what a backend promises of removals and of writers,
--               Repo/Shared what the backends have in common
--   Controller  Request: what a handler reads of a request, with the errors of controller/utils.go;
--               CallInfo: what printCallInfo logs of credentials;
--               Headers: checkHeadersEnforce; Names: the regular expressions of controller/publish.go;
--               Pages and Links: controller/list.go and the Link headers of controller/utils.go;
--               Publish: controller/publish.go
--               Listing: listElements, ListAction and LookupAction; Reading: controller/info.go and
--               controller/downloadsourcearchive.go; Manifest: controller/fetchmanifest.go
--               Collections: controller/collections.go
--   Collections Data: models/collections.go; Manifest, Versions, Grouping and Generate:
--               repo/collections.go. Grouping has the maps, as lists of entries, and the order in
--               which Go visits them, as a record of a function and its law
--   Auth        authenticator/authenticator.go, authenticator/basicauthenticator.go and
--               middleware/authenticator.go. Oidc: authenticator/oidcauthenticator.go; Oidc/Code:
--               authenticator/oidcauthenticatorcode.go; Oidc/Password:
--               authenticator/oidcauthenticatorpassword.go
--   Files       Access: repo/files/access.go; Backend and Extraction: repo/files/filerepo.go as a
--               record of the storage interface; Archive: the extraction of manifests in
--               repo/files/utils.go
--   Maven       Coordinates: repo/maven/coordinates.go; Client: repo/maven/client.go; Metadata:
--               repo/maven/metadata.go; Access: repo/maven/access.go; Backend:
--               repo/maven/mavenrepo.go; Reader: the range reader of repo/maven/readseek.go;
--               Content: its construction, GetReader, and the operations that read content;
--               Locking: updateMetadataLocked of repo/maven/access.go by concurrent requests;
--               FilePaths: the paths that name files each their own
--   S3          Keys: repo/s3/keys.go; Pages: repo/s3/list.go; Client: repo/s3/access.go and
--               repo/s3/writer.go; Backend: repo/s3/s3repo.go as a record of the storage interface
--   Routing     main.go: the choice of the storage, the table of routes and the dispatcher; the routes of
--               middleware/authenticator.go; Start: the configuration that is loaded
--   Tests       inputs at which the theorems apply, with a storage in memory
--
-- Go's functions keep their names in this spelling: ParseVersion is parse_version,
-- cleanupStoredElements is cleanup_stored_elements. A nil error is `none` or `ok`. A handler takes
-- the response writer and the storage's state and returns both, or the response alone where it only
-- reads. A multipart form is the sequence of
-- its parts; a part says whether reading and closing it fail. The loops are structural recursion on
-- the parts, the elements or the bytes, with two exceptions: the listings of the S3 backend follow
-- the service's continuation tokens, and take as fuel the number of pages that they may ask for, of
-- which as many as the service has are enough; io.ReadAll of a range reader in Maven/Content takes as
-- fuel the number of its reads, of which one more than the file has bytes are enough, since each
-- yields some; the model has an error for too few.
--
-- Parameters, since their code is not in the repository: slices.SortFunc, the tables of package
-- mime, mime.ParseMediaType, url.JoinPath, json.Marshal of a release and of a collection,
-- json.Unmarshal, encoding/xml, http.ServeContent, http.Redirect, the text of a cookie, the clock and
-- the formats of times, archive/zip, the hash and base64 functions, r.BasicAuth, the S3 client, the HTTP
-- client of the Maven repository, the file system, the OIDC provider, jose, html/template, the random
-- strings, yaml.Unmarshal, and the order in which Go visits a map. Logging is left out but for the
-- masking of credentials, and some messages of errors that no caller shows are shortened. The mutexes
-- of repo/maven/access.go make each update one step in Maven/Access; Maven/Locking has the steps of
-- the updates of the metadata, with their mutexes and in any order. Two servers on one Maven
-- repository are not modelled.
--
-- Not modelled: what happens outside of the program's own logic.
-- Input and output or calls of libraries are the matching of patterns in http.ServeMux, the flags of
-- the command line, listening and shutting down, the discovery of the OIDC provider, the pages
-- rendered by html/template or served from files, the construction of the S3 client, apivalidate/,
-- cmd/, e2e/ and internal/.
pub mod Prelude
pub mod Strings
pub mod Int
pub mod Collections
pub mod Config
pub mod Sort
pub mod Http
pub mod Models
pub mod Json
pub mod Repo
pub mod Controller
pub mod Auth
pub mod Files
pub mod Maven
pub mod S3
pub mod Routing
pub mod Tests
