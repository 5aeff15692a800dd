-- ===== src/Http.antt =====
-- What the program uses of net/http: a request as the accessors that the handlers call, and a
-- response writer.
pub mod Laws
use openspmregistry.Prelude.{
  ℕ, Bool, true, false, Option, none, some, List, [], ◌∷◌, ◌++◌, if◌then◌else◌,
}
use openspmregistry.Json.{Json}
use openspmregistry.Strings.{Bytes, codes, eq_bytes}

-- A header field is found by its name; a repeated `Set` replaces it.
abbrev pub Header : Type 0
Header = List (Bytes × Bytes)

-- header.Get(name)
unfoldable pub get : Bytes → Header → Bytes
get name [] = []
get name ((k, v) ∷ h) = if eq_bytes k name then v else get name h

-- header.Set(name, value)
unfoldable pub set : Bytes → Bytes → Header → Header
set name value [] = (name, value) ∷ []
set name value ((k, v) ∷ h) =
    if eq_bytes k name then (name, value) ∷ h else (k, v) ∷ set name value h

-- What is written after the header.
pub data Body : Type 0 where
  -- json.NewEncoder(w).Encode(responses.Error{Detail: message})
  problem : Bytes → Body
  -- http.Error(w, message, code)
  plain : Bytes → Body
  -- json.NewEncoder(w).Encode of a value
  document : Json → Body
  -- json.NewEncoder(w).Encode of a value whose MarshalJSON yields this text
  marshaled : Bytes → Body
  -- w.Write of these bytes
  content : Bytes → Body

-- `sent` holds the status and the header as they were when the status was written: later changes
-- of the header do not reach the client.
pub record ResponseWriter : Type 0 where
  pub header : Header
  pub sent : Option (ℕ × Header)
  pub body : List Body

abbrev pub fresh : ResponseWriter
fresh = record { header = []; sent = none; body = [] }

-- w.Header().Set(name, value)
unfoldable pub set_header : Bytes → Bytes → ResponseWriter → ResponseWriter
set_header name value w = record w { header = set name value w.header }

abbrev sent_once : Option (ℕ × Header) → ℕ × Header → ℕ × Header
sent_once none s = s
sent_once (some s) _ = s

-- w.WriteHeader(status): only the first call counts
unfoldable pub write_header : ℕ → ResponseWriter → ResponseWriter
write_header status w = record w { sent = some (sent_once w.sent (status, w.header)) }

-- w.Write: writes the status 200 first, if none is written
unfoldable pub write : Body → ResponseWriter → ResponseWriter
unfolding write_header
write b w = let w' = write_header 200 w in record w' { body = w'.body ++ (b ∷ []) }

-- http.Error
unfoldable pub http_error : Bytes → ℕ → ResponseWriter → ResponseWriter
unfolding set_header write_header write
http_error message status w = write (plain message) (
    write_header status (
      set_header (codes "X-Content-Type-Options") (codes "nosniff")
        (set_header (codes "Content-Type") (codes "text/plain; charset=utf-8") w)))

-- w.Header().Add(name, value)
unfoldable pub add_header : Bytes → Bytes → ResponseWriter → ResponseWriter
add_header name value w = record w { header = w.header ++ ((name, value) ∷ []) }

-- the status that the client sees
abbrev pub status_of : ResponseWriter → Option ℕ
status_of w = elim w.sent [ none ↦ none | some s ↦ some (s.0) ]

-- the header that the client sees
abbrev pub sent_header : ResponseWriter → Header
sent_header w = elim w.sent [ none ↦ [] | some s ↦ s.1 ]
