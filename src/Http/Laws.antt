-- ===== src/Http/Laws.antt =====
-- Reading a header field after it was set.
use openspmregistry.Prelude.{◌≡◌, refl, [], ◌∷◌, arith, if◌then◌else◌}
use openspmregistry.Strings.{Bytes, eq_bytes}
use openspmregistry.Strings.Equality.{eq_bytes_iff}
use openspmregistry.Http.{Header, get, set}

pub get-set :
    (j k v : Bytes) (h : Header) → get j (set k v h) ≡ (if eq_bytes k j then v else get j h)
unfolding get set
get-set j k v [] = refl
get-set j k v ((i, w) ∷ h) =
    ground (arith, get-set j k v h, eq_bytes_iff i k, eq_bytes_iff i j, eq_bytes_iff k j)
