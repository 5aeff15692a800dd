-- ===== src/Strings/Paths.antt =====
-- The functions of package path that the program calls, as its documentation describes them.
pub mod Plain
pub mod Nested
pub mod Joined
use openspmregistry.Prelude.{
  ◌-◌, Bool, true, false, not, ◌&&◌, ◌||◌, List, [], ◌∷◌, ◌++◌, ◌==◌, if◌then◌else◌, length, take,
}
use openspmregistry.Strings.{Bytes, codes, eq_bytes, is_empty, split, join, contains_byte}

abbrev pub last_part : List Bytes → Bytes
last_part [] = []
last_part (p ∷ []) = p
last_part (_ ∷ q ∷ ps) = last_part (q ∷ ps)

abbrev pub but_last : List Bytes → List Bytes
but_last [] = []
but_last (p ∷ []) = []
but_last (p ∷ q ∷ ps) = p ∷ but_last (q ∷ ps)

-- what stands behind the last slash
unfoldable pub behind_slash : Bytes → Bytes
behind_slash s = last_part (split s b'/')

-- path.Ext: the last part of the name from its dot on
unfoldable pub path_ext : Bytes → Bytes
path_ext s =
    let name = behind_slash s in
    if contains_byte b'.' name then b'.' ∷ last_part (split name b'.') else []

-- one ".." more
unfoldable pub parent : Bool → List Bytes → List Bytes
parent rooted [] = if rooted then [] else codes ".." ∷ []
parent rooted (p ∷ done) =
    if eq_bytes (last_part (p ∷ done)) (codes "..")
    then p ∷ (done ++ (codes ".." ∷ []))
    else but_last (p ∷ done)

unfoldable pub entered : Bool → List Bytes → Bytes → List Bytes
unfolding parent
entered rooted done p =
    if is_empty p || eq_bytes p (codes ".")
    then done
    else if eq_bytes p (codes "..")
    then parent rooted done
    else done ++ (p ∷ [])

unfoldable pub clean_parts : Bool → List Bytes → List Bytes → List Bytes
clean_parts rooted done [] = done
clean_parts rooted done (p ∷ parts) = clean_parts rooted (entered rooted done p) parts

abbrev or_dot : Bytes → Bytes
or_dot [] = codes "."
or_dot (c ∷ s) = c ∷ s

abbrev clean_rooted : Bool → Bytes → Bytes
clean_rooted rooted s =
    let cleaned = join (clean_parts rooted [] (split s b'/')) (codes "/") in
    if rooted then b'/' ∷ cleaned else or_dot cleaned

-- path.Clean
unfoldable pub path_clean : Bytes → Bytes
path_clean [] = codes "."
path_clean (c ∷ s) = clean_rooted (c == b'/') (c ∷ s)

-- path.Dir: all up to the last slash, cleaned
unfoldable pub path_dir : Bytes → Bytes
unfolding path_clean
path_dir s = path_clean (take (length s - length (behind_slash s)) s)

abbrev trim_slashes : Bytes → Bytes
trim_slashes [] = []
trim_slashes (c ∷ s) =
    let rest = trim_slashes s in if c == b'/' && is_empty rest then [] else c ∷ rest

abbrev or_slash : Bytes → Bytes
or_slash [] = codes "/"
or_slash (c ∷ s) = c ∷ s

-- path.Base
unfoldable pub path_base : Bytes → Bytes
path_base [] = codes "."
path_base (c ∷ s) = or_slash (behind_slash (trim_slashes (c ∷ s)))

abbrev from_full : List Bytes → List Bytes
from_full [] = []
from_full (e ∷ elems) = if is_empty e then from_full elems else e ∷ elems

abbrev clean_joined : List Bytes → Bytes
clean_joined [] = []
clean_joined (e ∷ elems) = path_clean (join (e ∷ elems) (codes "/"))

-- path.Join: empty elements at the front are left out
unfoldable pub path_join : List Bytes → Bytes
path_join elems = clean_joined (from_full elems)
