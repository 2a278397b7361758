-- ===== src/Com/Path.antt =====
-- Go's `filepath.Join`, for paths that start at the root.
use deepin_network_proxy.Prelude.{
  ◌||◌, List, [], ◌∷◌, ◌++◌, leb, if◌then◌else◌, length, drop, split_on, Bytes, codes, nat_Eq,
  list_Eq, ◌==◌,
}

-- The elements that lead to the place, the last one first.
unfoldable pub enter : List Bytes → List Bytes → List Bytes
enter place [] = place
enter place (e ∷ es) =
    if e == [] || e == codes "."
    then enter place es
    else (if e == codes ".." then enter (drop 1 place) es else enter (e ∷ place) es)

unfoldable pub path_to : List Bytes → Bytes
path_to [] = []
path_to (e ∷ place) = path_to place ++ codes "/" ++ e

unfoldable pub slashed : List Bytes → Bytes
slashed [] = []
slashed (e ∷ es) = codes "/" ++ e ++ slashed es

-- `filepath.Join`: the elements with slashes between them, cleaned.
unfoldable pub join_path : List Bytes → Bytes
join_path es =
    let place = enter [] (split_on b'/' (slashed es)) in
    if leb (length place) 0 then codes "/" else path_to place
