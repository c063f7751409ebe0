-- ===== src/Upstream/Group.antt =====
-- `Cache.ExistsBatch` of cache.go, on the answers of its calls in the order in which they arrive,
-- and `Group.ExistsBatch` of group.go, on the maps of its members in that order.
pub mod Union
use aeroflare.Base.{
  Bool, true, false, Option, none, some, List, [], ◌∷◌, Text, Dict, insert, text_eq,
}
use aeroflare.Oci.{merged}

-- The map of the answers, or none if a call fails: the answers behind it are not read.
unfoldable pub collect_answers :
    List (Text × Option Bool) → Dict Text Bool → Option (Dict Text Bool)
collect_answers [] m = some m
collect_answers ((h, none) ∷ rest) m = none
collect_answers ((h, some exists) ∷ rest) m = collect_answers rest (insert h exists m)

-- What a member adds: the hashes that it holds.
unfoldable pub add_held : Dict Text Bool → Dict Text Bool → Dict Text Bool
add_held [] merged = merged
add_held ((h, true) ∷ m) merged = add_held m (insert h true merged)
add_held ((h, false) ∷ m) merged = add_held m merged

-- A member that fails adds nothing.
abbrev pub add_member : Option (Dict Text Bool) → Dict Text Bool → Dict Text Bool
add_member none merged = merged
add_member (some m) merged = add_held m merged

unfoldable pub merge_members : List (Option (Dict Text Bool)) → Dict Text Bool → Dict Text Bool
unfolding add_held
merge_members [] merged = merged
merge_members (m ∷ ms) merged = merge_members ms (add_member m merged)

-- `Group.ExistsBatch`: the error is always nil.
unfoldable pub group_exists_batch : List (Option (Dict Text Bool)) → List Text → Dict Text Bool
unfolding merge_members
group_exists_batch [] hashes = []
group_exists_batch (m ∷ ms) [] = []
group_exists_batch (m ∷ ms) (h ∷ hs) = merge_members (m ∷ ms) []
