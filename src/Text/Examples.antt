-- ===== src/Text/Examples.antt =====
-- src/lib.cpp on concrete texts.
use phntm_bridge.Prelude.{◌≡◌, refl, some, [], ◌∷◌, Str, codes, nat_key}
use phntm_bridge.Text.{trim, split, rsplit, join, whitespace}
use phntm_bridge.Text.Split.{join-split}

abbrev padded : Str
padded = codes "  a b "

abbrev path : Str
path = codes "/ns//node"

trim_runs : trim whitespace padded ≡ codes "a b"
unfolding trim
trim_runs = refl

split_runs : split 47 path ≡ [] ∷ codes "ns" ∷ [] ∷ codes "node" ∷ []
unfolding split
split_runs = refl

rsplit_runs : rsplit path 47 (some 1) ≡ codes "/ns/" ∷ codes "node" ∷ []
unfolding rsplit
rsplit_runs = refl

join-split_example : join (split 47 path) (47 ∷ []) ≡ path
join-split_example = join-split 47 path refl
