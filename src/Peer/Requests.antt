-- ===== src/Peer/Requests.antt =====
-- The requests of a peer: no topic twice.
use phntm_bridge.Prelude.{
  ◌≡◌, refl, true, false, not, ◌&&◌, ◌||◌, List, [], ◌∷◌, ◌++◌, Str, str_eq, str_eq_iff, mem,
  str_key, if◌then◌else◌, arith, append-nil,
}
use phntm_bridge.Peer.{
  add_req_read_subscription, remove_req_read_subscription, erase_first, add_req_write_subscription,
  drop_other_types, writes_to,
}

abbrev pub Once : List Str → Type 0
Once [] = Unit
Once (t ∷ ts) = (mem t ts ≡ false) × Once ts

mem-append : (t : Str) (xs ys : List Str) → mem t (xs ++ ys) ≡ mem t xs || mem t ys
unfolding mem
mem-append t [] ys = refl
mem-append t (x ∷ xs) ys = ground (arith, mem-append t xs ys)

Once-push : (t : Str) (ts : List Str) → Once ts → mem t ts ≡ false → Once (ts ++ t ∷ [])
unfolding mem
Once-push t [] o h = (refl, tt)
Once-push t (x ∷ ts) o h = (
  ground (arith, mem-append x ts (t ∷ []), str_eq_iff x t, str_eq_iff t x),
  Once-push t ts o.1 (ground arith),
)

mem-erase_first :
    (t j : Str) (ts : List Str) → Once ts → mem j (erase_first t ts) ≡ mem j ts && not (str_eq t j)
unfolding mem erase_first
mem-erase_first t j [] o = refl
mem-erase_first t j (x ∷ ts) o =
    ground (arith, mem-erase_first t j ts o.1, str_eq_iff x t, str_eq_iff x j, str_eq_iff t j)

Once-erase_first : (t : Str) (ts : List Str) → Once ts → Once (erase_first t ts)
unfolding erase_first
Once-erase_first t [] o = tt
Once-erase_first t (x ∷ ts) o =
    ground (arith, Once-erase_first t ts o.1, mem-erase_first t x ts o.1)

-- A read request adds the topic exactly if it was not asked for, and keeps the topics distinct.
pub add_read_lem :
    (t : Str) (ts : List Str)
    → Once ts
    → let (ts', added) = add_req_read_subscription t ts in
      Once ts' × (added ≡ not (mem t ts)) × ((j : Str) → mem j ts' ≡ mem j ts || str_eq t j)
unfolding add_req_read_subscription
add_read_lem t ts o = (
  ground (arith, Once-push t ts o),
  ground arith,
  λ j. ground (arith, mem-append j ts (t ∷ []), one j, str_eq_iff t j),
)
  where
    one : (j : Str) → mem j (t ∷ []) ≡ str_eq t j
    one j = unfold mem in ground arith

-- Its withdrawal takes the topic out, and it alone.
pub remove_read_lem :
    (t : Str) (ts : List Str)
    → Once ts
    → let (ts', removed) = remove_req_read_subscription t ts in
      Once ts' × (removed ≡ mem t ts) × ((j : Str) → mem j ts' ≡ mem j ts && not (str_eq t j))
unfolding remove_req_read_subscription
remove_read_lem t ts o = (
  ground (arith, Once-erase_first t ts o),
  ground arith,
  λ j. ground (arith, mem-erase_first t j ts o, str_eq_iff t j),
)

-- The topics of the write requests.
abbrev types_of : Str → List (Str × Str) → List Str
types_of topic [] = []
types_of topic ((t, ty) ∷ subs) =
    let rest = types_of topic subs in if str_eq t topic then ty ∷ rest else rest

-- Each topic has at most one write request.
abbrev OneType : List (Str × Str) → Type 0
OneType [] = Unit
OneType ((t, ty) ∷ subs) = (writes_to t subs ≡ false) × OneType subs

types_of-append :
    (t : Str) (xs ys : List (Str × Str)) → types_of t (xs ++ ys) ≡ types_of t xs ++ types_of t ys
types_of-append t [] ys = refl
types_of-append t ((x, ty) ∷ xs) ys = ground (arith, types_of-append t xs ys)

types_of-none : (t : Str) (xs : List (Str × Str)) → writes_to t xs ≡ false → types_of t xs ≡ []
unfolding writes_to
types_of-none t [] h = refl
types_of-none t ((x, ty) ∷ xs) h = ground (arith, types_of-none t xs)

writes_to-append :
    (t : Str) (xs ys : List (Str × Str)) → writes_to t (xs ++ ys) ≡ writes_to t xs || writes_to t ys
unfolding writes_to
writes_to-append t [] ys = refl
writes_to-append t ((x, ty) ∷ xs) ys = ground (arith, writes_to-append t xs ys)

-- The loop, on requests of one type for each topic.
drop_lem :
    (t ty : Str) (subs : List (Str × Str))
    → OneType subs
    → let (rest, go) = drop_other_types t ty subs in
      OneType rest
      × (go ≡ true → writes_to t rest ≡ false)
      × (go ≡ false → types_of t rest ≡ ty ∷ [])
      × ((j : Str) → str_eq t j ≡ false → types_of j rest ≡ types_of j subs)
      × ((j : Str) → str_eq t j ≡ false → writes_to j rest ≡ writes_to j subs)
unfolding drop_other_types writes_to
drop_lem t ty [] o = (tt, λ _. refl, λ h. ground (arith, h), λ j h. refl, λ j h. refl)
drop_lem t ty ((x, ty') ∷ subs) o =
    let (one, gone, kept, types, writes) = drop_lem t ty subs o.1 in
    (
      ground (arith, o, one, writes x, str_eq_iff x t, str_eq_iff t x),
      λ h. ground (arith, h, gone, o, str_eq_iff x t),
      λ h. ground (
        arith,
        h,
        kept,
        o,
        str_eq_iff x t,
        str_eq_iff ty' ty,
        types_of-none t subs,
        str_eq_iff t x,
      ),
      λ j h. ground (arith, h, types j h, str_eq_iff x t, str_eq_iff x j, str_eq_iff t j),
      λ j h. ground (arith, h, writes j h, str_eq_iff x t, str_eq_iff x j, str_eq_iff t j),
    )

OneType-push :
    (t ty : Str) (subs : List (Str × Str))
    → OneType subs
    → writes_to t subs ≡ false
    → OneType (subs ++ (t, ty) ∷ [])
unfolding writes_to
OneType-push t ty [] o h = (refl, tt)
OneType-push t ty ((x, ty') ∷ subs) o h = (
  ground (arith, o, h, writes_to-append x subs ((t, ty) ∷ []), str_eq_iff x t, str_eq_iff t x),
  OneType-push t ty subs o.1 (ground (arith, h)),
)

-- A write request leaves its topic with one entry, of the type that was asked for last, and the entries
-- of the other topics as they were; no topic gets two.
add_write_lem :
    (t ty : Str) (subs : List (Str × Str))
    → OneType subs
    → let subs' = (add_req_write_subscription t ty subs).0 in
      OneType subs'
      × ((j : Str) → types_of j subs' ≡ (if str_eq t j then ty ∷ [] else types_of j subs))
unfolding add_req_write_subscription
add_write_lem t ty subs o =
    let rest = (drop_other_types t ty subs).0 in
    let (one, gone, kept, types, writes) = drop_lem t ty subs o in
    let push = OneType-push t ty rest one in
    (
      ground (arith, one, gone, push),
      λ j. ground (
        arith,
        gone,
        kept,
        types j,
        types_of-append j rest ((t, ty) ∷ []),
        types_of-none t rest,
        append-nil (types_of j rest),
        str_eq_iff t j,
      ),
    )
