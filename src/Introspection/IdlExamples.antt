-- ===== src/Introspection/IdlExamples.antt =====
-- The collection of message definitions of src/introspection.cpp, on a disk with two files.
use phntm_bridge.Prelude.{
  ◌≡◌, refl, sym, ap, Bool, true, false, ◌||◌, ◌++◌, none, some, List, [], ◌∷◌, Str, codes, str_eq,
  mem, if◌then◌else◌, length, length-append, arith, Option, All, find, str_key, str_eq_iff,
  Bool-cases, any, is_empty, inl, inr,
}
use phntm_bridge.Text.{split}
use phntm_bridge.Introspection.Idls.{
  Disk, Idls, idl_path, get_interface_idl_path, collect_each, collect_idls, no_suffix,
}
use phntm_bridge.Introspection.Includes.{Good, Settled, collect_idls-closed}

-- Two definitions that include each other.
abbrev disk : Disk
disk = record {
  has_resource = λ p. some (codes "/opt");
  exists =
      λ path. str_eq path (codes "/opt/share/a/B.idl") || str_eq path (codes "/opt/share/a/C.idl");
  read = λ path.
      if str_eq path (codes "/opt/share/a/B.idl")
      then codes "#include a/C.idl"
      else codes "#include a/B.idl";
}

abbrev on_disk : List Str
on_disk = codes "a/B" ∷ codes "a/B.idl" ∷ codes "a/C" ∷ codes "a/C.idl" ∷ []

append_cancel : (xs ys zs : Str) → xs ++ zs ≡ ys ++ zs → xs ≡ ys
append_cancel [] [] zs h = refl
append_cancel [] (y ∷ ys) zs h = absurd (omega (arith, ap length h, length-append (y ∷ ys) zs))
append_cancel (x ∷ xs) [] zs h = absurd (omega (arith, ap length h, length-append (x ∷ xs) zs))
append_cancel (x ∷ xs) (y ∷ ys) zs h = ground (arith, h, append_cancel xs ys zs)

one : (t s e : Str) → str_eq (t ++ s) (e ++ s) ≡ true → str_eq e t ≡ true
one t s e h = (str_eq_iff e t).1 (sym (append_cancel t e s ((str_eq_iff (t ++ s) (e ++ s)).0 h)))

found :
    (t : Str) (b : Bool)
    → disk.exists (codes "/opt" ++ (codes "/share/" ++ (t ++ (if b then codes ".idl" else []))))
      ≡ true
    → mem t on_disk ≡ true
unfolding str_eq mem
found t true h =
    ground (arith, h, one t (codes ".idl") (codes "a/B"), one t (codes ".idl") (codes "a/C"))
found t false h = ground (arith, h, one t [] (codes "a/B.idl"), one t [] (codes "a/C.idl"))

files : (t path : Str) → idl_path disk [] t ≡ some path → mem t on_disk ≡ true
unfolding idl_path get_interface_idl_path
files t path h = by_parts (split 47 t) h
  where
    by_parts :
        (parts : List Str)
        → let o : Option Str = elim parts [
          | [] ↦ none
          | p ∷ [] ↦ none
          | p ∷ q ∷ ps ↦
              let ks = p ∷ q ∷ ps in
              if any is_empty ks || mem (codes "..") ks
              then none
              else (let path =
                    codes "/opt"
                    ++ (codes "/share/" ++ (t ++ (if no_suffix ks then codes ".idl" else []))) in
                  if disk.exists path then some path else none)
        ] in
          o ≡ some path → mem t on_disk ≡ true
    by_parts [] h = ground (arith, h)
    by_parts (p ∷ []) h = ground (arith, h)
    by_parts (p ∷ q ∷ ps) h =
        elim (Bool-cases (any is_empty (p ∷ q ∷ ps) || mem (codes "..") (p ∷ q ∷ ps))) [
          | inl b ↦ ground (arith, h, b)
          | inr b ↦ found t (no_suffix (p ∷ q ∷ ps)) (ground (arith, h, b))
        ]

collect_idls-closed_example :
    (m : Idls) × (collect_each (collect_idls 5 disk []) (codes "a/B" ∷ []) [] ≡ some m)
    × ((j v : Str) → find j m ≡ some v → Good disk [] m j v)
    × All (Settled disk [] m) (codes "a/B" ∷ [])
collect_idls-closed_example = collect_idls-closed disk [] on_disk (codes "a/B" ∷ []) files
