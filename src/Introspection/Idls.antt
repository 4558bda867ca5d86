-- ===== src/Introspection/Idls.antt =====
-- getInterfaceIDLPath and Introspection::collectIDLs of src/introspection.cpp: the definition of a message
-- type, read from its file, and those that it includes.
use phntm_bridge.Prelude.{
  ℕ, zero, suc, Bool, true, false, not, ◌&&◌, ◌||◌, Option, none, some, List, [], ◌∷◌, ◌++◌, Str,
  codes, is_empty, is_some, any, mem, if◌then◌else◌, Map, contains, emplace, str_key,
}
use phntm_bridge.Text.{split, rsplit, strip_prefix, str_find, replace, trim, whitespace}

-- ament_index_cpp::has_resource for a package, whose prefix does not end in a slash, and the disk:
-- whether a file is there, and what is read of it.
pub record Disk : Type 0 where
  pub has_resource : Str → Option Str
  pub exists : Str → Bool
  pub read : Str → Str

-- Its last part has no suffix.
abbrev pub no_suffix : List Str → Bool
no_suffix [] = true
no_suffix (p ∷ []) = elim (rsplit p 46 (some 1)) [ p ∷ [] ↦ true | _ ↦ false ]
no_suffix (p ∷ q ∷ ps) = no_suffix (q ∷ ps)

-- `none` stands for the empty path, with which a name is refused.
unfoldable pub get_interface_idl_path : Disk → Str → Option Str
unfolding split rsplit mem
get_interface_idl_path disk name = elim (split 47 name) [
  | [] ↦ none
  | p ∷ [] ↦ none
  | p ∷ q ∷ ps ↦
      let parts = p ∷ q ∷ ps in
      if any is_empty parts || mem (codes "..") parts then none else elim (disk.has_resource p) [
        | none ↦ none
        | some prefix ↦
            let path =
              prefix
              ++ (codes "/share/" ++ (name ++ (if no_suffix parts then codes ".idl" else []))) in
            if disk.exists path then some path else none
      ]
]

abbrev starts_with : Str → Str → Bool
starts_with prefix line = is_some (strip_prefix prefix line)

-- What `replace` gives for a search text that is not empty; it ends then.
abbrev without : Str → Str → Str
without search line = elim (replace line search []) [ none ↦ line | some l ↦ l ]

-- The message type that a line includes.
unfoldable included : Str → Option Str
unfolding replace trim str_find strip_prefix
included line =
    if starts_with (codes "#include") line && is_some (str_find (codes ".idl") line)
    then some (
        without (codes ".idl")
          (trim (whitespace ++ 34 ∷ 39 ∷ []) (without (codes "#include") line)))
    else none

-- The loop over the lines: the text that is kept, and the types that are included. Comments are left
-- out, and so are the empty lines before the first other one.
unfoldable pub clear_lines : Bool → List Str → Str × List Str
unfolding included
clear_lines first_valid_line [] = ([], [])
clear_lines first_valid_line (line ∷ lines) =
    if starts_with (codes "//") line || (is_empty line && not first_valid_line)
    then clear_lines first_valid_line lines
    else (let (text, types) = clear_lines true lines in
        (line ++ (10 ∷ text), elim (included line) [ none ↦ types | some t ↦ t ∷ types ]))

-- The file of a type that is neither in the blacklist nor known, and can be found.
unfoldable pub idl_path : Disk → List Str → Str → Option Str
unfolding get_interface_idl_path mem
idl_path disk blacklist t = if mem t blacklist then none else get_interface_idl_path disk t

abbrev pub read_idl : Disk → Str → Str × List Str
read_idl disk path = clear_lines false (split 10 (disk.read path))

abbrev pub Idls : Type 0
Idls = Map Str Str

-- The loop over the included types, for a function that collects one.
unfoldable pub collect_each : (Str → Idls → Option (Idls × Bool)) → List Str → Idls → Option Idls
collect_each collect [] idls = some idls
collect_each collect (t ∷ ts) idls = elim (collect t idls) [
  | none ↦ none
  | some (idls', added) ↦ collect_each collect ts idls'
]

-- collectIDLs, on fuel: `none` means that it ran out. The Boolean is whether the definition of the type
-- was added.
unfoldable pub collect_idls : ℕ → Disk → List Str → Str → Idls → Option (Idls × Bool)
unfolding collect_each idl_path clear_lines
collect_idls zero disk blacklist t idls = none
collect_idls (suc fuel) disk blacklist t idls =
    if contains t idls then some (idls, false) else elim (idl_path disk blacklist t) [
      | none ↦ some (idls, false)
      | some path ↦
          let (text, types) = read_idl disk path in
          elim (collect_each (collect_idls fuel disk blacklist) types (emplace t text idls)) [
            | none ↦ none
            | some idls' ↦ some (idls', true)
          ]
    ]
