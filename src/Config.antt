-- ===== src/Config.antt =====
-- loadConfig of src/config.cpp: the definitions of widgets, and the lists that a configuration adds to
-- defaults. What a parameter holds is an argument; `none` is exit(1).
pub mod Lists
pub mod Widgets
pub mod Params
pub mod Topics
pub mod Examples
use phntm_bridge.Prelude.{
  ℕ, suc, zero, Bool, true, false, not, ◌&&◌, ◌||◌, Option, none, some, List, [], ◌∷◌, ◌++◌, Str,
  codes, nat_eq, str_eq, mem, str_key, length, is_empty, if◌then◌else◌,
}
use phntm_bridge.Text.{trim, whitespace, str_find}

pub record CustomWidgetDef : Type 0 where
  pub class_name : Str
  pub url : Str

-- The two texts around the first space. Without one, `pos` is npos: substr(0, pos) is the whole text,
-- and so is substr(pos + 1), since npos + 1 is 0.
unfoldable pub around_space : Str → Str × Str
around_space one = elim (str_find (codes " ") one) [ some parts ↦ parts | none ↦ (one, one) ]

unfoldable pub parse_custom_plugin_def : Str → Option CustomWidgetDef
unfolding around_space
parse_custom_plugin_def one =
    let (before, behind) = around_space one in
    let def : CustomWidgetDef = record {
      class_name = trim whitespace before;
      url = trim whitespace behind;
    } in
    if is_empty def.class_name || is_empty def.url then none else some def

-- The loop over custom_input_drivers, and that over custom_service_widgets.
unfoldable pub load_defs : List Str → Option (List CustomWidgetDef)
unfolding parse_custom_plugin_def
load_defs [] = some []
load_defs (one ∷ ones) =
    let rest = load_defs ones in
    if is_empty one then rest else elim (parse_custom_plugin_def one) [
      | none ↦ none
      | some def ↦ elim rest [ none ↦ none | some defs ↦ some (def ∷ defs) ]
    ]

-- ServiceWidgetConfig; `extra` is its JSON.
pub record ServiceWidgetConfig (J : Type 0) : Type 0 where
  pub service : Str
  pub class_name : Str
  extra : Option J

-- `throws`: substr(npos) is an std::out_of_range.
pub data Parsed (J : Type 0) : Type 0 where
  parsed : ServiceWidgetConfig J → Parsed J
  invalid : Parsed J
  throws : Parsed J

-- The assignment in front of the JSON, and the JSON with its bracket.
unfoldable pub around_json : Str → Str × Option Str
around_json one = elim (str_find (codes "{") one) [
  | none ↦ (trim whitespace one, none)
  | some (before, behind) ↦ (trim whitespace before, some (trim whitespace (codes "{" ++ behind)))
]

abbrev pub checked : {J : Type 0} → ServiceWidgetConfig J → Parsed J
checked conf = if is_empty conf.service || is_empty conf.class_name then invalid else parsed conf

-- `parse_json` is Json::Reader::parse.
unfoldable pub parse_service_widget_config : {J : Type 0} → (Str → Option J) → Str → Parsed J
unfolding around_json
parse_service_widget_config parse_json one =
    let (assignment, json) = around_json one in
    elim (str_find (codes " ") assignment) [
      | none ↦ throws
      | some (before, behind) ↦
          let service = trim whitespace before in
          let class_name = trim whitespace (codes " " ++ behind) in
          elim json [
            | none ↦ checked (record { service = service; class_name = class_name; extra = none })
            | some text ↦ elim (parse_json text) [
              | none ↦ invalid
              | some j ↦
                  checked (record { service = service; class_name = class_name; extra = some j })
            ]
          ]
    ]

-- The loops over collapse_services and blacklist_services: what is not there is added.
unfoldable pub add_custom : List Str → List Str → List Str
unfolding mem
add_custom l [] = l
add_custom l (one ∷ ones) = add_custom (if mem one l then l else l ++ one ∷ []) ones

-- A vector of texts, and an iterator of it: its storage and a place in it. A vector that never had an
-- entry has no storage, as in libstdc++, and its iterators are null.
pub record Vector : Type 0 where
  pub storage : ℕ
  pub items : List Str

pub data Iterator : Type 0 where
  nowhere : Iterator
  at_place : ℕ → ℕ → Iterator

unfoldable pub end_of : Vector → Iterator
end_of v = if is_empty v.items then nowhere else at_place v.storage (length v.items)

unfoldable pub same_place : Iterator → Iterator → Bool
same_place nowhere nowhere = true
same_place (at_place s i) (at_place t j) = nat_eq s t && nat_eq i j
same_place i j = false

-- std::find, as the number of entries in front of the first that is equal.
unfoldable index_of : Str → List Str → ℕ
index_of one [] = zero
index_of one (x ∷ xs) = let i = index_of one xs in if str_eq x one then zero else suc i

unfoldable pub find_in : Str → Vector → Iterator
unfolding index_of
find_in one v = if is_empty v.items then nowhere else at_place v.storage (index_of one v.items)

-- The loops over blacklist_topics and blacklist_msg_types: the result of std::find is compared with the
-- end of `other`, which is blacklist_services.
unfoldable pub add_blacklisted : Vector → Vector → List Str → Vector
unfolding find_in end_of same_place
add_blacklisted other v [] = v
add_blacklisted other v (one ∷ ones) =
    add_blacklisted other
      (if same_place (find_in one v) (end_of other)
        then record v { items = v.items ++ one ∷ [] }
        else v)
      ones
