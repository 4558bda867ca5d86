-- ===== src/Config/Widgets.antt =====
-- The definitions of widgets in src/config.cpp.
use phntm_bridge.Prelude.{
  ◌≡◌, refl, false, Option, none, some, List, [], ◌∷◌, ◌++◌, Str, codes, mem, nat_key, is_empty,
  arith, map,
}
use phntm_bridge.Text.{trim, whitespace, str_find, strip_prefix}
use phntm_bridge.Config.{
  CustomWidgetDef, around_space, parse_custom_plugin_def, load_defs, throws, around_json,
  parse_service_widget_config,
}

-- The first space, in front of which there is none.
find_space : (s t : Str) → mem b' ' s ≡ false → str_find (codes " ") (s ++ b' ' ∷ t) ≡ some (s, t)
unfolding str_find strip_prefix mem
find_space [] t h = refl
find_space (c ∷ s) t h = ground (arith, find_space s t)

no_space : (s : Str) → mem b' ' s ≡ false → str_find (codes " ") s ≡ none
unfolding str_find strip_prefix mem
no_space [] h = refl
no_space (c ∷ s) h = ground (arith, no_space s)

-- What a name or a URL is, that stands as it is in a definition: trimmed, not empty, and the name with
-- no space in it.
abbrev Fits : CustomWidgetDef → Type 0
Fits def =
    (mem b' ' def.class_name ≡ false)
    × (trim whitespace def.class_name ≡ def.class_name)
    × (trim whitespace def.url ≡ def.url)
    × (is_empty def.class_name ≡ false)
    × (is_empty def.url ≡ false)

abbrev AllFit : List CustomWidgetDef → Type 0
AllFit [] = Unit {0}
AllFit (def ∷ defs) = Fits def × AllFit defs

-- A definition as a configuration has it.
abbrev print_def : CustomWidgetDef → Str
print_def def = def.class_name ++ b' ' ∷ def.url

parse_custom_plugin_def-print_def :
    (def : CustomWidgetDef) → Fits def → parse_custom_plugin_def (print_def def) ≡ some def
unfolding parse_custom_plugin_def around_space
parse_custom_plugin_def-print_def def (s, n, u, a, b) =
    ground (arith, find_space def.class_name def.url s)

print_def-full : (def : CustomWidgetDef) → is_empty (print_def def) ≡ false
print_def-full def = full def.class_name
  where
    full : (s : Str) → is_empty (s ++ b' ' ∷ def.url) ≡ false
    full [] = refl
    full (c ∷ s) = refl

-- The texts of a configuration: a definition, or nothing.
abbrev pub print_entry : Option CustomWidgetDef → Str
print_entry none = []
print_entry (some def) = print_def def

abbrev pub entries : List (Option CustomWidgetDef) → List CustomWidgetDef
entries [] = []
entries (none ∷ os) = entries os
entries (some def ∷ os) = def ∷ entries os

-- The definitions of a configuration, among which empty texts stand anywhere, are loaded as they were
-- written and in their order, if each is a name without a space, a space and a URL, both trimmed and
-- not empty.
pub load_defs-print_entry :
    (os : List (Option CustomWidgetDef))
    → AllFit (entries os)
    → load_defs (map print_entry os) ≡ some (entries os)
unfolding load_defs
load_defs-print_entry [] h = refl
load_defs-print_entry (none ∷ os) h = load_defs-print_entry os h
load_defs-print_entry (some def ∷ os) (f, fs) =
    let ih = load_defs-print_entry os fs in
    let p = parse_custom_plugin_def-print_def def f in
    let q = print_def-full def in ground (arith, ih, p, q)

-- A definition without a space is not refused: its one word is both the name and the URL.
parse_custom_plugin_def_word :
    (s : Str)
    → mem b' ' s ≡ false
    → trim whitespace s ≡ s
    → is_empty s ≡ false
    → parse_custom_plugin_def s ≡ some (record { class_name = s; url = s })
unfolding parse_custom_plugin_def around_space
parse_custom_plugin_def_word s h t e = ground (arith, no_space s h)

-- A service widget without a name of a class, whose trimmed text has no space and no bracket, throws an
-- exception, whatever reads the JSON.
parse_service_widget_config_throws :
    {J : Type 0} (parse_json : Str → Option J) (s : Str)
    → str_find (codes "{") s ≡ none
    → mem b' ' (trim whitespace s) ≡ false
    → parse_service_widget_config parse_json s ≡ throws
unfolding parse_service_widget_config around_json str_find
parse_service_widget_config_throws parse_json s b h =
    rw (b, parse_service_widget_config) (rw (no_space (trim whitespace s) h) refl)
