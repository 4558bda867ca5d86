-- ===== src/Config/Examples.antt =====
-- Configurations of src/config.cpp with concrete texts.
use phntm_bridge.Prelude.{◌≡◌, refl, none, some, [], ◌∷◌, codes, mem, map}
use phntm_bridge.Text.{trim}
use phntm_bridge.Config.{CustomWidgetDef, load_defs}
use phntm_bridge.Config.Widgets.{print_entry, load_defs-print_entry}

abbrev joystick : CustomWidgetDef
joystick = record { class_name = codes "Joystick"; url = codes "https://a.io/joy.js" }

load_defs-print_entry_example :
    load_defs (map print_entry (some joystick ∷ none ∷ some joystick ∷ []))
    ≡ some (joystick ∷ joystick ∷ [])
unfolding trim mem
load_defs-print_entry_example =
    load_defs-print_entry (some joystick ∷ none ∷ some joystick ∷ [])
      ((refl, refl, refl, refl, refl), ((refl, refl, refl, refl, refl), tt))
