-- ===== src/Writer/Examples.antt =====
-- Writers of src/topic_writer_data.cpp, with concrete channels.
use phntm_bridge.Prelude.{refl, true, [], ◌∷◌, codes, find}
use phntm_bridge.Writer.{Writers, binary, get_for_dc}
use phntm_bridge.Writer.Routing.{Routed}
use phntm_bridge.Writer.Inputs.{asks, adds, removes, gets_data, handle_all, handle_all-Routed}

abbrev nothing : Writers
nothing = record { writers = []; dc_to_writer_map = []; published = [] }

handle_all-Routed_example : Routed (
    handle_all
      (asks (codes "/a") (codes "t")
        ∷ adds true (codes "/a") 4
        ∷ gets_data 4 (binary (codes "x"))
        ∷ removes true (codes "/a") 4
        ∷ [])
      nothing)
unfolding get_for_dc find
handle_all-Routed_example =
    handle_all-Routed
      (asks (codes "/a") (codes "t")
        ∷ adds true (codes "/a") 4
        ∷ gets_data 4 (binary (codes "x"))
        ∷ removes true (codes "/a") 4
        ∷ [])
      nothing (λ dc. refl)
