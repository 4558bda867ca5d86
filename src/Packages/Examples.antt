-- ===== src/Packages/Examples.antt =====
-- Extra packages of src/extra_packages.cpp, with concrete entries.
use phntm_bridge.Prelude.{
  ◌≡◌, refl, Bool, true, false, none, some, List, [], ◌∷◌, Str, codes, mem, str_eq,
}
use phntm_bridge.Packages.{Disk, install_extra_packages}
use phntm_bridge.Packages.Runs.{install_settles, install_again}

abbrev clean : Disk
clean = record { lock = false; packages = none }

abbrev entries : List Str
entries = codes "/ros2_ws/arm" ∷ codes "usb_cam" ∷ []

abbrev installs : Str → Bool
installs pkg = true

install_settles_example :
    (install_extra_packages installs
      (some entries)
      (install_extra_packages installs (some entries) clean).0).1
    ≡ false
unfolding install_extra_packages mem str_eq
install_settles_example = install_settles installs installs (some entries) (some entries) clean refl

install_again_example :
    (let d' = (install_extra_packages installs (some entries) clean).0 in
      install_extra_packages installs (some entries) (record d' { lock = false }))
    ≡ (
      record {
        lock = false;
        packages = (install_extra_packages installs (some entries) clean).0.packages;
      },
      false,
      [],
    )
unfolding install_extra_packages mem str_eq
install_again_example = install_again installs installs entries clean refl refl
