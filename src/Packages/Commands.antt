-- ===== src/Packages/Commands.antt =====
-- runCmd and checkPackage of src/extra_packages.cpp. What the commands and the XML of a package answer
-- is an argument.
use phntm_bridge.Prelude.{
  ℕ, ◌≡◌, Bool, true, false, ◌&&◌, Option, none, some, [], ◌∷◌, ◌++◌, Str, codes, nat_eq,
  if◌then◌else◌, arith,
}
use phntm_bridge.Text.{replace}

-- The status of pclose: WIFEXITED with its code, WIFSIGNALED, or neither.
pub data Status : Type 0 where
  exited : ℕ → Status
  signaled : Status
  stopped : Status

-- What popen gives for a command, and what stands in a directory: package.xml, and in it `package`,
-- `export`, `build_type` and `name`.
pub record Shell : Type 0 where
  ros_distro : Str
  popen : Str → Option Status
  has_xml : Str → Bool
  has_root : Str → Bool
  has_export : Str → Bool
  has_build_type : Str → Bool
  has_name : Str → Bool

unfoldable run_cmd : Shell → Str → Bool
run_cmd sh cmd =
    elim (sh.popen (
      codes ". /ros2_ws/ros2_py_venv/bin/activate && "
      ++ (cmd ++ codes " 2>/tmp/phntm_pkg_cmd_err.txt"))) [
        | none ↦ false
        | some (exited code) ↦ nat_eq code 0
        | some signaled ↦ false
        | some stopped ↦ false
      ]

abbrev is_directory : Str → Bool
is_directory [] = false
is_directory (c ∷ s) = nat_eq c b'/'

-- The name of the package of apt-get. `replace` is total for a search text that is not empty.
unfoldable apt_name : Shell → Str → Str
apt_name sh pkg =
    codes "ros-"
    ++ (sh.ros_distro
        ++ (codes "-"
            ++ elim (replace pkg (codes "_") (codes "-")) [ some name ↦ name | none ↦ pkg ]))

unfoldable pub check_package : Shell → Str → Bool
unfolding run_cmd apt_name
check_package sh pkg =
    if is_directory pkg
    then (sh.has_xml pkg
        && (sh.has_root pkg
            && (sh.has_export pkg
                && (sh.has_build_type pkg
                    && (sh.has_name pkg
                        && (run_cmd sh (
                              codes "/usr/bin/rosdep install -i --from-path "
                              ++ (pkg ++ (codes " --rosdistro " ++ (sh.ros_distro ++ codes " -y"))))
                            && run_cmd sh (
                                codes "/usr/bin/colcon build --symlink-install --base-path "
                                ++ pkg)))))))
    else run_cmd sh (codes "/usr/bin/apt-get install -y " ++ apt_name sh pkg)

-- A directory without a package.xml that has all of what is looked for is refused, whatever the
-- commands answer.
check_package_unread :
    (sh : Shell) (pkg : Str) (popen : Str → Option Status)
    → is_directory pkg ≡ true
    → sh.has_xml pkg
        && (sh.has_root pkg && (sh.has_export pkg && (sh.has_build_type pkg && sh.has_name pkg)))
      ≡ false
    → check_package (record sh { popen = popen }) pkg ≡ false
unfolding check_package
check_package_unread sh pkg popen d h = ground (arith, d, h)
