-- ===== src/Packages.antt =====
-- installExtraPackages of src/extra_packages.cpp. The files on the disk are the state; what
-- checkPackage answers for a package is an argument.
pub mod Runs
pub mod Commands
pub mod Examples
use phntm_bridge.Prelude.{
  ℕ, Bool, true, false, not, ◌&&◌, ◌||◌, Option, none, some, List, [], ◌∷◌, ◌++◌, Str, codes, mem,
  nat_key, str_key, str_eq, if◌then◌else◌,
}
use phntm_bridge.Text.{split}

-- The lock is IGNORE_PACKAGES_CHECK_FILE. `packages` is the key of that name in the log of checked
-- packages, `none` where the file or the key is not there.
pub record Disk : Type 0 where
  pub lock : Bool
  pub packages : Option (List Str)

-- The package of an entry of the configuration, and whether it is followed by :FORCE_CHECK.
unfoldable pub parse_entry : Str → Str × Bool
parse_entry one =
    if mem b':' one
    then elim (split b':' one) [
      | [] ↦ ([], false)
      | pkg ∷ [] ↦ (pkg, false)
      | pkg ∷ word ∷ more ↦ (pkg, str_eq word (codes "FORCE_CHECK"))
    ]
    else (one, false)

-- The log, packages_changed, and the packages that checkPackage was called with.
pub record Run : Type 0 where
  pub packages : Option (List Str)
  pub changed : Bool
  pub checks : List Str

abbrev pub listed : Option (List Str) → List Str
listed none = []
listed (some l) = l

-- One round of the loop over extra_packages.
unfoldable pub check_entry : (Str → Bool) → Str → Run → Run
unfolding parse_entry
check_entry check_package one r =
    let (pkg, force) = parse_entry one in
    let l = listed r.packages in
    let checked_before = mem pkg l in
    if checked_before && not force then r else record {
      packages = some (if checked_before then l else l ++ pkg ∷ []);
      changed = check_package pkg || r.changed;
      checks = r.checks ++ pkg ∷ [];
    }

unfoldable pub check_entries : (Str → Bool) → List Str → Run → Run
unfolding check_entry
check_entries check_package [] r = r
check_entries check_package (one ∷ ones) r =
    check_entries check_package ones (check_entry check_package one r)

-- The disk behind it, whether to restart, and the packages that were checked. The configuration is
-- `none` if it has no file or no list of packages.
unfoldable pub install_extra_packages :
    (Str → Bool) → Option (List Str) → Disk → Disk × Bool × List Str
unfolding check_entries
install_extra_packages check_package config d =
    if d.lock then (record d { lock = false }, false, []) else elim config [
      | none ↦ (d, false, [])
      | some entries ↦
          let r : Run =
            check_entries check_package entries
              (record { packages = d.packages; changed = false; checks = [] }) in
          (record { lock = r.changed; packages = r.packages }, r.changed, r.checks)
    ]
