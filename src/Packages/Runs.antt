-- ===== src/Packages/Runs.antt =====
-- One run of installExtraPackages of src/extra_packages.cpp after another.
use phntm_bridge.Prelude.{
  ◌≡◌, refl, ap, ◌∙◌, Bool, true, false, not, ◌&&◌, ◌||◌, Option, none, some, List, [], ◌∷◌, ◌++◌,
  Str, mem, str_key, str_eq, str_eq_refl, arith,
}
use phntm_bridge.Packages.{
  Disk, Run, parse_entry, listed, check_entry, check_entries, install_extra_packages,
}

-- A run that asks for a restart is followed by one that does not, whatever the configurations are and
-- the packages answer: the restarts come to an end.
pub install_settles :
    (check later : Str → Bool) (config config' : Option (List Str)) (d : Disk)
    → (install_extra_packages check config d).1 ≡ true
    → (install_extra_packages later config' (install_extra_packages check config d).0).1 ≡ false
unfolding install_extra_packages
install_settles check later none config' d h = ground arith
install_settles check later (some entries) none d h = ground arith
install_settles check later (some entries) (some entries') d h = ground arith

mem-append_one : (j x : Str) (l : List Str) → mem j (l ++ x ∷ []) ≡ mem j l || str_eq x j
unfolding mem
mem-append_one j x [] = ground arith
mem-append_one j x (y ∷ l) = ground (arith, mem-append_one j x l)

check_entry-keeps :
    (check : Str → Bool) (one : Str) (r : Run) (j : Str)
    → mem j (listed r.packages) ≡ true
    → mem j (listed (check_entry check one r).packages) ≡ true
unfolding check_entry
check_entry-keeps check one r j h =
    ground (arith, mem-append_one j (parse_entry one).0 (listed r.packages))

check_entry-lists :
    (check : Str → Bool) (one : Str) (r : Run)
    → mem (parse_entry one).0 (listed (check_entry check one r).packages) ≡ true
unfolding check_entry
check_entry-lists check one r = ground (
  arith,
  mem-append_one (parse_entry one).0 (parse_entry one).0 (listed r.packages),
  str_eq_refl (parse_entry one).0,
)

check_entries-keeps :
    (check : Str → Bool) (ones : List Str) (r : Run) (j : Str)
    → mem j (listed r.packages) ≡ true
    → mem j (listed (check_entries check ones r).packages) ≡ true
unfolding check_entries
check_entries-keeps check [] r j h = h
check_entries-keeps check (one ∷ ones) r j h =
    check_entries-keeps check ones (check_entry check one r) j (check_entry-keeps check one r j h)

-- No entry asks for a check by force, and each package of the list is among those given.
abbrev none_forced : List Str → Bool
none_forced [] = true
none_forced (one ∷ ones) = not (parse_entry one).1 && none_forced ones

abbrev all_listed : List Str → Option (List Str) → Bool
all_listed [] l = true
all_listed (one ∷ ones) l = mem (parse_entry one).0 (listed l) && all_listed ones l

check_entries-all_listed :
    (check : Str → Bool) (ones : List Str) (r : Run)
    → all_listed ones (check_entries check ones r).packages ≡ true
unfolding check_entries
check_entries-all_listed check [] r = refl
check_entries-all_listed check (one ∷ ones) r =
    let r' = check_entry check one r in
    ground (
      arith,
      check_entries-all_listed check ones r',
      check_entries-keeps check ones r' (parse_entry one).0 (check_entry-lists check one r),
    )

check_entry-nothing :
    (check : Str → Bool) (one : Str) (r : Run)
    → (parse_entry one).1 ≡ false
    → mem (parse_entry one).0 (listed r.packages) ≡ true
    → check_entry check one r ≡ r
unfolding check_entry
check_entry-nothing check one r h k = ground arith

check_entries-nothing :
    (check : Str → Bool) (ones : List Str) (r : Run)
    → none_forced ones ≡ true
    → all_listed ones r.packages ≡ true
    → check_entries check ones r ≡ r
unfolding check_entries
check_entries-nothing check [] r h k = refl
check_entries-nothing check (one ∷ ones) r h k =
    let e = check_entry-nothing check one r (ground (arith, h)) (ground (arith, k)) in
    ap (check_entries check ones) e
    ∙ check_entries-nothing check ones r (ground (arith, h)) (ground (arith, k))

-- After a run without a lock, a later run of the same configuration without a lock checks nothing,
-- asks for no restart and leaves the log as it is, if no entry asks for a check by force.
pub install_again :
    (check later : Str → Bool) (entries : List Str) (d : Disk)
    → d.lock ≡ false
    → none_forced entries ≡ true
    → (let d' = (install_extra_packages check (some entries) d).0 in
        install_extra_packages later (some entries) (record d' { lock = false }))
      ≡ (
        record {
          lock = false;
          packages = (install_extra_packages check (some entries) d).0.packages;
        },
        false,
        [],
      )
unfolding install_extra_packages
install_again check later entries d h k =
    let r : Run =
      check_entries check entries
        (record { packages = d.packages; changed = false; checks = [] }) in
    let idle : Run = record { packages = r.packages; changed = false; checks = [] } in
    let e : check_entries later entries idle ≡ idle = check_entries-nothing later entries idle k (
      check_entries-all_listed check entries
        (record { packages = d.packages; changed = false; checks = [] })) in
    ground (arith, h, e)
