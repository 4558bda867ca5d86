-- ===== src/Introspection/DockerLaws.antt =====
-- What is reported of the containers, in src/introspection.cpp, is up to date.
use phntm_bridge.Prelude.{
  ℕ, ◌≡◌, refl, sym, ◌∙◌, subst, true, false, Option, none, some, List, [], ◌∷◌, Str, ap, length,
  str_eq, if◌then◌else◌, find, assign, str_key, Bool-cases, find-assign, str_eq_iff, nat_eq_iff,
  arith, Option-cases, inl, inr,
}
use phntm_bridge.Introspection.Docker.{
  Container, DockerStatus, Hosts, host_of, any_differs, changed_at, note_status,
}

-- What the comparison looks at.
pub record Visible : Type 0 where
  pub id : Str
  pub name : Str
  pub status : ℕ

abbrev visible : List Container → List Visible
visible [] = []
visible (c ∷ cs) = record { id = c.id; name = c.name; status = c.status } ∷ visible cs

abbrev pub seen : Option DockerStatus → Option (List Visible)
seen none = none
seen (some s) = some (visible s.containers)

any_differs-visible :
    (cs ks : List Container)
    → length cs ≡ length ks
    → any_differs cs ks ≡ false
    → visible cs ≡ visible ks
unfolding any_differs
any_differs-visible [] [] l h = refl
any_differs-visible [] (k ∷ ks) l h = absurd (ground (arith, l))
any_differs-visible (c ∷ cs) [] l h = absurd (ground (arith, l))
any_differs-visible (c ∷ cs) (k ∷ ks) l h = ground (
  arith,
  l,
  h,
  any_differs-visible cs ks,
  str_eq_iff c.id k.id,
  str_eq_iff c.name k.name,
  nat_eq_iff c.status k.status,
)

assign-seen :
    (h j : Str) (msg old : DockerStatus) (hosts : Hosts)
    → find h hosts ≡ some old
    → visible msg.containers ≡ visible old.containers
    → seen (find j (assign h msg hosts)) ≡ seen (find j hosts)
assign-seen h j msg old hosts f v = elim (Bool-cases (str_eq h j)) [
  | inl b ↦ rw (find-assign h j msg hosts, b, sym ((str_eq_iff h j).0 b), f) (ap some v)
  | inr b ↦ rw (find-assign h j msg hosts, b) refl
]

note_status-unchanged :
    (msg : DockerStatus) (hosts hosts' : Hosts) (j : Str)
    → note_status msg hosts ≡ some (hosts', false)
    → seen (find j hosts') ≡ seen (find j hosts)
unfolding note_status
note_status-unchanged msg hosts hosts' j q = elim (Option-cases (find (host_of msg) hosts)) [
  | inl n ↦ ground (arith, n, q)
  | inr (old, f) ↦
      let (e, b) : (assign (host_of msg) msg hosts ≡ hosts') × (changed_at msg old ≡ false) =
        ground (arith, f, q) in
      let (l, d) : (length msg.containers ≡ length old.containers)
          × (any_differs msg.containers old.containers ≡ false) =
        unfold changed_at in ground (arith, b) in
      ap (λ m. seen (find j m)) (sym e)
      ∙ assign-seen (host_of msg) j msg old hosts f (any_differs-visible _ _ l d)
]

-- The messages of the topic, one after the other: the hosts, and the hosts at the last report.
unfoldable pub note_all : List DockerStatus → Hosts × Hosts → Option (Hosts × Hosts)
unfolding note_status
note_all [] s = some s
note_all (msg ∷ msgs) (hosts, reported) = elim (note_status msg hosts) [
  | none ↦ none
  | some (hosts', changed) ↦ note_all msgs (hosts', if changed then hosts' else reported)
]

abbrev Current : Hosts × Hosts → Type 0
Current (hosts, reported) = (j : Str) → seen (find j reported) ≡ seen (find j hosts)

note_all-Current :
    (msgs : List DockerStatus) (s t : Hosts × Hosts)
    → Current s
    → note_all msgs s ≡ some t
    → Current t
unfolding note_all
note_all-Current [] s t c q = subst Current (ground (arith, q)) c
note_all-Current (msg ∷ msgs) (hosts, reported) t c q =
    elim (Option-cases (note_status msg hosts)) [
      | inl n ↦ ground (arith, n, q)
      | inr ((hosts', true), n) ↦
          note_all-Current msgs (hosts', hosts') t (λ j. refl) (ground (arith, n, q))
      | inr ((hosts', false), n) ↦
          note_all-Current msgs (hosts', reported) t
            (λ j. c j ∙ sym (note_status-unchanged msg hosts hosts' j n)) (ground (arith, n, q))
    ]

-- After any messages of the agents, through which no container moved to a new host: the identifiers,
-- the names and the states of the containers of every host, as they were reported last, are those that
-- are known now.
pub note_all-reported :
    (msgs : List DockerStatus) (hosts reported : Hosts) (j : Str)
    → note_all msgs ([], []) ≡ some (hosts, reported)
    → seen (find j reported) ≡ seen (find j hosts)
note_all-reported msgs hosts reported j q =
    note_all-Current msgs ([], []) (hosts, reported) (λ j. refl) q j
