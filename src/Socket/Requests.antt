-- ===== src/Socket/Requests.antt =====
-- The loops of the handlers of src/sio.cpp over the topics of a request.
use phntm_bridge.Prelude.{
  ◌≡◌, refl, ◌∙◌, Bool, false, not, ◌&&◌, ◌||◌, Option, none, some, List, [], ◌∷◌, Str, str_eq, mem,
  str_key, arith, inl, inr, Option-cases,
}
use phntm_bridge.Peer.Requests.{Once, add_read_lem, remove_read_lem}
use phntm_bridge.Socket.{
  Session, Item, add_reads, remove_reads, add_writes, remove_writes, add_pairs, add_pair,
  add_first_two,
}

-- The topics of a list of requests.
abbrev pub names : Str → List Item → Bool
names j [] = false
names j (i ∷ is) = str_eq i.string j || names j is

-- A request to subscribe adds the topics that it names to those that were asked for, each once, and
-- leaves the write requests alone.
pub add_reads_lem :
    (is : List Item) (s : Session)
    → Once s.req_read_subs
    → let s' = add_reads is s in
      Once s'.req_read_subs
      × (s'.req_write_subs ≡ s.req_write_subs)
      × ((j : Str) → mem j s'.req_read_subs ≡ mem j s.req_read_subs || names j is)
unfolding add_reads
add_reads_lem [] s o = (o, refl, λ j. ground arith)
add_reads_lem (i ∷ is) s o =
    let (o', _, one) = add_read_lem i.string s.req_read_subs o in
    let (o'', w, m) = add_reads_lem is _ o' in (o'', w, λ j. m j ∙ ground (arith, one j))

-- A request to unsubscribe takes out the topics that it names, and those alone.
pub remove_reads_lem :
    (is : List Item) (s : Session)
    → Once s.req_read_subs
    → let s' = remove_reads is s in
      Once s'.req_read_subs
      × (s'.req_write_subs ≡ s.req_write_subs)
      × ((j : Str) → mem j s'.req_read_subs ≡ mem j s.req_read_subs && not (names j is))
unfolding remove_reads
remove_reads_lem [] s o = (o, refl, λ j. ground arith)
remove_reads_lem (i ∷ is) s o =
    let (o', _, one) = remove_read_lem i.string s.req_read_subs o in
    let (o'', w, m) = remove_reads_lem is _ o' in (o'', w, λ j. m j ∙ ground (arith, one j))

add_pair-reads :
    (v : Option (List Str)) (s : Session) → (add_pair v s).req_read_subs ≡ s.req_read_subs
unfolding add_pair
add_pair-reads none s = refl
add_pair-reads (some []) s = refl
add_pair-reads (some (t ∷ [])) s = refl
add_pair-reads (some (t ∷ ty ∷ [])) s = refl
add_pair-reads (some (t ∷ ty ∷ x ∷ rest)) s = refl

pub add_pairs-reads :
    (is : List Item) (s : Session) → (add_pairs is s).req_read_subs ≡ s.req_read_subs
unfolding add_pairs
add_pairs-reads [] s = refl
add_pairs-reads (i ∷ is) s = add_pairs-reads is (add_pair i.vector s) ∙ add_pair-reads i.vector s

pub add_writes-reads :
    (is : List Item) (s s' : Session)
    → add_writes is s ≡ some s'
    → s'.req_read_subs ≡ s.req_read_subs
unfolding add_writes
add_writes-reads [] s s' h = ground (arith, h)
add_writes-reads (i ∷ is) s s' h = elim (Option-cases (add_first_two i.vector s)) [
  | inl q ↦ ground (arith, h, q)
  | inr (t, q) ↦ add_writes-reads is t s' (ground (arith, h, q)) ∙ two i.vector t q
]
  where
    two :
        (v : Option (List Str)) (t : Session)
        → add_first_two v s ≡ some t
        → t.req_read_subs ≡ s.req_read_subs
    two none t q = ground (arith, q)
    two (some []) t q = unfold add_first_two in ground (arith, q)
    two (some (a ∷ [])) t q = unfold add_first_two in ground (arith, q)
    two (some (a ∷ ty ∷ rest)) t q = unfold add_first_two in ground (arith, q)

pub remove_writes-reads :
    (is : List Item) (s : Session) → (remove_writes is s).req_read_subs ≡ s.req_read_subs
unfolding remove_writes
remove_writes-reads [] s = refl
remove_writes-reads (i ∷ is) s = remove_writes-reads is _
