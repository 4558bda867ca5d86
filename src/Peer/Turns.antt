-- ===== src/Peer/Turns.antt =====
-- The runs of a peer in src/wrtc_peer.cpp take turns.
use phntm_bridge.Prelude.{
  zero, suc, ◌<◌, ◌≤◌, ℕ, ◌+◌, ◌≡◌, refl, sym, subst, Bool, true, false, Option, none, some, List,
  [], ◌∷◌, ◌++◌, get_elem?, set_at, count, count-set_at, arith, Option-cases, inl, inr,
  if◌then◌else◌,
}
use phntm_bridge.Peer.Negotiation.{
  Phase, queued, offering, updating, waiting, over, Shared, Finds, run_step, on_sdp_answer,
  on_sio_offer_reply, disconnect, Peer, new_peer, Event, process, step, answer, reply, gone, handle,
  handle_all, caught,
}

-- Between its lock and its offer.
abbrev pub is_offering : Phase → Bool
is_offering queued = false
is_offering (offering r) = true
is_offering (updating r) = false
is_offering waiting = false
is_offering over = false

-- Behind the offer or without one, up to its unlock.
abbrev pub is_behind : Phase → Bool
is_behind queued = false
is_behind (offering r) = false
is_behind (updating r) = true
is_behind waiting = true
is_behind over = false

abbrev pub is_past : Phase → Bool
is_past queued = false
is_past (offering r) = true
is_past (updating r) = true
is_past waiting = true
is_past over = true

abbrev pub one_if : Bool → ℕ
one_if b = if b then 1 else 0

-- The mutex is held by one run, or free and every run outside; nothing is awaited while that run
-- makes its offer; and once a run has entered, what is awaited from a peer that is connected is
-- awaited by the run that holds it, behind its offer.
abbrev Exclusive : ℕ → ℕ → ℕ → Shared → Type 0
Exclusive offers behind past s =
    (offers + behind ≡ one_if s.locked)
    × (offers ≡ 1 → s.awaiting_peer_reply ≡ false)
    × (s.awaiting_peer_reply ≡ true → s.is_connected ≡ true → 0 < past → behind ≡ 1)

run_step-Exclusive :
    (f : Finds) (q : Phase) (s : Shared) (n m k n' m' k' : ℕ)
    → Exclusive n m k s
    → let (q', s') = run_step f q s in
      n' + one_if (is_offering q) ≡ n + one_if (is_offering q')
      → m' + one_if (is_behind q) ≡ m + one_if (is_behind q')
      → k' + one_if (is_past q) ≡ k + one_if (is_past q')
      → one_if (is_past q) ≤ k
      → Exclusive n' m' k' s'
unfolding run_step
run_step-Exclusive f queued s n m k n' m' k' e p q r l = ground (arith, e, p, q, r, l)
run_step-Exclusive f (offering x) s n m k n' m' k' e p q r l = ground (arith, e, p, q, r, l)
run_step-Exclusive f (updating x) s n m k n' m' k' e p q r l = ground (arith, e, p, q, r, l)
run_step-Exclusive f waiting s n m k n' m' k' e p q r l = ground (arith, e, p, q, r, l)
run_step-Exclusive f over s n m k n' m' k' e p q r l = ground (arith, e, p, q, r, l)

-- An element that passes the test is counted.
count-get_elem? :
    (test : Phase → Bool) (runs : List Phase) (i : ℕ) (q : Phase)
    → get_elem? runs i ≡ some q
    → one_if (test q) ≤ count test runs
count-get_elem? test [] i q h = ground (arith, h)
count-get_elem? test (r ∷ runs) zero q h = ground (arith, h)
count-get_elem? test (r ∷ runs) (suc i) q h = ground (arith, h, count-get_elem? test runs i q)

abbrev TakeTurns : Peer → Type 0
TakeTurns p =
    Exclusive (count is_offering p.runs) (count is_behind p.runs) (count is_past p.runs) p.shared

count-queued :
    (test : Phase → Bool) (runs : List Phase)
    → test queued ≡ false
    → count test (runs ++ queued ∷ []) ≡ count test runs
count-queued test [] h = ground (arith, h)
count-queued test (r ∷ runs) h = ground (arith, count-queued test runs h)

caught-TakeTurns :
    (p : Peer) (o : Option Shared)
    → ((s : Shared) → o ≡ some s → (s.locked ≡ p.shared.locked) × (s.awaiting_peer_reply ≡ false))
    → TakeTurns p
    → TakeTurns (caught p o)
caught-TakeTurns p none h t = t
caught-TakeTurns p (some s) h t = ground (arith, h s refl, t)

answer-calm :
    (takes_sdp : Bool) (s t : Shared)
    → on_sdp_answer takes_sdp s ≡ some t
    → (t.locked ≡ s.locked) × (t.awaiting_peer_reply ≡ false)
unfolding on_sdp_answer
answer-calm takes_sdp s t h = ground (arith, h)

reply-calm :
    (has_err takes_sdp : Bool) (s t : Shared)
    → on_sio_offer_reply has_err takes_sdp s ≡ some t
    → (t.locked ≡ s.locked) × (t.awaiting_peer_reply ≡ false)
unfolding on_sio_offer_reply
reply-calm true takes_sdp s t h = ground (arith, h)
reply-calm false takes_sdp s t h = answer-calm takes_sdp s t h

handle-TakeTurns : (e : Event) (p : Peer) → TakeTurns p → TakeTurns (handle e p)
unfolding handle
handle-TakeTurns process p t = ground (
  arith,
  t,
  count-queued is_offering p.runs refl,
  count-queued is_behind p.runs refl,
  count-queued is_past p.runs refl,
)
handle-TakeTurns (step i f) p t = elim (Option-cases (get_elem? p.runs i)) [
  | inl n ↦ subst (λ o. TakeTurns (stepped o)) (sym n) t
  | inr (q, n) ↦
      subst (λ o. TakeTurns (stepped o)) (sym n)
        (run_step-Exclusive f q p.shared _ _ _ _ _ _ t
          (count-set_at is_offering p.runs i q (run_step f q p.shared).0 n).0
          (count-set_at is_behind p.runs i q (run_step f q p.shared).0 n).0
          (count-set_at is_past p.runs i q (run_step f q p.shared).0 n).0
          (count-get_elem? is_past p.runs i q n))
]
  where
    stepped : Option Phase → Peer
    stepped o = elim o [
      | none ↦ p
      | some q ↦
          let (q', s) = run_step f q p.shared in record { shared = s; runs = set_at i q' p.runs }
    ]
handle-TakeTurns (answer takes_sdp) p t =
    caught-TakeTurns p _ (λ s h. answer-calm takes_sdp p.shared s h) t
handle-TakeTurns (reply has_err takes_sdp) p t =
    caught-TakeTurns p _ (λ s h. reply-calm has_err takes_sdp p.shared s h) t
handle-TakeTurns gone p t = unfold disconnect in ground (arith, t)

handle_all-TakeTurns : (es : List Event) (p : Peer) → TakeTurns p → TakeTurns (handle_all es p)
unfolding handle_all
handle_all-TakeTurns [] p t = t
handle_all-TakeTurns (e ∷ es) p t = handle_all-TakeTurns es (handle e p) (handle-TakeTurns e p t)

-- From a new peer on, whatever its awaiting_peer_reply is, and through any runs, answers and replies,
-- in any order: at most one run is between its lock and its unlock, and the mutex is held while there
-- is one; nothing is awaited while a run waits for its local offer; and once a run has entered, an
-- answer that is awaited from a peer that is connected is awaited by the run that holds the mutex,
-- behind its offer.
pub runs_take_turns :
    (unset : Bool) (es : List Event)
    → let p = handle_all es (new_peer unset) in
      (count is_offering p.runs + count is_behind p.runs ≡ one_if p.shared.locked)
      × (count is_offering p.runs ≡ 1 → p.shared.awaiting_peer_reply ≡ false)
      × (p.shared.awaiting_peer_reply ≡ true
          → p.shared.is_connected ≡ true
          → 0 < count is_past p.runs
          → count is_behind p.runs ≡ 1)
runs_take_turns unset es =
    handle_all-TakeTurns es (new_peer unset)
      (refl, (λ h. ground (arith, h)), λ a b c. ground (arith, c))
