-- ===== src/Peer/Answers.antt =====
-- That an answer lets the next run of a peer in, in src/wrtc_peer.cpp.
use phntm_bridge.Prelude.{
  ℕ, ◌≡◌, refl, sym, subst, ap, ◌∙◌, Bool, true, false, List, [], ◌∷◌, some, get_elem?, set_at,
  get_elem?-set_at, nat_eq, ◌&&◌, ◌||◌, arith, none, Option, Option-cases, inl, inr,
}
use phntm_bridge.Peer.Negotiation.{
  Phase, queued, waiting, offering, updating, over, Shared, Finds, run_step, on_sdp_answer,
  on_sio_offer_reply, disconnect, Peer, new_peer, Event, process, step, answer, reply, gone, handle,
  handle_all, caught,
}
use phntm_bridge.Peer.Turns.{is_offering, is_behind}

-- A peer that is connected has a connection.
abbrev HasPc : Peer → Type 0
HasPc p = p.shared.is_connected ≡ true → p.shared.has_pc ≡ true

run_step-HasPc :
    (f : Finds) (q : Phase) (s : Shared)
    → (s.is_connected ≡ true → s.has_pc ≡ true)
    → let s' = (run_step f q s).1 in s'.is_connected ≡ true → s'.has_pc ≡ true
unfolding run_step
run_step-HasPc f queued s h = ground (arith, h)
run_step-HasPc f (offering r) s h = ground (arith, h)
run_step-HasPc f (updating r) s h = ground (arith, h)
run_step-HasPc f waiting s h = ground (arith, h)
run_step-HasPc f over s h = ground (arith, h)

handle-HasPc : (e : Event) (p : Peer) → HasPc p → HasPc (handle e p)
unfolding handle on_sdp_answer on_sio_offer_reply disconnect
handle-HasPc process p h = h
handle-HasPc (step i f) p h = elim (Option-cases (get_elem? p.runs i)) [
  | inl n ↦ ground (arith, n, h)
  | inr (q, n) ↦ ground (arith, n, run_step-HasPc f q p.shared h)
]
handle-HasPc (answer takes_sdp) p h = ground (arith, h)
handle-HasPc (reply has_err takes_sdp) p h = ground (arith, h)
handle-HasPc gone p h = ground (arith, h)

handle_all-HasPc : (es : List Event) (p : Peer) → HasPc p → HasPc (handle_all es p)
unfolding handle_all
handle_all-HasPc [] p h = h
handle_all-HasPc (e ∷ es) p h = handle_all-HasPc es (handle e p) (handle-HasPc e p h)

-- An answer with a description that is taken, an error in its place, or the end of the peer.
abbrev releases : Event → Bool
releases process = false
releases (step i f) = false
releases (answer takes_sdp) = takes_sdp
releases (reply has_err takes_sdp) = has_err || takes_sdp
releases gone = true

caught-runs : (p : Peer) (o : Option Shared) → (caught p o).runs ≡ p.runs
caught-runs p none = refl
caught-runs p (some s) = refl

released :
    (e : Event) (p : Peer)
    → releases e ≡ true
    → HasPc p
    → let p' = handle e p in
      (p'.runs ≡ p.runs) × (p'.shared.awaiting_peer_reply && p'.shared.is_connected ≡ false)
unfolding handle on_sdp_answer on_sio_offer_reply disconnect
released process p r h = ground (arith, r)
released (step i f) p r h = ground (arith, r)
released (answer takes_sdp) p r h = (caught-runs p _, ground (arith, r, h))
released (reply has_err takes_sdp) p r h = (caught-runs p _, ground (arith, r, h))
released gone p r h = (refl, ground (arith, r))

step-over :
    (i : ℕ) (f : Finds) (p : Peer)
    → get_elem? p.runs i ≡ some waiting
    → p.shared.awaiting_peer_reply && p.shared.is_connected ≡ false
    → handle (step i f) p
      ≡ record { shared = record p.shared { locked = false }; runs = set_at i over p.runs }
unfolding handle run_step
step-over i f p h w = ground (arith, h, w)

step-enters :
    (j : ℕ) (f : Finds) (p : Peer)
    → get_elem? p.runs j ≡ some queued
    → p.shared.locked ≡ false
    → let p' = handle (step j f) p in
      (p'.shared.locked ≡ true)
      × ((q : Phase) × (get_elem? p'.runs j ≡ some q) × (is_offering q || is_behind q ≡ true))
unfolding handle run_step
step-enters j f p h l =
    let (q, s) = run_step f queued p.shared in
    (
      ground (arith, h, l),
      (q, ground (arith, h, (get_elem?-set_at p.runs j j queued q h).0), ground (arith, l)),
    )

-- From a new peer on and after any events, in which one run waits for an answer and another for the
-- mutex: when an answer comes whose session description is there and taken, or an error in its place,
-- or the peer goes, the first ends with its next step, and the other enters with its own.
pub answer_lets_next_in :
    (unset : Bool) (es : List Event) (e : Event) (i j : ℕ) (f g : Finds)
    → let p = handle_all es (new_peer unset) in
      get_elem? p.runs i ≡ some waiting
      → get_elem? p.runs j ≡ some queued
      → nat_eq i j ≡ false
      → releases e ≡ true
      → let p₁ = handle (step i f) (handle e p) in
        let p₂ = handle (step j g) p₁ in
        (get_elem? p₁.runs i ≡ some over)
        × (p₂.shared.locked ≡ true)
        × ((q : Phase) × (get_elem? p₂.runs j ≡ some q) × (is_offering q || is_behind q ≡ true))
answer_lets_next_in unset es e i j f g w k d r =
    let p = handle_all es (new_peer unset) in
    let (same, calm) = released e p r (handle_all-HasPc es (new_peer unset) (λ h. refl)) in
    let p' = handle e p in
    let w' : get_elem? p'.runs i ≡ some waiting = ap (λ x. get_elem? x i) same ∙ w in
    let (ends, kept) = get_elem?-set_at p'.runs i j waiting over w' in
    let ended = step-over i f p' w' calm in
    subst
      (λ p₁.
        (get_elem? p₁.runs i ≡ some over)
        × ((handle (step j g) p₁).shared.locked ≡ true)
        × ((q : Phase) × (get_elem? (handle (step j g) p₁).runs j ≡ some q)
            × (is_offering q || is_behind q ≡ true)))
      (sym ended)
      (let (l, q) = step-enters j g _ (kept d ∙ ap (λ x. get_elem? x j) same ∙ k) refl in
        (ends, l, q))
