-- ===== src/Peer/Idle.antt =====
-- That a run of src/wrtc_peer.cpp that negotiates nothing waits for nothing.
use phntm_bridge.Prelude.{ℕ, ◌≡◌, ap, ◌∙◌, false, some, get_elem?, get_elem?-set_at, arith}
use phntm_bridge.Peer.Negotiation.{
  Phase, queued, updating, over, Shared, Finds, run_step, Peer, step, handle,
}

handle-step :
    (i : ℕ) (f : Finds) (p : Peer) (q : Phase)
    → get_elem? p.runs i ≡ some q
    → let p' = handle (step i f) p in
      (get_elem? p'.runs i ≡ some (run_step f q p.shared).0)
      × (p'.shared ≡ (run_step f q p.shared).1)
unfolding handle
handle-step i f p q h =
    let (there, _) = get_elem?-set_at p.runs i i q (run_step f q p.shared).0 h in
    (ground (arith, h, there), ground (arith, h))

enter_idle :
    (f : Finds) (s : Shared)
    → s.locked ≡ false
    → f.is_reconnect ≡ false
    → f.negotiation_needed ≡ false
    → (run_step f queued s).0 ≡ updating false
unfolding run_step
enter_idle f s l r n = ground (arith, l, r, n)

calm_idle :
    (f : Finds) (s : Shared)
    → s.locked ≡ false
    → (run_step f queued s).1.awaiting_peer_reply ≡ false
unfolding run_step
calm_idle f s l = ground (arith, l)

leave_idle :
    (g h : Finds) (s : Shared)
    → s.awaiting_peer_reply ≡ false
    → let (q₁, s₁) = run_step g (updating false) s in
      let (q₂, s₂) = run_step h q₁ s₁ in (q₂ ≡ over) × (s₂.locked ≡ false)
unfolding run_step
leave_idle g h s w = (ground (arith, w), ground (arith, w))

-- When the mutex is free and a run is queued that finds nothing to negotiate, it is over with its third
-- step at the latest and the mutex is free again, whatever is awaited from the peer: it waits for no
-- answer, since it asked for none.
pub idle_run_ends :
    (p : Peer) (i : ℕ) (f g h : Finds)
    → get_elem? p.runs i ≡ some queued
    → p.shared.locked ≡ false
    → f.is_reconnect ≡ false
    → f.negotiation_needed ≡ false
    → let p' = handle (step i h) (handle (step i g) (handle (step i f) p)) in
      (get_elem? p'.runs i ≡ some over) × (p'.shared.locked ≡ false)
idle_run_ends p i f g h k l r n =
    let (a, b) = handle-step i f p queued k in
    let p₁ = handle (step i f) p in
    let a₁ : get_elem? p₁.runs i ≡ some (updating false) =
      a ∙ ap some (enter_idle f p.shared l r n) in
    let w : p₁.shared.awaiting_peer_reply ≡ false =
      ap (λ s. s.awaiting_peer_reply) b ∙ calm_idle f p.shared l in
    let (c, d) = handle-step i g p₁ (updating false) a₁ in
    let (u, v) = handle-step i h (handle (step i g) p₁) _ c in
    let (x, y) = leave_idle g h p₁.shared w in
    let q₁ = (run_step g (updating false) p₁.shared).0 in
    (
      u ∙ ap (λ s. some (run_step h q₁ s).0) d ∙ ap some x,
      ap (λ s. s.locked) v ∙ ap (λ s. (run_step h q₁ s).1.locked) d ∙ y,
    )
