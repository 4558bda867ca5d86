-- ===== src/Reader/Latest.antt =====
-- `sendLatestData` of src/topic_reader_data.cpp: the thread that hands the latest message to a new
-- output of a reliable topic. A step is one test of one of its loops, or its send.
use phntm_bridge.Prelude.{
  ℕ, ◌≡◌, refl, ap, ap₂, ◌∙◌, ◌⊎◌, inl, inr, nat_eq_iff, Bool, true, false, not, ◌&&◌, ◌||◌, Option,
  none, some, List, [], ◌∷◌, ◌++◌, arith, is_empty, nat_eq, if◌then◌else◌, Option-cases, Bool-cases,
}
use phntm_bridge.Reader.{
  Output, Reader, Channels, Sending, accepted, refused, runtime_error, invalid_argument, inc16,
  add_output, new_output, complete_first, has_output,
}

-- `terminated`: std::invalid_argument is not caught here, and ends the process.
pub data Phase : Type 0 where
  opening waiting done terminated : Phase

-- The output of the thread; `none` once it was taken out and is not active.
unfoldable pub find_serial : ℕ → List Output → Option Output
find_serial s [] = none
find_serial s (o ∷ os) = if nat_eq o.serial s then some o else find_serial s os

unfoldable update_serial : ℕ → (Output → Output) → List Output → List Output
update_serial s f [] = []
update_serial s f (o ∷ os) = if nat_eq o.serial s then f o ∷ os else o ∷ update_serial s f os

abbrev mark_sent : Output → Output
mark_sent o = record o {
  num_sent = inc16 o.num_sent;
  logged_closed = false;
  logged_init_incomplete = false;
  logged_error = false;
  logged_exception = false;
}

unfoldable send_latest : Sending → ℕ → Output → Reader → Phase × Reader
unfolding update_serial
send_latest accepted s o r = (
  done,
  record r {
    outputs = update_serial s mark_sent r.outputs;
    sent = r.sent ++ (o.dc, r.latest_payload) ∷ [];
  },
)
send_latest refused s o r =
    (done, record r { outputs = update_serial s (λ x. record x { logged_error = true }) r.outputs })
send_latest runtime_error s o r = (
  done,
  record r { outputs = update_serial s (λ x. record x { logged_exception = true }) r.outputs },
)
send_latest invalid_argument s o r = (terminated, r)

-- Behind the first loop, for an output that is active.
unfoldable try_latest : Sending → ℕ → Output → Reader → Phase × Reader
unfolding send_latest
try_latest w s o r =
    if is_empty r.latest_payload && nat_eq o.num_sent 0
    then (waiting, r)
    else (if not (nat_eq o.num_sent 0) then (done, r) else send_latest w s o r)

unfoldable pub latest_step : Channels → ℕ → Phase → Reader → Phase × Reader
unfolding find_serial try_latest
latest_step c s opening r = elim (find_serial s r.outputs) [
  | none ↦ (waiting, r)
  | some o ↦ (if not (c.is_open o.dc) || not o.init_complete then opening else waiting, r)
]
latest_step c s waiting r = elim (find_serial s r.outputs) [
  | none ↦ (done, r)
  | some o ↦ try_latest (c.send o.dc) s o r
]
latest_step c s done r = (done, r)
latest_step c s terminated r = (terminated, r)

-- Nothing went out, or the latest message to this output, which had been sent nothing.
abbrev Sends : Output → Reader → Phase × Reader → Type 0
Sends o r res =
    (res.1.sent ≡ r.sent)
    ⊎ ((o.num_sent ≡ 0) × (res.1.sent ≡ r.sent ++ (o.dc, r.latest_payload) ∷ []) × (res.0 ≡ done))

send_latest-Sends :
    (w : Sending) (s : ℕ) (o : Output) (r : Reader)
    → o.num_sent ≡ 0
    → Sends o r (send_latest w s o r)
unfolding send_latest
send_latest-Sends accepted s o r h = inr (h, refl, refl)
send_latest-Sends refused s o r h = inl refl
send_latest-Sends runtime_error s o r h = inl refl
send_latest-Sends invalid_argument s o r h = inl refl

try_latest-Sends : (w : Sending) (s : ℕ) (o : Output) (r : Reader) → Sends o r (try_latest w s o r)
try_latest-Sends w s o r = elim (Bool-cases (nat_eq o.num_sent 0)) [
  | inr e ↦ inl (unfold try_latest in ground arith)
  | inl e ↦ elim (Bool-cases (is_empty r.latest_payload)) [
    | inl x ↦ inl (unfold try_latest in ground arith)
    | inr x ↦
        let h = (nat_eq_iff o.num_sent 0).0 e in
        let q : try_latest w s o r ≡ send_latest w s o r = unfold try_latest in rw (e, x) in
        rw q (send_latest-Sends w s o r h)
  ]
]

-- A step sends nothing, or it sends the latest message to the thread's own output, which had been
-- sent nothing before, and ends the thread.
latest_step-Sends :
    (c : Channels) (s : ℕ) (p : Phase) (r : Reader)
    → ((latest_step c s p r).1.sent ≡ r.sent)
      ⊎ ((o : Output) × (find_serial s r.outputs ≡ some o) × Sends o r (latest_step c s p r))
unfolding latest_step
latest_step-Sends c s opening r = elim (Option-cases (find_serial s r.outputs)) [
  | inl e ↦ rw (e, latest_step) (inl refl)
  | inr (o, e) ↦ rw (e, latest_step) (inl refl)
]
latest_step-Sends c s waiting r = elim (Option-cases (find_serial s r.outputs)) [
  | inl e ↦ rw (e, latest_step) (inl refl)
  | inr (o, e) ↦ rw (e, latest_step) (inr (o, refl, try_latest-Sends (c.send o.dc) s o r))
]
latest_step-Sends c s done r = inl refl
latest_step-Sends c s terminated r = inl refl

-- The new output of a late joiner is found behind the others.
find_serial-new :
    (s dc pc : ℕ) (os : List Output)
    → find_serial s os ≡ none
    → find_serial s (os ++ new_output s dc pc ∷ []) ≡ some (new_output s dc pc)
unfolding find_serial
find_serial-new s dc pc [] h = ground arith
find_serial-new s dc pc (o ∷ os) h = ground (arith, find_serial-new s dc pc os)

abbrev has_pc : ℕ → List Output → Bool
has_pc pc [] = false
has_pc pc (o ∷ os) = nat_eq o.pc pc || has_pc pc os

find_serial_complete :
    (s dc pc : ℕ) (os : List Output)
    → find_serial s os ≡ none
    → has_pc pc os ≡ false
    → find_serial s (complete_first pc (os ++ new_output s dc pc ∷ []))
      ≡ some (record (new_output s dc pc) { init_complete = true })
unfolding find_serial complete_first
find_serial_complete s dc pc [] h k = ground arith
find_serial_complete s dc pc (o ∷ os) h k = ground (arith, find_serial_complete s dc pc os)

-- The reader when a channel was added and its connection has become stable.
abbrev pub joined : ℕ → ℕ → Reader → Reader
joined dc pc r =
    let r' = (add_output true dc pc r).0 in record r' { outputs = complete_first pc r'.outputs }

joined_outputs :
    (dc pc : ℕ) (r : Reader)
    → has_output dc r.outputs ≡ false
    → ((joined dc pc r).outputs
        ≡ complete_first pc (r.outputs ++ new_output r.next_serial dc pc ∷ []))
      × ((joined dc pc r).latest_payload ≡ r.latest_payload)
      × ((joined dc pc r).sent ≡ r.sent)
      × ((r.is_reliable ≡ true) → (joined dc pc r).threads ≡ r.next_serial ∷ r.threads)
unfolding add_output
joined_outputs dc pc r h = (ground arith, ground arith, ground arith, λ t. ground arith)

ready_opens :
    (c : Channels) (s : ℕ) (o : Output) (q : Reader)
    → find_serial s q.outputs ≡ some o
    → c.is_open o.dc ≡ true
    → o.init_complete ≡ true
    → latest_step c s opening q ≡ (waiting, q)
unfolding latest_step
ready_opens c s o q f k i = rw (f, latest_step, k, i)

ready_sends :
    (c : Channels) (s : ℕ) (o : Output) (q : Reader)
    → find_serial s q.outputs ≡ some o
    → c.send o.dc ≡ accepted
    → o.num_sent ≡ 0
    → is_empty q.latest_payload ≡ false
    → ((latest_step c s waiting q).0 ≡ done)
      × ((latest_step c s waiting q).1.sent ≡ q.sent ++ (o.dc, q.latest_payload) ∷ [])
unfolding latest_step
ready_sends c s o q f a z l = (rw (f, latest_step, a, l, z), rw (f, latest_step, a, l, z))

-- A late joiner of a reliable topic that has a message gets it: when a channel is added that is no
-- output yet, is open and accepts the message, with a serial number that no output has, and its
-- connection, which no other output has, becomes stable, then a thread is started for it, and the
-- thread sends the latest message with its second step, to this channel only.
pub late_joiner :
    (c : Channels) (dc pc : ℕ) (r : Reader)
    → r.is_reliable ≡ true
    → is_empty r.latest_payload ≡ false
    → has_output dc r.outputs ≡ false
    → has_pc pc r.outputs ≡ false
    → find_serial r.next_serial r.outputs ≡ none
    → c.is_open dc ≡ true
    → c.send dc ≡ accepted
    → let r₁ = joined dc pc r in
      let (p₂, r₂) = latest_step c r.next_serial opening r₁ in
      let (p₃, r₃) = latest_step c r.next_serial p₂ r₂ in
      (r₁.threads ≡ r.next_serial ∷ r.threads)
      × (p₃ ≡ done)
      × (r₃.sent ≡ r.sent ++ (dc, r.latest_payload) ∷ [])
late_joiner c dc pc r rel some_latest fresh alone unused open_dc takes_it =
    let (os, latest, trace, started) = joined_outputs dc pc r fresh in
    let f =
      ap (find_serial r.next_serial) os
      ∙ find_serial_complete r.next_serial dc pc r.outputs unused alone in
    let step = ready_opens c r.next_serial _ (joined dc pc r) f open_dc refl in
    let last =
      ready_sends c r.next_serial _ (joined dc pc r) f takes_it refl
        (ap is_empty latest ∙ some_latest) in
    (started rel, rw step last.0, rw step (last.1 ∙ ap₂ (λ t l. t ++ (dc, l) ∷ []) trace latest))
