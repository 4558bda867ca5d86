-- ===== src/Files/Acks.antt =====
-- How often the request of a file is acknowledged by FileExtractor::findAndUploadFile.
use phntm_bridge.Prelude.{
  ℕ, zero, suc, ◌+◌, ◌-◌, ◌≤◌, ◌≡◌, ◌⊎◌, inl, inr, refl, ap, sym, subst, Bool, true, false, Option,
  none, some, List, [], ◌∷◌, Str, length, length-append, get_elem?, set_at, count, count-set_at,
  count-all, if◌then◌else◌, arith, Option-cases, is_some, str_key,
}
use phntm_bridge.Files.{Curl, no_handle, failed, answered, Chunks}
use phntm_bridge.Files.Request.{
  Phase, requested, awaiting, completing, Input, timed_out, accepted, completed, null_ack,
  object_ack, Shared, Reading, is_ended, look, complete, thread_step, Call, Event, step, receive,
  other_reset, join, start_call, new_threads, call_step, find_and_upload,
}

abbrev one_if : Bool → ℕ
one_if b = if b then 1 else 0

-- What a step of a thread does to the acknowledgements: nothing, or the thread ends, without success
-- or with one more acknowledgement.
abbrev Moves : Phase → Shared → Phase × Shared → Type 0
Moves p s (q, t) =
    (one_if (is_ended p) ≤ one_if (is_ended q))
    × (((length t.acks ≡ length s.acks) × (t.success ≡ s.success))
        ⊎ ((is_ended p ≡ false)
            × (is_ended q ≡ true)
            × (((length t.acks ≡ length s.acks) × (t.success ≡ false))
                ⊎ ((length t.acks ≡ 1 + length s.acks) × (t.success ≡ true)))))

look-Moves :
    (path : Str) (parts : ℕ) (p : Phase) (s : Shared)
    → is_ended p ≡ false
    → Moves p s (look path parts s)
unfolding look
look-Moves path parts p s h = ground (arith, h)

complete-Moves :
    (reading : Reading) (reply : Curl) (s : Shared)
    → ((b : Str) → is_some (reading b) ≡ true)
    → Moves completing s (complete reading reply s)
unfolding complete
complete-Moves reading no_handle s r = ground arith
complete-Moves reading (failed err) s r = ground arith
complete-Moves reading (answered code body) s r = elim (Option-cases (reading body)) [
  | inl q ↦ ground (arith, q, r body)
  | inr (name, q) ↦ ground (arith, q, length-append s.acks (object_ack name ∷ []))
]

thread_step-Moves :
    (reading : Reading) (path : Str) (i : Input) (p : Phase) (s : Shared)
    → ((b : Str) → is_some (reading b) ≡ true)
    → Moves p s (thread_step reading path i p s)
unfolding thread_step
thread_step-Moves reading path (completed reply) completing s r = complete-Moves reading reply s r
thread_step-Moves reading path timed_out (awaiting parts) s r =
    look-Moves path parts (awaiting parts) s refl
thread_step-Moves reading path (accepted parts) requested s r =
    look-Moves path parts requested _ refl
thread_step-Moves reading path i p s r = ground arith

abbrev ends : List Phase → ℕ
ends ps = count is_ended ps

-- Before the joins, every acknowledgement is of another thread that has ended, and of one more where
-- the last word is a failure; behind them there is at least one.
record Answers (n : ℕ) (c : Call) : Type 0 where
  size : length c.threads ≡ n
  running :
      c.joined ≡ false
      → (length c.shared.acks ≤ ends c.threads)
        × (c.shared.success ≡ true → 1 ≤ length c.shared.acks)
        × (c.shared.success ≡ false
            → length c.shared.acks ≡ 0 ⊎ 1 + length c.shared.acks ≤ ends c.threads)
  over :
      c.joined ≡ true
      → (1 ≤ length c.shared.acks) × (length c.shared.acks ≤ 1 + (n - 1)) × (ends c.threads ≡ n)

threads-new : (n : ℕ) → length (new_threads n) ≡ n
threads-new zero = refl
threads-new (suc n) = ap suc (threads-new n)

start-Answers : (n : ℕ) (chunks : Chunks) → Answers n (start_call n chunks)
unfolding start_call
start-Answers n chunks = record {
  size = threads-new n;
  running = λ h. ground (arith, h);
  over = λ h. ground (arith, h);
}

moved :
    (n i : ℕ) (c : Call) (p : Phase) (r : Phase × Shared)
    → get_elem? c.threads i ≡ some p
    → Moves p c.shared r
    → Answers n c
    → Answers n (record c { shared = r.1; threads = set_at i r.0 c.threads })
moved n i c p (q, s) h m inv =
    let set = count-set_at is_ended c.threads i p q h in
    let top = count-all is_ended (set_at i q c.threads) in
    record {
      size = ground (arith, set, inv.size);
      running = λ j. ground (arith, set, m, inv.running j);
      over = λ j. ground (arith, set, m, inv.over j, top, inv.size);
    }

step-Answers :
    (reading : Reading) (path : Str) (e : Event) (n : ℕ) (c : Call)
    → ((b : Str) → is_some (reading b) ≡ true)
    → Answers n c
    → Answers n (call_step reading path e c)
unfolding call_step
step-Answers reading path (step i input) n c r inv = elim (Option-cases (get_elem? c.threads i)) [
  | inl q ↦ subst (λ o. Answers n (stepped o)) (sym q) inv
  | inr (p, q) ↦
      subst (λ o. Answers n (stepped o)) (sym q)
        (moved n i c p _ q (thread_step-Moves reading path input p c.shared r) inv)
]
  where
    stepped : Option Phase → Call
    stepped o = elim o [
      | none ↦ c
      | some p ↦
          let (q, s) = thread_step reading path input p c.shared in
          record c { shared = s; threads = set_at i q c.threads }
    ]
step-Answers reading path (receive reply chunk) n c r inv = record {
  size = inv.size;
  running = inv.running;
  over = inv.over;
}
step-Answers reading path (other_reset p) n c r inv = record {
  size = inv.size;
  running = inv.running;
  over = inv.over;
}
step-Answers reading path join n c r inv =
    let a = length-append c.shared.acks (null_ack ∷ []) in
    let e = count-all is_ended c.threads in
    record {
      size = ground (arith, inv.size);
      running = λ h. ground (arith, h, inv.running);
      over = λ h. ground (arith, h, a, e, inv.size, inv.over, inv.running);
    }

all-Answers :
    (reading : Reading) (path : Str) (es : List Event) (n : ℕ) (c : Call)
    → ((b : Str) → is_some (reading b) ≡ true)
    → Answers n c
    → Answers n (find_and_upload reading path es c)
unfolding find_and_upload
all-Answers reading path [] n c r inv = inv
all-Answers reading path (e ∷ es) n c r inv =
    all-Answers reading path es n _ r (step-Answers reading path e n c r inv)

-- When the request of a file is over, whatever its threads met and in whatever order, it has been
-- acknowledged at least once, and at most as often as there were extractors (once where there were
-- none), if jsoncpp can read the answers of the server.
pub find_and_upload-acks :
    (reading : Reading) (path : Str) (es : List Event) (n : ℕ) (chunks : Chunks)
    → ((b : Str) → is_some (reading b) ≡ true)
    → let c = find_and_upload reading path es (start_call n chunks) in
      c.joined ≡ true → (1 ≤ length c.shared.acks) × (length c.shared.acks ≤ 1 + (n - 1))
find_and_upload-acks reading path es n chunks r h =
    let inv = all-Answers reading path es n (start_call n chunks) r (start-Answers n chunks) in
    let (a, b, _) = inv.over h in (a, b)
