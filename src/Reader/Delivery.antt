-- ===== src/Reader/Delivery.antt =====
-- Where a message of the topic goes: `onData`.
use phntm_bridge.Prelude.{
  ℕ, ◌≡◌, refl, ap, Bool, true, false, not, ◌&&◌, List, [], ◌∷◌, ◌++◌, arith, is_empty,
  if◌then◌else◌, Str,
}
use phntm_bridge.Reader.{
  Output, Reader, Channels, Sending, accepted, refused, runtime_error, invalid_argument, inc16,
  send_one, send_all, on_data, deliveries,
}

abbrev is_accepted : Sending → Bool
is_accepted accepted = true
is_accepted refused = false
is_accepted runtime_error = false
is_accepted invalid_argument = false

-- The channel is open, its connection was stable once since, and it accepts the message.
abbrev takes : Channels → Output → Bool
takes c o = c.is_open o.dc && (o.init_complete && is_accepted (c.send o.dc))

abbrev takers : Channels → List Output → List ℕ
takers c [] = []
takers c (o ∷ os) = let rest = takers c os in if takes c o then o.dc ∷ rest else rest

send_one-takes :
    (c : Channels) (o : Output)
    → ((send_one c o).1 ≡ takes c o)
      × ((send_one c o).0.num_sent ≡ (if takes c o then inc16 o.num_sent else o.num_sent))
unfolding send_one
send_one-takes c o = ground arith

send_all-takers : (c : Channels) (os : List Output) → (send_all c os).1 ≡ takers c os
unfolding send_all
send_all-takers c [] = refl
send_all-takers c (o ∷ os) = ground (arith, send_all-takers c os, send_one-takes c o)

abbrev pub counts : List Output → List ℕ
counts [] = []
counts (o ∷ os) = o.num_sent ∷ counts os

abbrev counts_after : Channels → List Output → List ℕ
counts_after c [] = []
counts_after c (o ∷ os) = (if takes c o then inc16 o.num_sent else o.num_sent) ∷ counts_after c os

counts-send_all : (c : Channels) (os : List Output) → counts (send_all c os).0 ≡ counts_after c os
unfolding send_all
counts-send_all c [] = refl
counts-send_all c (o ∷ os) = ground (arith, counts-send_all c os, send_one-takes c o)

-- A message goes out once to each output whose channel is open, whose connection was stable, and
-- that accepts it, in the order of the outputs, and to no other; the counters (of 16 bits) of those
-- outputs go up by one and those of the others stay; the LED flashes exactly if there was one; and
-- the message is kept as the latest.
pub on_data_lem :
    (c : Channels) (payload : Str) (r : Reader)
    → let (r', flash) = on_data c payload r in
      (r'.sent ≡ r.sent ++ deliveries payload (takers c r.outputs))
      × (counts r'.outputs ≡ counts_after c r.outputs)
      × (flash ≡ not (is_empty (takers c r.outputs)))
      × (r'.latest_payload ≡ payload)
unfolding on_data
on_data_lem c payload r = (
  ap (λ dcs. r.sent ++ deliveries payload dcs) (send_all-takers c r.outputs),
  counts-send_all c r.outputs,
  ap (λ dcs. not (is_empty dcs)) (send_all-takers c r.outputs),
  refl,
)
