-- ===== src/Reader/Outputs.antt =====
-- The outputs of a reader: one for each channel, all of them active.
use phntm_bridge.Prelude.{
  ℕ, ◌≡◌, refl, Bool, true, false, not, ◌&&◌, ◌||◌, List, [], ◌∷◌, ◌++◌, arith, is_empty, nat_eq,
  Str,
}
use phntm_bridge.Reader.{
  Output, Reader, Channels, has_output, new_output, add_output, remove_output, remove_first,
  send_one, send_all, on_data, complete_first, make_reader,
}

-- No channel twice, and every output active.
abbrev pub Distinct : List Output → Type 0
Distinct [] = Unit
Distinct (o ∷ os) = (has_output o.dc os ≡ false) × (o.active ≡ true) × Distinct os

has_output-append :
    (dc : ℕ) (xs ys : List Output) → has_output dc (xs ++ ys) ≡ has_output dc xs || has_output dc ys
unfolding has_output
has_output-append dc [] ys = refl
has_output-append dc (o ∷ xs) ys = ground (arith, has_output-append dc xs ys)

Distinct-push :
    (serial dc pc : ℕ) (os : List Output)
    → Distinct os
    → has_output dc os ≡ false
    → Distinct (os ++ new_output serial dc pc ∷ [])
unfolding has_output
Distinct-push s dc pc [] d h = (refl, refl, tt)
Distinct-push s dc pc (o ∷ os) d h = (
  ground (arith, has_output-append o.dc os (new_output s dc pc ∷ [])),
  d.1,
  Distinct-push s dc pc os d.2 (ground arith),
)

has_output-remove_first :
    (dc j : ℕ) (os : List Output)
    → Distinct os
    → has_output j (remove_first dc os) ≡ has_output j os && not (nat_eq dc j)
unfolding has_output remove_first
has_output-remove_first dc j [] d = refl
has_output-remove_first dc j (o ∷ os) d = ground (arith, has_output-remove_first dc j os d.2)

Distinct-remove_first : (dc : ℕ) (os : List Output) → Distinct os → Distinct (remove_first dc os)
unfolding remove_first
Distinct-remove_first dc [] d = tt
Distinct-remove_first dc (o ∷ os) d =
    ground (arith, Distinct-remove_first dc os d.2, has_output-remove_first dc o.dc os d.2)

send_one-keeps :
    (c : Channels) (o : Output)
    → ((send_one c o).0.dc ≡ o.dc) × ((send_one c o).0.active ≡ o.active)
unfolding send_one
send_one-keeps c o = ground arith

has_output-send_all :
    (c : Channels) (j : ℕ) (os : List Output) → has_output j (send_all c os).0 ≡ has_output j os
unfolding has_output send_all
has_output-send_all c j [] = refl
has_output-send_all c j (o ∷ os) = ground (arith, has_output-send_all c j os, send_one-keeps c o)

Distinct-send_all : (c : Channels) (os : List Output) → Distinct os → Distinct (send_all c os).0
unfolding send_all
Distinct-send_all c [] d = tt
Distinct-send_all c (o ∷ os) d = ground (
  arith,
  send_one-keeps c o,
  has_output-send_all c o.dc os,
  has_output-send_all c (send_one c o).0.dc os,
  Distinct-send_all c os d.2,
)

has_output-complete_first :
    (pc j : ℕ) (os : List Output) → has_output j (complete_first pc os) ≡ has_output j os
unfolding has_output complete_first
has_output-complete_first pc j [] = refl
has_output-complete_first pc j (o ∷ os) = ground (arith, has_output-complete_first pc j os)

Distinct-complete_first :
    (pc : ℕ) (os : List Output) → Distinct os → Distinct (complete_first pc os)
unfolding complete_first
Distinct-complete_first pc [] d = tt
Distinct-complete_first pc (o ∷ os) d =
    ground (arith, has_output-complete_first pc o.dc os, Distinct-complete_first pc os d.2)

-- What can happen to one reader.
pub data Event : Type 0 where
  adds : Bool → ℕ → ℕ → Event
  removes : Bool → ℕ → Event
  gets_data : Channels → Str → Event
  stabilises : ℕ → Event

unfoldable pub handle : Event → Reader → Reader
unfolding add_output remove_output on_data
handle (adds creates dc pc) r = (add_output creates dc pc r).0
handle (removes ros_ok dc) r = (remove_output ros_ok dc r).0
handle (gets_data c payload) r = (on_data c payload r).0
handle (stabilises pc) r = record r { outputs = complete_first pc r.outputs }

unfoldable pub handle_all : List Event → Reader → Reader
unfolding handle
handle_all [] r = r
handle_all (e ∷ es) r = handle_all es (handle e r)

handle-Distinct : (e : Event) (r : Reader) → Distinct r.outputs → Distinct (handle e r).outputs
unfolding handle
handle-Distinct (adds creates dc pc) r d =
    ground (arith, Distinct-push r.next_serial dc pc r.outputs d)
handle-Distinct (removes ros_ok dc) r d = ground (arith, Distinct-remove_first dc r.outputs d)
handle-Distinct (gets_data c payload) r d = ground (arith, Distinct-send_all c r.outputs d)
handle-Distinct (stabilises pc) r d = Distinct-complete_first pc r.outputs d

handle_all-keeps :
    (es : List Event) (r : Reader) → Distinct r.outputs → Distinct (handle_all es r).outputs
unfolding handle_all
handle_all-keeps [] r d = d
handle_all-keeps (e ∷ es) r d = handle_all-keeps es (handle e r) (handle-Distinct e r d)

-- Through any events a new reader has one output at most for each channel, and all of them active.
pub handle_all-Distinct :
    (es : List Event) (topic msg_type : Str) (is_reliable : Bool)
    → Distinct (handle_all es (make_reader topic msg_type is_reliable)).outputs
handle_all-Distinct es topic msg_type is_reliable =
    handle_all-keeps es (make_reader topic msg_type is_reliable) (unfold make_reader in tt)

-- A channel can be added exactly if it is not there; then it is there, with the others as before.
add_output_lem :
    (creates : Bool) (dc pc : ℕ) (r : Reader)
    → ((add_output creates dc pc r).1 ≡ not (has_output dc r.outputs))
      × ((j : ℕ)
          → has_output j (add_output creates dc pc r).0.outputs
            ≡ has_output j r.outputs || nat_eq dc j)
unfolding add_output
add_output_lem creates dc pc r = (
  ground arith,
  λ j.
      ground (arith, has_output-append j r.outputs (new_output r.next_serial dc pc ∷ []), member j),
)
  where
    member : (j : ℕ) → has_output j (new_output r.next_serial dc pc ∷ []) ≡ nat_eq dc j
    member j = unfold has_output in ground arith

-- A removal takes the channel's output alone. It says that the reader can be destroyed exactly if no
-- output is left, and then, while rclcpp is up, the subscription is gone.
pub remove_output_lem :
    (ros_ok : Bool) (dc : ℕ) (r : Reader)
    → Distinct r.outputs
    → let (r', last) = remove_output ros_ok dc r in
      ((j : ℕ) → has_output j r'.outputs ≡ has_output j r.outputs && not (nat_eq dc j))
      × (last ≡ is_empty r'.outputs)
      × (r'.sub ≡ r.sub && not (last && ros_ok))
unfolding remove_output
remove_output_lem ros_ok dc r d =
    (λ j. ground (arith, has_output-remove_first dc j r.outputs d), ground arith, ground arith)
