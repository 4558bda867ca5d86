-- ===== src/Reader/Examples.antt =====
-- Readers of src/topic_reader_data.cpp, with concrete channels.
use phntm_bridge.Prelude.{ℕ, ◌≡◌, refl, true, false, not, ◌&&◌, [], ◌∷◌, codes, nat_eq, is_empty}
use phntm_bridge.Reader.{
  Output, Reader, Channels, accepted, refused, make_reader, new_output, has_output, remove_output,
  on_data,
}
use phntm_bridge.Reader.Outputs.{
  Distinct, adds, removes, stabilises, gets_data, handle_all, handle_all-Distinct,
  remove_output_lem,
}
use phntm_bridge.Reader.Delivery.{counts, on_data_lem}
use phntm_bridge.Reader.Latest.{latest_step, late_joiner, opening, done, find_serial, joined}

-- Channel 3 is closed, and channel 2 refuses.
abbrev channels : Channels
channels = record {
  is_open = λ dc. not (nat_eq dc 3);
  send = λ dc. elim (nat_eq dc 2) [ true ↦ refused | false ↦ accepted ];
}

abbrev stable : ℕ → ℕ → Output
stable serial dc = record (new_output serial dc 50) { init_complete = true }

abbrev odometry : Reader
odometry = record {
  topic = codes "/odom";
  msg_type = codes "nav_msgs/msg/Odometry";
  is_reliable = true;
  outputs = stable 0 1 ∷ stable 1 2 ∷ stable 2 3 ∷ stable 3 4 ∷ [];
  sub = true;
  latest_payload = codes "old";
  logged_receiving = true;
  next_serial = 4;
  threads = [];
  sent = [];
}

on_data_sends :
    (on_data channels (codes "x") odometry).0.sent ≡ (1, codes "x") ∷ (4, codes "x") ∷ []
unfolding on_data
on_data_sends = refl

on_data_lem_example :
    ((on_data channels (codes "x") odometry).0.sent ≡ (1, codes "x") ∷ (4, codes "x") ∷ [])
    × (counts (on_data channels (codes "x") odometry).0.outputs ≡ 1 ∷ 0 ∷ 0 ∷ 1 ∷ [])
    × ((on_data channels (codes "x") odometry).1 ≡ true)
    × ((on_data channels (codes "x") odometry).0.latest_payload ≡ codes "x")
on_data_lem_example = on_data_lem channels (codes "x") odometry

handle_all-Distinct_example :
    Distinct
      (handle_all
        (adds true 1 50
          ∷ adds true 1 50
          ∷ adds true 2 60
          ∷ stabilises 50
          ∷ gets_data channels (codes "x")
          ∷ removes true 1
          ∷ [])
        (make_reader (codes "/a") (codes "t") true)).outputs
handle_all-Distinct_example =
    handle_all-Distinct
      (adds true 1 50
        ∷ adds true 1 50
        ∷ adds true 2 60
        ∷ stabilises 50
        ∷ gets_data channels (codes "x")
        ∷ removes true 1
        ∷ [])
      (codes "/a") (codes "t") true

remove_output_lem_example :
    ((j : ℕ)
      → has_output j (remove_output true 2 odometry).0.outputs
        ≡ has_output j odometry.outputs && not (nat_eq 2 j))
    × ((remove_output true 2 odometry).1 ≡ is_empty (remove_output true 2 odometry).0.outputs)
    × ((remove_output true 2 odometry).0.sub ≡ true)
unfolding has_output remove_output
remove_output_lem_example =
    remove_output_lem true 2 odometry (refl, refl, (refl, refl, (refl, refl, (refl, refl, tt))))

late_joiner_example :
    ((joined 7 60 odometry).threads ≡ 4 ∷ [])
    × ((latest_step channels 4
          (latest_step channels 4 opening (joined 7 60 odometry)).0
          (latest_step channels 4 opening (joined 7 60 odometry)).1).0
        ≡ done)
    × ((latest_step channels 4
          (latest_step channels 4 opening (joined 7 60 odometry)).0
          (latest_step channels 4 opening (joined 7 60 odometry)).1).1.sent
        ≡ (7, codes "old") ∷ [])
unfolding has_output find_serial
late_joiner_example = late_joiner channels 7 60 odometry refl refl refl refl refl refl refl
