-- ===== src/Media.antt =====
-- TopicReaderH264 of src/topic_reader_h264.cpp: the registry of media readers and their outputs, one
-- for each media track of a peer. A track is named by its address; `worker` is the thread of an
-- output, which runs until the output is not active.
pub mod Numbers
pub mod Nal
pub mod AnnexB
pub mod Frames
pub mod Stream
pub mod Tracks
pub mod Timestamps
pub mod Encoder
pub mod Encoded
pub mod Examples
use phntm_bridge.Prelude.{
  ℕ, ◌+◌, Bool, true, false, not, ◌&&◌, ◌||◌, Option, none, some, List, [], ◌∷◌, ◌++◌, Str, codes,
  is_empty, nat_eq, leb, if◌then◌else◌, Map, find, contains, emplace, erase, str_key, str_eq,
}

-- const.hpp
abbrev pub image_msg_type : Str
image_msg_type = codes "sensor_msgs/msg/Image"

abbrev compressed_image_msg_type : Str
compressed_image_msg_type = codes "sensor_msgs/msg/CompressedImage"

abbrev video_stream_msg_type : Str
video_stream_msg_type = codes "ffmpeg_image_transport_msgs/msg/FFMPEGPacket"

-- lib.cpp
unfoldable pub is_image_type : Str → Bool
is_image_type msg_type = str_eq msg_type image_msg_type

unfoldable is_compressed_image_type : Str → Bool
is_compressed_image_type msg_type = str_eq msg_type compressed_image_msg_type

unfoldable is_encoded_video_type : Str → Bool
is_encoded_video_type msg_type = str_eq msg_type video_stream_msg_type

unfoldable pub is_image_or_video_type : Str → Bool
is_image_or_video_type msg_type =
    str_eq msg_type image_msg_type
    || (str_eq msg_type compressed_image_msg_type || str_eq msg_type video_stream_msg_type)

-- Which of the three subscriptions a reader has.
pub data Subscription : Type 0 where
  encoded image compressed : Subscription

pub record MediaReader : Type 0 where
  pub msg_type : Str
  pub create_node : Bool
  pub media_reader_node_no : ℕ
  pub subscriber_running : Bool
  pub sub : Option Subscription
  pub outputs : List ℕ

unfoldable pub make_reader : Str → Bool → MediaReader
make_reader msg_type create_node = record {
  msg_type = msg_type;
  create_node = create_node;
  media_reader_node_no = 0;
  subscriber_running = false;
  sub = none;
  outputs = [];
}

-- The loop of `start` over the readers, for a number that none of them has.
unfoldable pub highest_reader_no : ℕ → Map Str MediaReader → ℕ
highest_reader_no n [] = n
highest_reader_no n ((t, r) ∷ rs) =
    highest_reader_no (if leb n r.media_reader_node_no then r.media_reader_node_no + 1 else n) rs

-- start, among the readers that are registered. `creates`: the node and the subscription do not
-- throw; where they do, the reader counts as running all the same. A type that is no image and no
-- video gives no subscription.
unfoldable pub start : Bool → Map Str MediaReader → MediaReader → MediaReader
unfolding highest_reader_no is_encoded_video_type is_image_type is_compressed_image_type
start creates readers r =
    if r.subscriber_running
    then r
    else (let r' : MediaReader = record r {
      subscriber_running = true;
      media_reader_node_no =
          if r.create_node then highest_reader_no 1 readers else r.media_reader_node_no;
    } in
        if not creates
        then record r' { sub = none }
        else (if is_encoded_video_type r.msg_type
            then record r' { sub = some encoded }
            else (if is_image_type r.msg_type
                then record r' { sub = some image }
                else (if is_compressed_image_type r.msg_type
                    then record r' { sub = some compressed }
                    else r'))))

unfoldable pub has_track : ℕ → List ℕ → Bool
has_track track [] = false
has_track track (o ∷ os) = nat_eq o track || has_track track os

unfoldable pub add_output : Bool → Map Str MediaReader → ℕ → MediaReader → MediaReader × Bool
unfolding start has_track
add_output creates readers track r =
    let r' = start creates readers r in
    if has_track track r'.outputs
    then (r', false)
    else (record r' { outputs = r'.outputs ++ track ∷ [] }, true)

unfoldable pub remove_track : ℕ → List ℕ → List ℕ
remove_track track [] = []
remove_track track (o ∷ os) = if nat_eq o track then os else o ∷ remove_track track os

unfoldable pub remove_output : ℕ → MediaReader → MediaReader × Bool
unfolding remove_track
remove_output track r =
    if is_empty r.outputs
    then (r, true)
    else (let r' : MediaReader = record r { outputs = remove_track track r.outputs } in
        (r', is_empty r'.outputs))

-- The registry: getForTopic with and without creation, and destroy.
unfoldable pub get_for_topic : Str → Str → Bool → Map Str MediaReader → Map Str MediaReader
unfolding make_reader
get_for_topic topic msg_type create_node rs =
    if contains topic rs then rs else emplace topic (make_reader msg_type create_node) rs

unfoldable pub destroy : Str → Map Str MediaReader → Map Str MediaReader
destroy topic rs = if contains topic rs then erase topic rs else rs
