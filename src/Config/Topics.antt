-- ===== src/Config/Topics.antt =====
-- loadTopicQoSConfig and loadTopicMsgTypeExtraConfig of src/config.cpp: what is configured for one topic,
-- from the parameters of the node, which rclcpp keeps.
use phntm_bridge.Prelude.{
  ℕ, Bool, true, false, not, ◌&&◌, ◌||◌, Option, none, some, List, [], ◌∷◌, ◌++◌, Str, codes,
  str_eq, is_empty, if◌then◌else◌,
}
use phntm_bridge.Media.{is_image_type, is_image_or_video_type}
use phntm_bridge.Services.{Msg, Msgs, end, item, string, boolean, array, Entries, empty}
use phntm_bridge.Services.Response.{emplace_entry}
use phntm_bridge.Config.Params.{Value, int, double, flag, text, texts, Node}

-- A parameter of a topic, its default, and its name in the message. The default is given, or is the
-- value that a parameter of the node has, which is of the type of a given one.
pub data Default : Type 0 where
  given : Value → Default
  value_of : Str → Value → Default

pub record Setting : Type 0 where
  parameter : Str
  default : Default
  pub reported : Str

abbrev setting : Str → Default → Setting
setting name default = record { parameter = name; default = default; reported = name }

abbrev settings_low_fps : List Setting
settings_low_fps = setting (codes "low_fps") (value_of (codes "low_fps_default") (int 0)) ∷ []

abbrev settings_media : List Setting
settings_media =
    setting (codes "debug_num_frames") (given (int 0))
    ∷ setting (codes "debug_verbose") (given (flag false))
    ∷ setting (codes "create_node") (given (flag true))
    ∷ setting (codes "use_pts") (given (flag true))
    ∷ []

-- 255 as a double.
abbrev settings_image : List Setting
settings_image =
    setting (codes "colormap") (given (int 0))
    ∷ setting (codes "max_sensor_value") (given (double 4643176031446892544))
    ∷ setting (codes "encoder_hw_device") (value_of (codes "encoder_hw_device_default") (text []))
    ∷ setting (codes "encoder_thread_count")
        (value_of (codes "encoder_thread_count_default") (int 0))
    ∷ setting (codes "encoder_gop_size") (value_of (codes "encoder_gop_size_default") (int 0))
    ∷ setting (codes "encoder_bit_rate") (value_of (codes "encoder_bit_rate_default") (int 0))
    ∷ []

abbrev settings_detections : List Setting
settings_detections =
    record {
      parameter = codes "input_width";
      default = given (int 416);
      reported = codes "nn_input_w";
    }
    ∷ record {
      parameter = codes "input_height";
      default = given (int 416);
      reported = codes "nn_input_h";
    }
    ∷ record {
      parameter = codes "label_map";
      default = given (texts []);
      reported = codes "nn_detection_labels";
    }
    ∷ []

-- The floats 0.01 and 1 as doubles.
abbrev settings_camera : List Setting
settings_camera =
    setting (codes "frustum_color") (given (text (codes "cyan")))
    ∷ setting (codes "frustum_near") (given (double 4576918229175238656))
    ∷ setting (codes "frustum_far") (given (double 4607182418800017408))
    ∷ setting (codes "force_frame_id") (given (text []))
    ∷ []

-- 0 and 12 as doubles.
abbrev settings_battery : List Setting
settings_battery =
    setting (codes "min_voltage") (given (double 0))
    ∷ setting (codes "max_voltage") (given (double 4622945017495814144))
    ∷ []

-- The settings that a message type has.
unfoldable settings_of : Str → List Setting
unfolding is_image_type is_image_or_video_type
settings_of msg_type =
    settings_low_fps
    ++ ((if is_image_or_video_type msg_type then settings_media else [])
        ++ ((if is_image_type msg_type then settings_image else [])
            ++ (if str_eq msg_type (codes "vision_msgs/msg/Detection2DArray")
                  || str_eq msg_type (codes "vision_msgs/msg/Detection3DArray")
                then settings_detections
                else (if str_eq msg_type (codes "sensor_msgs/msg/CameraInfo")
                    then settings_camera
                    else (if str_eq msg_type (codes "sensor_msgs/msg/BatteryState")
                        then settings_battery
                        else [])))))

abbrev name_in : Str → Setting → Str
name_in topic s = topic ++ (codes "." ++ s.parameter)

abbrev default_in : {P : Type 0} → Node P → P → Default → Option Value
default_in node params (given v) = some v
default_in node params (value_of name like) = node.get_parameter name like params

abbrev strings : List Str → Msgs
strings [] = end
strings (s ∷ ss) = item (string s) (strings ss)

abbrev message_of : Value → Msg
message_of (int n) = Msg.int n
message_of (double n) = Msg.double n
message_of (flag b) = boolean b
message_of (text s) = string s
message_of (texts ss) = array (strings ss)

abbrev is_blank : Value → Bool
is_blank (text t) = is_empty t
is_blank (int n) = false
is_blank (double n) = false
is_blank (flag b) = false
is_blank (texts ss) = false

-- The frame is reported only where there is one.
abbrev is_reported : Setting → Value → Bool
is_reported s v = not (str_eq s.reported (codes "force_frame_id") && is_blank v)

-- One setting: its parameter is declared, read, and put into the message.
unfoldable load_setting : {P : Type 0} → Node P → Str → Setting → P × Entries → Option (P × Entries)
unfolding emplace_entry
load_setting node topic s (params, es) = elim (default_in node params s.default) [
  | none ↦ none
  | some default ↦ elim (node.declare_parameter (name_in topic s) default params) [
    | none ↦ none
    | some params' ↦ elim (node.get_parameter (name_in topic s) default params') [
      | none ↦ none
      | some v ↦
          some (params', if is_reported s v then emplace_entry s.reported (message_of v) es else es)
    ]
  ]
]

unfoldable load_settings :
    {P : Type 0} → Node P → Str → List Setting → P × Entries → Option (P × Entries)
unfolding load_setting
load_settings node topic [] r = some r
load_settings node topic (s ∷ ss) r = elim (load_setting node topic s r) [
  | none ↦ none
  | some r' ↦ load_settings node topic ss r'
]

unfoldable load_topic_msg_type_extra_config :
    {P : Type 0} → Node P → Str → Str → P → Option (P × Entries)
unfolding load_settings settings_of
load_topic_msg_type_extra_config node topic msg_type params =
    load_settings node topic (settings_of msg_type) (params, empty)

-- rclcpp::QoS, as it is set; a lifespan of `none` is Duration::max().
pub record Qos : Type 0 where
  pub depth : ℕ
  pub reliability : ℕ
  pub durability : ℕ
  pub lifespan : Option ℕ

abbrev number : Value → ℕ
number (int n) = n
number (double n) = n
number (flag b) = 0
number (text s) = 0
number (texts ss) = 0

-- A parameter of a topic that is declared and read.
abbrev parameter : {P : Type 0} → Node P → Str → Str → Value → P → Option (P × ℕ)
parameter node topic name default params =
    let full = topic ++ (codes "." ++ name) in
    elim (node.declare_parameter full default params) [
      | none ↦ none
      | some params' ↦ elim (node.get_parameter full default params') [
        | none ↦ none
        | some v ↦ some (params', number v)
      ]
    ]

-- `is_negative` and `to_ns` are those of a double: its sign, and its seconds in nanoseconds.
unfoldable load_topic_qos_config :
    {P : Type 0} → (ℕ → Bool) → (ℕ → ℕ) → Node P → Str → Qos → ℕ → P → Option (P × Qos)
load_topic_qos_config is_negative to_ns node topic defaults lifespan_sec params =
    elim (parameter node topic (codes "history_depth") (int defaults.depth) params) [
      | none ↦ none
      | some (p₁, depth) ↦
          elim (parameter node topic (codes "reliability") (int defaults.reliability) p₁) [
            | none ↦ none
            | some (p₂, reliability) ↦
                elim (parameter node topic (codes "durability") (int defaults.durability) p₂) [
                  | none ↦ none
                  | some (p₃, durability) ↦
                      elim (parameter node topic (codes "lifespan_sec") (double lifespan_sec) p₃) [
                        | none ↦ none
                        | some (p₄, sec) ↦ some (
                          p₄,
                          record {
                            depth = depth;
                            reliability = reliability;
                            durability = durability;
                            lifespan = if is_negative sec then none else some (to_ns sec);
                          },
                        )
                      ]
                ]
          ]
    ]
