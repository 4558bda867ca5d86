-- ===== src/Media/Encoder.antt =====
-- TopicReaderH264::onImageFrame of src/topic_reader_h264.cpp: the images of a topic on their way into the
-- encoder, which is made for their size and encoding, and made anew when these change.
use phntm_bridge.Prelude.{
  ℕ, ◌*◌, Bool, true, not, ◌&&◌, ◌||◌, Option, none, some, List, [], ◌∷◌, Str, codes, str_eq,
  nat_eq, if◌then◌else◌,
}
use phntm_bridge.Text.{str_to_lower}

pub data PixelFormat : Type 0 where
  rgb24 bgr24 gray8 : PixelFormat

-- `size` is that of the data.
pub record Image : Type 0 where
  pub width : ℕ
  pub height : ℕ
  pub encoding : Str
  pub size : ℕ

-- FFmpegEncoder, as it is made.
pub record Encoder : Type 0 where
  pub width : ℕ
  pub height : ℕ
  pub src_encoding : Str
  pub format : PixelFormat

pub record State : Type 0 where
  pub encoder : Option Encoder
  pub encoder_error : Bool
  pub logged_error : Bool
  pub use_pts : Bool

abbrev is_mono16 : Str → Bool
is_mono16 enc = str_eq enc (codes "16uc1") || str_eq enc (codes "mono16")

abbrev is_mono8 : Str → Bool
is_mono8 enc = str_eq enc (codes "mono8") || str_eq enc (codes "8uc1")

unfoldable pub opencv_format : Str → Option PixelFormat
opencv_format enc =
    if str_eq enc (codes "rgb8")
    then some rgb24
    else (if str_eq enc (codes "bgr8")
        then some bgr24
        else (if is_mono8 enc then some gray8 else (if is_mono16 enc then some rgb24 else none)))

-- FFmpegEncoder::checkCompatibility
abbrev check_compatibility : Encoder → ℕ → ℕ → Str → Bool
check_compatibility e width height enc =
    nat_eq width e.width && (nat_eq height e.height && str_eq enc e.src_encoding)

-- What the encoder is given: a matrix with so many channels, and how many bytes of the data it is made
-- from.
pub record Matrix : Type 0 where
  pub width : ℕ
  pub height : ℕ
  pub channels : ℕ
  pub bytes : ℕ

-- 16 bits are mapped to three channels by the color map. For another encoding the matrix is empty.
unfoldable pub matrix_of : Str → Image → Matrix
matrix_of enc im =
    let pixels = im.width * im.height in
    if str_eq enc (codes "rgb8") || str_eq enc (codes "bgr8")
    then record { width = im.width; height = im.height; channels = 3; bytes = 3 * pixels }
    else (if is_mono8 enc
        then record { width = im.width; height = im.height; channels = 1; bytes = pixels }
        else (if is_mono16 enc
            then record { width = im.width; height = im.height; channels = 3; bytes = 2 * pixels }
            else record { width = 0; height = 0; channels = 0; bytes = 0 }))

-- The encoder for an image: the one that fits, or a new one, which `makes` says can be made.
unfoldable pub make_encoder : Bool → Str → Image → State → State
unfolding opencv_format
make_encoder makes enc im s = elim s.encoder [
  | some e ↦ s
  | none ↦ elim (opencv_format enc) [
    | none ↦ record s { logged_error = true }
    | some format ↦ if not makes then record s { encoder_error = true } else record s {
      encoder =
          some
            (record { width = im.width; height = im.height; src_encoding = enc; format = format });
      use_pts = true;
    }
  ]
]

abbrev pub drop_other : Str → Image → State → State
drop_other enc im s = elim s.encoder [
  | none ↦ s
  | some e ↦ if check_compatibility e im.width im.height enc then s else record s { encoder = none }
]

-- The image goes to the encoder that there is.
unfoldable pub encode_frame : Str → Image → State → State × Option (Encoder × Matrix)
unfolding matrix_of
encode_frame enc im s = elim s.encoder [
  | none ↦ (s, none)
  | some e ↦ (s, some (e, matrix_of enc im))
]

-- The state, and what which encoder is given.
unfoldable pub on_image_frame : Bool → Bool → Image → State → State × Option (Encoder × Matrix)
unfolding str_to_lower make_encoder encode_frame
on_image_frame running makes im s =
    if not running || (nat_eq im.size 0 || s.encoder_error)
    then (s, none)
    else (let enc = str_to_lower im.encoding in
        encode_frame enc im (make_encoder makes enc im (drop_other enc im s)))

-- Images, each with whether the subscriber runs and whether an encoder can be made: what is encoded.
unfoldable pub encode_all : List (Bool × (Bool × Image)) → State → List (Encoder × Matrix)
unfolding on_image_frame
encode_all [] s = []
encode_all ((running, (makes, im)) ∷ ims) s =
    let (s', given) = on_image_frame running makes im s in
    let rest = encode_all ims s' in elim given [ none ↦ rest | some g ↦ g ∷ rest ]
