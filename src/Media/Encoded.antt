-- ===== src/Media/Encoded.antt =====
-- That the encoder of src/topic_reader_h264.cpp is given what it was made for.
use phntm_bridge.Prelude.{
  ℕ, ◌≡◌, inl, inr, sym, subst, ap, ◌∙◌, Bool, true, false, Option, none, some, List, [], ◌∷◌, Str,
  str_eq_iff, All, arith, Option-cases, not, ◌||◌, nat_eq, if◌then◌else◌,
}
use phntm_bridge.Text.{str_to_lower}
use phntm_bridge.Media.Encoder.{
  PixelFormat, rgb24, bgr24, gray8, Image, Encoder, State, opencv_format, Matrix, matrix_of,
  make_encoder, drop_other, encode_frame, on_image_frame, encode_all,
}

abbrev channels_of : PixelFormat → ℕ
channels_of rgb24 = 3
channels_of bgr24 = 3
channels_of gray8 = 1

-- An encoder has the format of its encoding.
abbrev Made : Option Encoder → Type 0
Made none = Unit
Made (some e) = opencv_format e.src_encoding ≡ some e.format

-- The matrix has the size and the channels of the encoder.
abbrev pub Fits : Encoder × Matrix → Type 0
Fits (e, m) = (m.width ≡ e.width) × (m.height ≡ e.height) × (m.channels ≡ channels_of e.format)

matrix_of-format :
    (enc : Str) (im : Image) (f : PixelFormat)
    → opencv_format enc ≡ some f
    → let m = matrix_of enc im in
      (m.width ≡ im.width) × (m.height ≡ im.height) × (m.channels ≡ channels_of f)
unfolding opencv_format matrix_of
matrix_of-format enc im f h = ground (arith, h)

-- An encoder is one for the image.
abbrev Ready : Str → Image → Option Encoder → Type 0
Ready enc im none = Unit
Ready enc im (some e) =
    (im.width ≡ e.width)
    × (im.height ≡ e.height)
    × (enc ≡ e.src_encoding)
    × (opencv_format e.src_encoding ≡ some e.format)

drop_other-Ready :
    (enc : Str) (im : Image) (s : State)
    → Made s.encoder
    → Ready enc im (drop_other enc im s).encoder
drop_other-Ready enc im s m = elim (Option-cases s.encoder) [
  | inl n ↦ ground (arith, n)
  | inr (e, n) ↦ ground (arith, n, subst Made n m, str_eq_iff enc e.src_encoding)
]

make_encoder-Ready :
    (makes : Bool) (enc : Str) (im : Image) (s : State)
    → Ready enc im s.encoder
    → Ready enc im (make_encoder makes enc im s).encoder
unfolding make_encoder
make_encoder-Ready makes enc im s r = elim (Option-cases s.encoder) [
  | inr (e, n) ↦ ground (arith, n, r)
  | inl n ↦ elim (Option-cases (opencv_format enc)) [
    | inl o ↦ ground (arith, n, o)
    | inr (f, o) ↦ ground (arith, n, o)
  ]
]

Ready-Made : (enc : Str) (im : Image) (o : Option Encoder) → Ready enc im o → Made o
Ready-Made enc im none r = tt
Ready-Made enc im (some e) (w, h, q, f) = f

Ready-Fits :
    (enc : Str) (im : Image) (e : Encoder) → Ready enc im (some e) → Fits (e, matrix_of enc im)
Ready-Fits enc im e (w, h, q, f) =
    let (a, b, c) = matrix_of-format enc im e.format (ap opencv_format q ∙ f) in (a ∙ w, b ∙ h, c)

abbrev GivenFits : Option (Encoder × Matrix) → Type 0
GivenFits none = Unit
GivenFits (some g) = Fits g

abbrev Good : State × Option (Encoder × Matrix) → Type 0
Good (s, given) = Made s.encoder × GivenFits given

encode_frame-Good :
    (enc : Str) (im : Image) (s : State) → Ready enc im s.encoder → Good (encode_frame enc im s)
unfolding encode_frame
encode_frame-Good enc im s r = elim (Option-cases s.encoder) [
  | inl n ↦ rw (n, encode_frame) (subst Made (sym n) tt, tt)
  | inr (e, n) ↦
      let q = subst (Ready enc im) n r in
      rw (n, encode_frame)
        (subst Made (sym n) (Ready-Made enc im (some e) q), Ready-Fits enc im e q)
]

if-Good :
    (c : Bool) (x y : State × Option (Encoder × Matrix))
    → Good x
    → Good y
    → Good (if c then x else y)
if-Good true x y p q = p
if-Good false x y p q = q

on_image_frame-Good :
    (running makes : Bool) (im : Image) (s : State)
    → Made s.encoder
    → Good (on_image_frame running makes im s)
unfolding on_image_frame
on_image_frame-Good running makes im s m =
    let enc = str_to_lower im.encoding in
    let s' = make_encoder makes enc im (drop_other enc im s) in
    if-Good (not running || (nat_eq im.size 0 || s.encoder_error)) (s, none)
      (encode_frame enc im s') (m, tt)
      (encode_frame-Good enc im s'
        (make_encoder-Ready makes enc im (drop_other enc im s) (drop_other-Ready enc im s m)))

encode_from-Fits :
    (ims : List (Bool × (Bool × Image))) (s : State) → Made s.encoder → All Fits (encode_all ims s)
unfolding encode_all
encode_from-Fits [] s m = tt
encode_from-Fits ((running, (makes, im)) ∷ ims) s m =
    let (s', given) = on_image_frame running makes im s in
    let (m', g) = on_image_frame-Good running makes im s m in
    more _ given g (encode_from-Fits ims s' m')
  where
    more :
        (rest : List (Encoder × Matrix)) (given : Option (Encoder × Matrix))
        → GivenFits given
        → All Fits rest
        → let all : List (Encoder × Matrix) = elim given [ none ↦ rest | some g ↦ g ∷ rest ] in
          All Fits all
    more rest none g a = a
    more rest (some e) g a = (g, a)

abbrev pub no_encoder : Bool → State
no_encoder use_pts = record {
  encoder = none;
  encoder_error = false;
  logged_error = false;
  use_pts = use_pts;
}

-- Whatever images a topic has, in whatever order: the encoder that an image goes to was made for the
-- width and the height of the image's matrix, with as many channels as its pixel format has.
pub encode_all-Fits :
    (use_pts : Bool) (ims : List (Bool × (Bool × Image)))
    → All Fits (encode_all ims (no_encoder use_pts))
encode_all-Fits use_pts ims = encode_from-Fits ims (no_encoder use_pts) tt
