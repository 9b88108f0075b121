-- ===== src/Node/LinkWire/Frames.antt =====
-- What `encode_frame` writes, `decode_frame` reads.
use proto_relay.Base.{ℕ, ◌+◌, ◌^◌, ◌≤◌, ◌<◌, false, some, ◌≡◌, refl, arith, length, take, drop}
use proto_relay.Base.Wire
use proto_relay.Base.Wire.{put, get-put_one, get-put_four, get-put_eight, length-put}
use proto_relay.Node.LinkWire.{
  Frame, FrameType, frame_code, frame_type_of, frame_body, bad_frame_id, decode_typed, decode_frame,
}

-- A frame that a link may send and its peer accepts.
pub record IsFrame (max_frame_bytes : ℕ) (f : Frame) : Type 0 where
  pub id : bad_frame_id f.type f.id ≡ false
  pub width : f.id < 2 ^ 64
  pub size : 10 + length f.payload ≤ max_frame_bytes
  pub limit : max_frame_bytes < 2 ^ 32

frame_type_of-frame_code :
    (t : FrameType) → frame_type_of (Wire.get 0 (put 1 (frame_code t))) ≡ some t
unfolding frame_type_of frame_code put Wire.get
frame_type_of-frame_code FrameType.hello = refl
frame_type_of-frame_code FrameType.ping = refl
frame_type_of-frame_code FrameType.pong = refl
frame_type_of-frame_code FrameType.request = refl
frame_type_of-frame_code FrameType.response = refl
frame_type_of-frame_code FrameType.notify = refl
frame_type_of-frame_code FrameType.epoch_config = refl
frame_type_of-frame_code FrameType.hello_auth = refl

pub length-frame_body : (f : Frame) → length (frame_body f) ≡ 10 + length f.payload
unfolding frame_body put
length-frame_body f = omega arith

decode_typed-frame_body :
    (max_frame_bytes : ℕ) (f : Frame)
    → IsFrame max_frame_bytes f
    → decode_typed (frame_body f) f.type ≡ some f
unfolding decode_typed frame_body put
decode_typed-frame_body m f v = rw (get-put_eight f.id (omega (arith, v.width))) (rw v.id refl)

frame_header :
    (f : Frame)
    → (Wire.get 0 (take 1 (frame_body f)) ≡ 1)
      × (frame_type_of (Wire.get 0 (take 1 (drop 1 (frame_body f)))) ≡ some f.type)
unfolding frame_body put
frame_header f = (unfold Wire.get in refl, frame_type_of-frame_code f.type)

-- The body of a frame within the limit, whose id is 64 bits wide and fits its type, is read back as
-- it was written.
pub decode_frame-frame_body :
    (max_frame_bytes : ℕ) (f : Frame)
    → IsFrame max_frame_bytes f
    → decode_frame max_frame_bytes (frame_body f) ≡ some f
unfolding decode_frame
decode_frame-frame_body m f v =
    ground (arith, length-frame_body f, v.size, frame_header f, decode_typed-frame_body m f v)
