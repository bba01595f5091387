-- ===== src/Options/Names.antt =====
-- The names that `parseDracoMethod` (src/ros1_foxglove_bridge.cpp) and `parseVideoEncoderBackend`
-- (src/transport_manager.cpp) know.
use foxglove_bridge_ros.Prelude.{
  ◌↔◌, ◌≡◌, String, true, some, ◌==◌, nat_eq, list_eq, list_beq_iff, arith,
}
use foxglove_bridge_ros.Options.{
  codes, lower, DracoMethod, kd_tree, sequential, parse_draco_method, VideoEncoderBackend,
  auto_backend, software, hardware, nvenc, vaapi, videotoolbox, parse_video_encoder_backend,
}

abbrev pub draco_name : DracoMethod → String
draco_name kd_tree = "kd-tree"
draco_name sequential = "sequential"

abbrev pub backend_name : VideoEncoderBackend → String
backend_name auto_backend = "auto"
backend_name software = "software"
backend_name hardware = "hardware"
backend_name nvenc = "nvenc"
backend_name vaapi = "vaapi"
backend_name videotoolbox = "videotoolbox"

-- A value is read as a Draco method exactly when it is the method's name, in any mixture of upper
-- and lower case; every other value is not recognised.
pub parse_draco_method_iff :
    (value : String) (m : DracoMethod)
    → (parse_draco_method value ≡ some m) ↔ (lower value ≡ codes (draco_name m))
unfolding parse_draco_method
parse_draco_method_iff value kd_tree = ground (
  arith,
  list_beq_iff (lower value) (codes "kd-tree"),
  list_beq_iff (lower value) (codes "sequential"),
)
parse_draco_method_iff value sequential = ground (
  arith,
  list_beq_iff (lower value) (codes "kd-tree"),
  list_beq_iff (lower value) (codes "sequential"),
)

-- The value is this name, up to case.
abbrev IsNamed : String → String → Type 0
IsNamed value name = ((lower value == codes name) ≡ true) ↔ (lower value ≡ codes name)

named : (value name : String) → IsNamed value name
named value name = list_beq_iff (lower value) (codes name)

all-IsNamed :
    (value : String)
    → IsNamed value "auto"
      × IsNamed value "software"
      × IsNamed value "hardware"
      × IsNamed value "nvenc"
      × IsNamed value "vaapi"
      × IsNamed value "videotoolbox"
all-IsNamed value = (
  named value "auto",
  named value "software",
  named value "hardware",
  named value "nvenc",
  named value "vaapi",
  named value "videotoolbox",
)

-- A value is read as an encoder backend exactly when it is the backend's name, in any mixture of
-- upper and lower case; every other value is not recognised.
pub parse_video_encoder_backend_iff :
    (value : String) (b : VideoEncoderBackend)
    → (parse_video_encoder_backend value ≡ some b) ↔ (lower value ≡ codes (backend_name b))
unfolding parse_video_encoder_backend
parse_video_encoder_backend_iff value auto_backend = ground (arith, all-IsNamed value)
parse_video_encoder_backend_iff value software = ground (arith, all-IsNamed value)
parse_video_encoder_backend_iff value hardware = ground (arith, all-IsNamed value)
parse_video_encoder_backend_iff value nvenc = ground (arith, all-IsNamed value)
parse_video_encoder_backend_iff value vaapi = ground (arith, all-IsNamed value)
parse_video_encoder_backend_iff value videotoolbox = ground (arith, all-IsNamed value)
