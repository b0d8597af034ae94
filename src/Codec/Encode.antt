-- ===== src/Codec/Encode.antt =====
-- internal/codec/encode.go: the outbound messages, as the fields that the encoders set in gomavlib's
-- message structs. The conversions between integers and floats are Go's and enter as a parameter.
use yalb_link.Prelude.{ℕ, ℤ, pos, Bool, String, if◌then◌else◌}
use yalb_link.Proto.{Float32, Float64}
use yalb_link.Codec.{Target, cmd_set_message_interval}

-- Go's floating-point operations, as far as the encoders and the rate policy use them.
pub record Floats : Type 0 where
  pub f32_of_int : ℤ → Float32
  pub f64_div : Float64 → Float64 → Float64
  pub f64_to_int32 : Float64 → ℤ
  -- x <= 0
  pub f64_nonpos : Float64 → Bool

pub record CommandLong : Type 0 where
  pub target : Target
  pub command : ℕ
  pub confirmation : ℕ
  pub param1 : Float32
  pub param2 : Float32
  pub param3 : Float32
  pub param4 : Float32
  pub param5 : Float32
  pub param6 : Float32
  pub param7 : Float32

pub record ItemInt : Type 0 where
  pub target : Target
  pub seq : ℕ
  pub frame : ℕ
  pub command : ℕ
  pub current : ℕ
  pub autocontinue : ℕ
  pub param1 : Float32
  pub param2 : Float32
  pub param3 : Float32
  pub param4 : Float32
  pub x : ℤ
  pub y : ℤ
  pub z : Float32
  pub mission_type : ℕ

pub record PositionTarget : Type 0 where
  pub time_boot_ms : ℕ
  pub target : Target
  pub coordinate_frame : ℕ
  pub type_mask : ℕ
  pub lat_int : ℤ
  pub lon_int : ℤ
  pub alt : Float32

pub data Message : Type 0 where
  -- type, autopilot, base_mode, custom_mode, system_status, mavlink_version
  heartbeat : ℕ → ℕ → ℕ → ℕ → ℕ → ℕ → Message
  command_long : CommandLong → Message
  set_position_target_global_int : PositionTarget → Message
  -- param_id, param_value, param_type
  param_set : Target → String → Float32 → ℕ → Message
  param_request_list : Target → Message
  -- param_id, param_index
  param_request_read : Target → String → ℤ → Message
  -- count, mission_type
  mission_count : Target → ℕ → ℕ → Message
  mission_item_int : ItemInt → Message
  mission_request_list : Target → ℕ → Message
  -- seq, mission_type
  mission_request_int : Target → ℕ → ℕ → Message
  -- result, mission_type
  mission_ack : Target → ℕ → ℕ → Message
  mission_clear_all : Target → ℕ → Message

-- The bits of 1e-7 as a float64: degE7ToDeg.
abbrev pub deg_e7_to_deg : Float64
deg_e7_to_deg = 0x3e7ad7f29abcaf48

-- FrameGlobalRelativeAltInt, PositionOnlyTypeMask
abbrev pub frame_global_relative_alt_int : ℕ
frame_global_relative_alt_int = 6

abbrev pub position_only_type_mask : ℕ
position_only_type_mask = 0xdf8

unfoldable pub bool_to_u8 : Bool → ℕ
bool_to_u8 b = if b then 1 else 0

unfoldable pub encode_heartbeat : Message
encode_heartbeat = Message.heartbeat 6 0 0 0 4 3

-- The seven parameters are those of the Go array; 0 is the bit pattern of 0.0.
unfoldable pub encode_command_long :
    Target → ℕ → ℕ → Float32 → Float32 → Float32 → Float32 → Float32 → Float32 → Float32 → Message
encode_command_long target command confirmation p1 p2 p3 p4 p5 p6 p7 =
    Message.command_long (record {
      target = target;
      command = command;
      confirmation = confirmation;
      param1 = p1;
      param2 = p2;
      param3 = p3;
      param4 = p4;
      param5 = p5;
      param6 = p6;
      param7 = p7;
    })

unfoldable pub encode_param_set : Target → String → Float32 → ℕ → Message
encode_param_set target param_id value param_type =
    Message.param_set target param_id value param_type

unfoldable pub encode_param_request_list : Target → Message
encode_param_request_list target = Message.param_request_list target

unfoldable pub encode_param_request_read : Target → String → ℤ → Message
encode_param_request_read target param_id param_index =
    Message.param_request_read target param_id param_index

unfoldable pub encode_mission_count : Target → ℕ → ℕ → Message
encode_mission_count target count mission_type = Message.mission_count target count mission_type

unfoldable pub encode_mission_request_list : Target → ℕ → Message
encode_mission_request_list target mission_type = Message.mission_request_list target mission_type

unfoldable pub encode_mission_request_int : Target → ℕ → ℕ → Message
encode_mission_request_int target seq mission_type =
    Message.mission_request_int target seq mission_type

unfoldable pub encode_mission_ack : Target → ℕ → ℕ → Message
encode_mission_ack target result mission_type = Message.mission_ack target result mission_type

unfoldable pub encode_mission_clear_all : Target → ℕ → Message
encode_mission_clear_all target mission_type = Message.mission_clear_all target mission_type

module _ (floats : Floats) where
  open floats use {f32_of_int, f64_div, f64_to_int32}

  unfoldable pub encode_set_message_interval : Target → ℕ → ℤ → Message
  unfolding encode_command_long
  encode_set_message_interval target msg_id interval_us =
      encode_command_long target cmd_set_message_interval 0 (f32_of_int (pos msg_id))
        (f32_of_int interval_us) 0 0 0 0 0

  -- int32(deg / degE7ToDeg)
  abbrev pub to_deg_e7 : Float64 → ℤ
  to_deg_e7 deg = f64_to_int32 (f64_div deg deg_e7_to_deg)

  unfoldable pub encode_set_position_target_global_int :
      Target → Float64 → Float64 → Float32 → Message
  encode_set_position_target_global_int target lat_deg lon_deg alt_relative_m =
      Message.set_position_target_global_int (record {
        time_boot_ms = 0;
        target = target;
        coordinate_frame = frame_global_relative_alt_int;
        type_mask = position_only_type_mask;
        lat_int = to_deg_e7 lat_deg;
        lon_int = to_deg_e7 lon_deg;
        alt = alt_relative_m;
      })

  unfoldable pub encode_mission_item_int :
      Target
      → ℕ
      → ℕ
      → ℕ
      → Bool
      → Bool
      → Float32
      → Float32
      → Float32
      → Float32
      → Float64
      → Float64
      → Float32
      → ℕ
      → Message
  unfolding bool_to_u8
  encode_mission_item_int target seq frame command current auto p1 p2 p3 p4 lat_deg lon_deg alt_m
        t =
      Message.mission_item_int (record {
        target = target;
        seq = seq;
        frame = frame;
        command = command;
        current = bool_to_u8 current;
        autocontinue = bool_to_u8 auto;
        param1 = p1;
        param2 = p2;
        param3 = p3;
        param4 = p4;
        x = to_deg_e7 lat_deg;
        y = to_deg_e7 lon_deg;
        z = alt_m;
        mission_type = t;
      })
