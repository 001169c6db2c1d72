-- ===== src/Frame.antt =====
-- protocol/fuji_frame.h and .cc: the 8-byte frames of the main unit and of the wired controller.
-- A method that changes the frame returns the new one.
mod Bits
pub mod Laws
pub mod Valid
use fuji_iot.Base.{ℕ, Bool, not, bit_and, bit_or, if◌then◌else◌, ◌==◌, ltb}
use fuji_iot.Base.Bytes.{Bytes5, Bytes8, u8, shl, shr, bytes_eq}

pub data DestinationAddr : Type 0 where
  unknown wired_controller_addr other : DestinationAddr

pub data RegisterType : Type 0 where
  status error login unknown : RegisterType

-- static_cast<uint8_t>(dest).
abbrev pub destination_code : DestinationAddr → ℕ
destination_code DestinationAddr.unknown = 0
destination_code DestinationAddr.wired_controller_addr = 32
destination_code DestinationAddr.other = 1

-- static_cast<uint8_t>(type).
abbrev pub type_code : RegisterType → ℕ
type_code RegisterType.status = 0
type_code RegisterType.error = 1
type_code RegisterType.login = 2
type_code RegisterType.unknown = 3

pub record MasterFrame : Type 0 where
  pub bytes : Bytes8

pub record ControllerFrame : Type 0 where
  pub bytes : Bytes8

-- Elements 3 to 7 of a frame.
abbrev pub tail_of : Bytes8 → Bytes5
tail_of d = record { b0 = d.d3; b1 = d.d4; b2 = d.d5; b3 = d.d6; b4 = d.d7 }

-- The same, overwritten.
abbrev pub with_tail : Bytes8 → Bytes5 → Bytes8
with_tail d p = record d { d3 = p.b0; d4 = p.b1; d5 = p.b2; d6 = p.b3; d7 = p.b4 }

unfoldable pub unknown_bit : MasterFrame → Bool
unknown_bit f = ltb 0 (bit_and f.bytes.d1 0b10000000)

unfoldable pub with_unknown_bit : MasterFrame → Bool → MasterFrame
with_unknown_bit f bit =
    let b = u8 (bit_and f.bytes.d1 0b01111111) in
    record { bytes = record (f.bytes) { d1 = if bit then u8 (bit_or b 0b10000000) else b } }

-- The switch of `Destination`.
unfoldable pub destination_of : ℕ → DestinationAddr
destination_of n =
    if n == destination_code DestinationAddr.wired_controller_addr
    then DestinationAddr.wired_controller_addr
    else if n == destination_code DestinationAddr.other
    then DestinationAddr.other
    else DestinationAddr.unknown

unfoldable pub destination : MasterFrame → DestinationAddr
destination f = destination_of (bit_and f.bytes.d1 0b01111111)

unfoldable pub with_destination : MasterFrame → DestinationAddr → MasterFrame
with_destination f dest =
    let b = u8 (bit_and f.bytes.d1 0b10000000) in
    record {
      bytes = record (f.bytes) { d1 = u8 (bit_or b (bit_and (destination_code dest) 0b01111111)) };
    }

-- The switch of `Type`.
unfoldable pub type_of : ℕ → RegisterType
type_of n =
    if n == type_code RegisterType.status
    then RegisterType.status
    else if n == type_code RegisterType.error
    then RegisterType.error
    else if n == type_code RegisterType.login
    then RegisterType.login
    else RegisterType.unknown

unfoldable pub register_type : MasterFrame → RegisterType
register_type f = type_of (bit_and (shr f.bytes.d2 4) 0b11)

unfoldable pub with_type : MasterFrame → RegisterType → MasterFrame
with_type f type =
    let b = u8 (bit_and f.bytes.d2 0b11001111) in
    record { bytes = record (f.bytes) { d2 = u8 (bit_or b (shl (type_code type) 4)) } }

unfoldable pub master_payload : MasterFrame → Bytes5
master_payload f = tail_of f.bytes

unfoldable pub empty_frame : ControllerFrame
empty_frame = record {
  bytes = record (new) { d0 = destination_code DestinationAddr.wired_controller_addr };
}
  where
    new : Bytes8
    new = record { d0 = 0; d1 = 129; d2 = 0; d3 = 0; d4 = 0; d5 = 0; d6 = 0; d7 = 0 }

unfoldable pub with_query_register : ControllerFrame → RegisterType → ControllerFrame
with_query_register f type =
    let b = u8 (bit_and f.bytes.d2 0b11001111) in
    record { bytes = record (f.bytes) { d2 = u8 (bit_or b (shl (type_code type) 4)) } }

-- The switch of `QueryRegister`.
unfoldable pub query_of : ℕ → RegisterType
query_of n =
    if n == 0
    then RegisterType.status
    else if n == 1
    then RegisterType.error
    else if n == 2
    then RegisterType.login
    else RegisterType.unknown

unfoldable pub query_register : ControllerFrame → RegisterType
query_register f = query_of (shr (bit_and f.bytes.d2 0b00110000) 4)

unfoldable pub with_login_bit : ControllerFrame → Bool → ControllerFrame
with_login_bit f bit = record {
  bytes = record (f.bytes) {
    d1 = if bit then u8 (bit_or f.bytes.d1 0b00100000) else u8 (bit_and f.bytes.d1 0b11011111);
  };
}

unfoldable pub login_bit : ControllerFrame → Bool
login_bit f = not (bit_and f.bytes.d1 0b00100000 == 0)

unfoldable pub with_write_bit : ControllerFrame → Bool → ControllerFrame
with_write_bit f write = record {
  bytes = record (f.bytes) {
    d2 = if write then u8 (bit_or f.bytes.d2 0b00001000) else u8 (bit_and f.bytes.d2 0b11110111);
  };
}

unfoldable pub write_bit : ControllerFrame → Bool
write_bit f = not (bit_and f.bytes.d2 0b00001000 == 0)

unfoldable pub controller_payload : ControllerFrame → Bytes5
controller_payload f = tail_of f.bytes

unfoldable pub with_payload : ControllerFrame → Bytes5 → ControllerFrame
with_payload f payload = record { bytes = with_tail f.bytes payload }

-- `operator==` of FujiControllerFrame.
unfoldable pub frame_eq : ControllerFrame → ControllerFrame → Bool
frame_eq a b = bytes_eq a.bytes b.bytes

-- `operator!=`.
unfoldable pub frame_ne : ControllerFrame → ControllerFrame → Bool
unfolding frame_eq
frame_ne a b = not (frame_eq a b)

-- `operator==` of FujiMasterFrame.
unfoldable pub master_frame_eq : MasterFrame → MasterFrame → Bool
master_frame_eq a b = bytes_eq a.bytes b.bytes

unfoldable pub controller_address : ControllerFrame → DestinationAddr
controller_address f = DestinationAddr.wired_controller_addr
