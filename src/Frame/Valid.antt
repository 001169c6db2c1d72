-- ===== src/Frame/Valid.antt =====
-- The bytes of a frame, as the methods of the two frame classes leave them.
use fuji_iot.Base.{Bool, true, false, arith}
use fuji_iot.Base.Bytes.{Bytes5, Bytes8, IsBytes5, IsBytes8}
use fuji_iot.Frame.{
  MasterFrame, ControllerFrame, DestinationAddr, RegisterType, tail_of, with_tail, with_unknown_bit,
  with_destination, with_type, with_query_register, with_login_bit, with_write_bit, with_payload,
}

pub tail_of-IsBytes5 : (d : Bytes8) → IsBytes8 d → IsBytes5 (tail_of d)
tail_of-IsBytes5 d h = omega arith

pub with_tail-IsBytes8 :
    (d : Bytes8) (p : Bytes5) → IsBytes8 d → IsBytes5 p → IsBytes8 (with_tail d p)
with_tail-IsBytes8 d p h g = omega arith

pub with_type-IsBytes8 :
    (f : MasterFrame) (t : RegisterType) → IsBytes8 f.bytes → IsBytes8 (with_type f t).bytes
unfolding with_type
with_type-IsBytes8 f t h = omega arith

pub with_unknown_bit-IsBytes8 :
    (f : MasterFrame) (bit : Bool) → IsBytes8 f.bytes → IsBytes8 (with_unknown_bit f bit).bytes
unfolding with_unknown_bit
with_unknown_bit-IsBytes8 f true h = omega arith
with_unknown_bit-IsBytes8 f false h = omega arith

pub with_destination-IsBytes8 :
    (f : MasterFrame) (d : DestinationAddr)
    → IsBytes8 f.bytes
    → IsBytes8 (with_destination f d).bytes
unfolding with_destination
with_destination-IsBytes8 f d h = omega arith

pub with_query_register-IsBytes8 :
    (f : ControllerFrame) (t : RegisterType)
    → IsBytes8 f.bytes
    → IsBytes8 (with_query_register f t).bytes
unfolding with_query_register
with_query_register-IsBytes8 f t h = omega arith

pub with_login_bit-IsBytes8 :
    (f : ControllerFrame) (bit : Bool) → IsBytes8 f.bytes → IsBytes8 (with_login_bit f bit).bytes
unfolding with_login_bit
with_login_bit-IsBytes8 f true h = omega arith
with_login_bit-IsBytes8 f false h = omega arith

pub with_write_bit-IsBytes8 :
    (f : ControllerFrame) (bit : Bool) → IsBytes8 f.bytes → IsBytes8 (with_write_bit f bit).bytes
unfolding with_write_bit
with_write_bit-IsBytes8 f true h = omega arith
with_write_bit-IsBytes8 f false h = omega arith

pub with_payload-IsBytes8 :
    (f : ControllerFrame) (p : Bytes5)
    → IsBytes8 f.bytes
    → IsBytes5 p
    → IsBytes8 (with_payload f p).bytes
unfolding with_payload
with_payload-IsBytes8 f p h g = omega arith
