-- ===== src/Frame/Laws.antt =====
-- What each method of the two frame classes does to what the others read.
use fuji_iot.Base.{ℕ, ◌*◌, ◌<◌, ◌≡◌, refl, Bool, not, arith, ltb, ◌==◌}
use fuji_iot.Base.Bytes.{Bytes5, IsBytes8, of_bool}
use fuji_iot.Frame
use fuji_iot.Frame.{
  MasterFrame, ControllerFrame, DestinationAddr, RegisterType, destination_code, type_code,
  destination_of, type_of, query_of, with_unknown_bit, with_destination, with_type,
  with_query_register, with_login_bit, with_write_bit, with_payload, master_payload, empty_frame,
}
use fuji_iot.Frame.Bits.{
  put_destination_bits, put_unknown_bits, put_type_bits, put_write_bits, put_login_bits,
}

-- What the getters of FujiMasterFrame say.
pub record MasterView : Type 0 where
  pub unknown_bit : Bool
  pub destination : DestinationAddr
  pub register_type : RegisterType
  pub payload : Bytes5

unfoldable pub master_view : MasterFrame → MasterView
unfolding Frame.unknown_bit Frame.destination Frame.register_type Frame.master_payload
master_view f = record {
  unknown_bit = Frame.unknown_bit f;
  destination = Frame.destination f;
  register_type = Frame.register_type f;
  payload = master_payload f;
}

-- What the getters of FujiControllerFrame say.
pub record ControllerView : Type 0 where
  pub login_bit : Bool
  pub write_bit : Bool
  pub query_register : RegisterType
  pub payload : Bytes5

unfoldable pub controller_view : ControllerFrame → ControllerView
unfolding Frame.login_bit Frame.write_bit Frame.query_register Frame.controller_payload
controller_view f = record {
  login_bit = Frame.login_bit f;
  write_bit = Frame.write_bit f;
  query_register = Frame.query_register f;
  payload = Frame.controller_payload f;
}

destination_of-code : (d : DestinationAddr) → destination_of (destination_code d) ≡ d
unfolding destination_of
destination_of-code d = ground arith

type_of-code : (t : RegisterType) → type_of (type_code t) ≡ t
unfolding type_of
type_of-code t = ground arith

query_of-code : (t : RegisterType) → query_of (type_code t) ≡ t
unfolding query_of
query_of-code t = ground arith

destination_code-lt : (d : DestinationAddr) → destination_code d < 128
destination_code-lt d = ground arith

type_code-lt : (t : RegisterType) → type_code t < 4
type_code-lt t = ground arith

ltb-bit : (b : Bool) (n : ℕ) → n ≡ of_bool b * 128 → ltb 0 n ≡ b
ltb-bit b n h = ground arith

nonzero-bit : (b : Bool) (k n : ℕ) → 0 < k → n ≡ of_bool b * k → not (n == 0) ≡ b
nonzero-bit b k n p h = ground arith

pub master_view-with_unknown_bit :
    (f : MasterFrame) (bit : Bool)
    → IsBytes8 f.bytes
    → master_view (with_unknown_bit f bit) ≡ record (master_view f) { unknown_bit = bit }
unfolding master_view with_unknown_bit
master_view-with_unknown_bit f bit h =
    let (top, low) = put_unknown_bits f.bytes.d1 bit h.d1_lt in rw (ltb-bit bit _ top, low)

pub master_view-with_destination :
    (f : MasterFrame) (d : DestinationAddr)
    → IsBytes8 f.bytes
    → master_view (with_destination f d) ≡ record (master_view f) { destination = d }
unfolding master_view with_destination
master_view-with_destination f d h =
    let (low, top) =
      put_destination_bits f.bytes.d1 (destination_code d) h.d1_lt (destination_code-lt d) in
    rw (low, top, destination_of-code d)

pub master_view-with_type :
    (f : MasterFrame) (t : RegisterType)
    → IsBytes8 f.bytes
    → master_view (with_type f t) ≡ record (master_view f) { register_type = t }
unfolding master_view with_type
master_view-with_type f t h =
    let (code, _, _) = put_type_bits f.bytes.d2 (type_code t) h.d2_lt (type_code-lt t) in
    rw (code, type_of-code t)

pub controller_view-with_query_register :
    (f : ControllerFrame) (t : RegisterType)
    → IsBytes8 f.bytes
    → controller_view (with_query_register f t) ≡ record (controller_view f) { query_register = t }
unfolding controller_view with_query_register
controller_view-with_query_register f t h =
    let (_, code, write) = put_type_bits f.bytes.d2 (type_code t) h.d2_lt (type_code-lt t) in
    rw (code, write, query_of-code t)

pub controller_view-with_write_bit :
    (f : ControllerFrame) (bit : Bool)
    → IsBytes8 f.bytes
    → controller_view (with_write_bit f bit) ≡ record (controller_view f) { write_bit = bit }
unfolding controller_view with_write_bit
controller_view-with_write_bit f bit h =
    let (write, query) = put_write_bits f.bytes.d2 bit h.d2_lt in
    rw (nonzero-bit bit 8 _ (omega arith) write, query)

pub controller_view-with_login_bit :
    (f : ControllerFrame) (bit : Bool)
    → IsBytes8 f.bytes
    → controller_view (with_login_bit f bit) ≡ record (controller_view f) { login_bit = bit }
unfolding controller_view with_login_bit
controller_view-with_login_bit f bit h =
    rw (nonzero-bit bit 32 _ (omega arith) (put_login_bits f.bytes.d1 bit h.d1_lt))

pub controller_view-with_payload :
    (f : ControllerFrame) (p : Bytes5)
    → controller_view (with_payload f p) ≡ record (controller_view f) { payload = p }
unfolding controller_view with_payload
controller_view-with_payload f p = refl

-- Each of the three With methods of FujiMasterFrame, on a frame of eight bytes, gives its own field
-- the value and leaves what the other getters read.
pub master_setters :
    (f : MasterFrame) (bit : Bool) (d : DestinationAddr) (t : RegisterType)
    → IsBytes8 f.bytes
    → (master_view (with_unknown_bit f bit) ≡ record (master_view f) { unknown_bit = bit })
      × (master_view (with_destination f d) ≡ record (master_view f) { destination = d })
      × (master_view (with_type f t) ≡ record (master_view f) { register_type = t })
master_setters f bit d t h = (
  master_view-with_unknown_bit f bit h,
  master_view-with_destination f d h,
  master_view-with_type f t h,
)

-- Each of the four With methods of FujiControllerFrame, on a frame of eight bytes, gives its own
-- field the value and leaves what the other getters read.
pub controller_setters :
    (f : ControllerFrame) (t : RegisterType) (login write : Bool) (p : Bytes5)
    → IsBytes8 f.bytes
    → (controller_view (with_query_register f t)
        ≡ record (controller_view f) { query_register = t })
      × (controller_view (with_login_bit f login)
          ≡ record (controller_view f) { login_bit = login })
      × (controller_view (with_write_bit f write)
          ≡ record (controller_view f) { write_bit = write })
      × (controller_view (with_payload f p) ≡ record (controller_view f) { payload = p })
controller_setters f t login write p h = (
  controller_view-with_query_register f t h,
  controller_view-with_login_bit f login h,
  controller_view-with_write_bit f write h,
  controller_view-with_payload f p,
)
