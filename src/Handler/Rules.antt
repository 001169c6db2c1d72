-- ===== src/Handler/Rules.antt =====
-- The wired controller's side of the protocol as a machine of its own, without bytes: what a frame
-- says, what an answer says, and the rules by which the handler of
-- protocol/fuji_ac_protocol_handler.cc answers.
pub mod Answers
pub mod Machine
use fuji_iot.Base.{◌≡◌, Bool, true, false, not, ◌||◌, ◌==◌, Option, none, some, List, [], ◌∷◌}
use fuji_iot.Types.{Mode, Fan}
use fuji_iot.Register.View.{Status, view}
use fuji_iot.Frame
use fuji_iot.Frame.{MasterFrame, ControllerFrame, DestinationAddr, RegisterType, master_payload}
use fuji_iot.State.Laws.{with_settings, with_status}
use fuji_iot.Handler.{Handler, handle_master_frame, differ}
use fuji_iot.Handler.Replies.{blank_status}

-- What a frame of the main unit says.
pub data Message : Type 0 where
  elsewhere error_register unknown_register login_register : Message
  status_register : Status → Message

unfoldable pub register_message : RegisterType → Status → Message
register_message RegisterType.status v = Message.status_register v
register_message RegisterType.login v = Message.login_register
register_message RegisterType.error v = Message.error_register
register_message RegisterType.unknown v = Message.unknown_register

unfoldable pub addressed : DestinationAddr → Message → Message
addressed DestinationAddr.wired_controller_addr m = m
addressed DestinationAddr.other m = Message.elsewhere
addressed DestinationAddr.unknown m = Message.elsewhere

unfoldable pub message : MasterFrame → Message
unfolding register_message addressed
message f =
    addressed (Frame.destination f)
      (register_message (Frame.register_type f) (view (master_payload f)))

-- What an answer of the wired controller says.
pub record Reply : Type 0 where
  pub login_bit : Bool
  pub write_bit : Bool
  pub query_register : RegisterType
  pub settings : Status

unfoldable pub reply_of : ControllerFrame → Reply
reply_of f = record {
  login_bit = Frame.login_bit f;
  write_bit = Frame.write_bit f;
  query_register = Frame.query_register f;
  settings = view (Frame.controller_payload f);
}

abbrev pub nothing : Status
nothing = record blank_status { controller_present = false }

-- A query for a register.
abbrev pub asks : RegisterType → Reply
asks t = record { login_bit = false; write_bit = false; query_register = t; settings = nothing }

-- The settings of the handler's state.
abbrev pub tells : Bool → Bool → Handler → Reply
tells login write h = record {
  login_bit = login;
  write_bit = write;
  query_register = RegisterType.status;
  settings = with_settings h.ac_state blank_status;
}

-- What a STATUS register does to the handler: nothing while a local change waits, else it is taken
-- over, and leaves queries to be sent.
pub data Hears : Handler → Status → Handler → Type 0 where
  keeps : (h : Handler) (v : Status) → h.ac_state.merged ≡ false → Hears h v h
  takes :
      (h : Handler) (v : Status)
      → h.ac_state.merged ≡ true
      → Hears h v (record {
        ac_state = with_status v h.ac_state;
        error_read = h.error_read || differ h.ac_state.error_flag v.error;
        login_read = h.login_read || not v.controller_present;
      })

-- The answer to a STATUS register: first a login query, then an error query, then a local change,
-- then the settings. A change with a swing step is written again without it.
pub data Responds : Handler → Reply → Handler → Type 0 where
  asks_login :
      (h : Handler)
      → h.login_read ≡ true
      → Responds h (asks RegisterType.login) (record h { login_read = false })
  asks_error :
      (h : Handler)
      → h.login_read ≡ false
      → h.error_read ≡ true
      → Responds h (asks RegisterType.error) (record h { error_read = false })
  repeats :
      (h : Handler)
      → h.login_read ≡ false
      → h.error_read ≡ false
      → h.ac_state.merged ≡ true
      → Responds h (tells false false h) h
  writes :
      (h : Handler)
      → h.login_read ≡ false
      → h.error_read ≡ false
      → h.ac_state.merged ≡ false
      → h.ac_state.swing_step ≡ false
      → Responds h
          (tells false true h)
          (record h { ac_state = record (h.ac_state) { merged = true } })
  writes_step :
      (h : Handler)
      → h.login_read ≡ false
      → h.error_read ≡ false
      → h.ac_state.merged ≡ false
      → h.ac_state.swing_step ≡ true
      → Responds h
          (tells false true h)
          (record h { ac_state = record (h.ac_state) { swing_step = false; merged = false } })

-- One exchange: the handler, what it is told, what it answers if it does, and the handler behind it.
pub data Rule : Handler → Message → Option Reply → Handler → Type 0 where
  ignores_elsewhere : (h : Handler) → Rule h Message.elsewhere none h
  ignores_error : (h : Handler) → Rule h Message.error_register none h
  ignores_unknown : (h : Handler) → Rule h Message.unknown_register none h
  confirms : (h : Handler) → Rule h Message.login_register (some (tells true false h)) h
  answers :
      (h g k : Handler) (v : Status) (r : Reply)
      → Hears h v g
      → Responds g r k
      → Rule h (Message.status_register v) (some r) k

-- Exchanges one behind the other.
pub data Rules : Handler → List Message → List (Option Reply) → Handler → Type 0 where
  ends : (h : Handler) → Rules h [] [] h
  goes_on :
      {h g k : Handler} {m : Message} {r : Option Reply} {ms : List Message}
      {rs : List (Option Reply)}
      → Rule h m r g
      → Rules g ms rs k
      → Rules h (m ∷ ms) (r ∷ rs) k
