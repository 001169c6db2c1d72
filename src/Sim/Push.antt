-- ===== src/Sim/Push.antt =====
-- What the simulated unit takes over from the controller's frames.
use fuji_iot.Base.{
  ◌≡◌, ap, Bool, true, false, not, List, [], ◌∷◌, arith, inl, inr, if◌then◌else◌, Bool-cases,
}
use fuji_iot.Base.Bytes.{Bytes5, IsBytes5}
use fuji_iot.Register
use fuji_iot.Register.View.{Status, view, temperature-lt}
use fuji_iot.Register.Writes.{
  Write, AllFit, apply_all, assign_all, view-apply_all, apply_all-IsBytes5,
}
use fuji_iot.Frame.{ControllerFrame, RegisterType}
use fuji_iot.Frame.Laws.{controller_view}
use fuji_iot.State.{AcState, build_status_register_response}
use fuji_iot.State.Laws.{is_fan}
use fuji_iot.Handler.{blank_payload}
use fuji_iot.Handler.Replies.{settings_reply, query_for}
use fuji_iot.Sim.{Sim, status, with_status, take_settings, push_controller_frame}

-- The setter calls of a write, in their order.
abbrev taken_writes : Bytes5 → List Write
taken_writes p =
    Write.enabled (Register.enabled p)
    ∷ Write.mode (Register.mode p)
    ∷ Write.fan (Register.fan p)
    ∷ Write.economy (Register.economy p)
    ∷ Write.swing (Register.swing p)
    ∷ Write.swing_step (Register.swing_step p)
    ∷ (if not (is_fan (Register.mode p))
        then Write.temperature (Register.temperature p) ∷ Write.update_magic 0 ∷ []
        else Write.temperature 18 ∷ Write.update_magic 4 ∷ [])

take_settings-writes : (r p : Bytes5) → take_settings r p ≡ apply_all (taken_writes p) r
unfolding take_settings apply_all Register.set_update_magic
take_settings-writes r p = elim (Bool-cases (is_fan (Register.mode p))) [
  | inl e ↦ rw e
  | inr e ↦ rw e
]

taken_writes_fit : (p : Bytes5) → IsBytes5 p → AllFit (taken_writes p)
taken_writes_fit p h = elim (Bool-cases (is_fan (Register.mode p))) [
  | inl e ↦ rw e (omega arith)
  | inr e ↦ rw e (omega (arith, temperature-lt p h))
]

-- A status register with the settings of a payload; in fan mode the temperature is 18.
abbrev pub adopt : Status → Status → Status
adopt p v = record v {
  enabled = p.enabled;
  mode = p.mode;
  fan = p.fan;
  economy = p.economy;
  swing = p.swing;
  swing_step = p.swing_step;
  temperature = if is_fan p.mode then 18 else p.temperature;
  update_magic = if is_fan p.mode then 4 else 0;
}

assign_taken_writes : (p : Bytes5) (v : Status) → assign_all (taken_writes p) v ≡ adopt (view p) v
unfolding view
assign_taken_writes p v = elim (Bool-cases (is_fan (Register.mode p))) [
  | inl e ↦ rw e
  | inr e ↦ rw e
]

-- A write of the controller gives the unit's register the switch, the mode, the fan, the economy,
-- the swing and the swing step of the payload, and its temperature with the update magic 0, or in
-- mode FAN the temperature 18 with the update magic 4; the error bit and the registration stay.
pub view-take_settings :
    (r p : Bytes5) → IsBytes5 r → IsBytes5 p → view (take_settings r p) ≡ adopt (view p) (view r)
view-take_settings r p h g =
    rw (take_settings-writes r p, view-apply_all (taken_writes p) r h (taken_writes_fit p g))
      (assign_taken_writes p (view r))

pub take_settings-IsBytes5 : (r p : Bytes5) → IsBytes5 r → IsBytes5 (take_settings r p)
take_settings-IsBytes5 r p h =
    rw (take_settings-writes r p) (apply_all-IsBytes5 (taken_writes p) r h)

-- The unit behind an answer of the handler to a status frame.
pub push-settings :
    (s : Sim) (cf : ControllerFrame) (write : Bool) (a : AcState)
    → controller_view cf ≡ settings_reply false write a
    → push_controller_frame s cf
      ≡ with_status
          (record s { next_query_register = RegisterType.status })
          (if write
            then take_settings (status s) (build_status_register_response a blank_payload)
            else status s)
unfolding controller_view push_controller_frame
push-settings s cf true a e = rw (
  ap (λ v. v.query_register) e,
  ap (λ v. v.login_bit) e,
  ap (λ v. v.write_bit) e,
  ap (λ v. v.payload) e,
)
push-settings s cf false a e =
    rw (ap (λ v. v.query_register) e, ap (λ v. v.login_bit) e, ap (λ v. v.write_bit) e)

-- The unit behind a query for a register.
pub push-query_login :
    (s : Sim) (cf : ControllerFrame)
    → controller_view cf ≡ query_for RegisterType.login
    → push_controller_frame s cf ≡ record s { next_query_register = RegisterType.login }
unfolding controller_view push_controller_frame
push-query_login s cf e = rw (ap (λ v. v.query_register) e, ap (λ v. v.login_bit) e)

-- The unit behind the answer to a login frame.
pub push-logged_in :
    (s : Sim) (cf : ControllerFrame) (a : AcState)
    → controller_view cf ≡ settings_reply true false a
    → push_controller_frame s cf
      ≡ with_status
          (record s { next_query_register = RegisterType.status })
          (Register.set_controller_present (status s) true)
unfolding controller_view push_controller_frame
push-logged_in s cf a e =
    rw (ap (λ v. v.query_register) e, ap (λ v. v.login_bit) e, ap (λ v. v.write_bit) e)
