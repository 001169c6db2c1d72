-- ===== src/Server/Update.antt =====
-- A call of Update, from its request to the unit and back to GetStatus.
use fuji_iot.Base.{ℕ, ◌<◌, ◌≡◌, refl, sym, ap, ◌∙◌, Bool, true, false, arith, if◌then◌else◌}
use fuji_iot.Register.View.{Status, view}
use fuji_iot.State.{AcState}
use fuji_iot.State.Laws.{with_status, is_fan}
use fuji_iot.Handler.Delivery.{written}
use fuji_iot.Sim
use fuji_iot.Controller.{
  AcUnitState, ProtoMode, pos, is_zero, u8_of_ℤ, begin_update, proto_mode, proto_fan, read_status,
}
use fuji_iot.Controller.Update.{
  Asks, ModeGranted, FanGranted, begin_update-merged, begin_update-Granted, begin_update-Keeps,
}
use fuji_iot.Server.{SimService, cycle}
use fuji_iot.Server.Convergence.{At, exchanged, converges}

-- What GetStatus says of a unit.
abbrev pub report : Status → AcUnitState
report v = record {
  mode = if v.enabled then proto_mode v.mode else ProtoMode.mode_off;
  fan = proto_fan v.fan;
  setpoint_temperature = pos v.temperature;
}

pub read_status-At :
    (s : SimService) (a : AcState) (v w : Status)
    → At s (with_status v a) w
    → read_status s.controller ≡ report v
unfolding read_status
read_status-At s a v w h =
    ap
      (λ (x : AcState).
        let r : AcUnitState = record {
          mode = if x.enabled then proto_mode x.mode else ProtoMode.mode_off;
          fan = proto_fan x.fan;
          setpoint_temperature = pos x.temperature;
        } in
        r)
      h.state

-- The unit does what a request asks; in fan mode it has a temperature of its own.
pub record UnitGrants (u : AcUnitState) (v : Status) : Type 0 where
  pub mode_granted : ModeGranted u.mode v.enabled v.mode
  pub fan_granted : FanGranted u.fan v.fan
  pub temperature_granted :
      is_zero u.setpoint_temperature ≡ false
      → v.temperature ≡ (if is_fan v.mode then 18 else u8_of_ℤ u.setpoint_temperature)

-- A service that calls Update.
abbrev pub request : SimService → AcUnitState → SimService
request s u = record s { controller = begin_update s.controller u }

pub request-At :
    (s : SimService) (u : AcUnitState) (a : AcState) (v : Status)
    → At s a v
    → At (request s u) (begin_update s.controller u).client.ac_state v
unfolding begin_update
request-At s u a v h = record {
  settled = record {
    sim_valid = h.settled.sim_valid;
    sim_status = h.settled.sim_status;
    idle = h.settled.idle;
  };
  state = refl;
  seen = h.seen;
}

pub exchanged_temperature :
    (t z : Bool) (x y : ℕ)
    → x ≡ (if z then x else y)
    → z ≡ false
    → (if t then 18 else if t then 0 else x) ≡ (if t then 18 else y)
exchanged_temperature t z x y g e = ground arith

-- A request of Update reaches the simulated unit. Let the unit poll its status register and have
-- registered the controller, let the controller have no query pending, no swing step to ask for and
-- the unit's error bit as its error flag, and let the request set at least one field and leave the
-- local temperature below 128. Then three rounds of DoLoop after the request the controller is
-- ready, the unit has the requested mode and fan, and the requested temperature if one is set (18
-- in fan mode), and GetStatus reports what the unit's register says.
pub update_reaches_unit :
    (s : SimService) (u : AcUnitState) (a : AcState) (v : Status)
    → At s a v
    → Asks u
    → a.swing_step ≡ false
    → (begin_update s.controller u).client.ac_state.temperature < 128
    → v.controller_present ≡ true
    → v.error ≡ a.error_flag
    → let s' = cycle (cycle (cycle (request s u))) in
      let v' = view (Sim.status s'.sim) in
      (s'.controller.ready ≡ true) × UnitGrants u v' × (read_status s'.controller ≡ report v')
update_reaches_unit s u a v h asks w t p e =
    let b = (begin_update s.controller u).client.ac_state in
    let keeps = begin_update-Keeps s.controller u in
    let grants = begin_update-Granted s.controller u in
    let (done, ready) =
      converges (request s u) b v (request-At s u a v h) (begin_update-merged s.controller u asks)
        (keeps.swing_step_kept ∙ ap (λ (x : AcState). x.swing_step) h.state ∙ w) t p
        (e ∙ sym (keeps.error_flag_kept ∙ ap (λ (x : AcState). x.error_flag) h.state)) in
    (
      ready,
      rw (done.seen) (record {
        mode_granted = grants.mode_granted;
        fan_granted = grants.fan_granted;
        temperature_granted =
            exchanged_temperature (is_fan b.mode) _ b.temperature _ grants.temperature_granted;
      }),
      read_status-At _ (written b) (exchanged b v) _ done ∙ ap report (sym done.seen),
    )
