-- ===== src/Station/Unit.antt =====
-- A serial interface with a main unit behind it that behaves like the simulated one, and what of the
-- acts at a station the unit and the controller take part in.
use fuji_iot.Controller.{Controller, settle, process_frame}
use fuji_iot.Handler.{Handler, handle_master_frame}
use fuji_iot.Handler.Shape.{handle-IsReply}
use fuji_iot.Base.{
  sym, ◌∙◌, ℕ, zero, suc, ◌≡◌, refl, Option, none, some, List, [], ◌∷◌, ◌++◌, Bool, true, false,
  if◌then◌else◌,
}
use fuji_iot.Base.Bytes.{IsBytes8}
use fuji_iot.Frame.{MasterFrame, ControllerFrame}
use fuji_iot.Sim.{Sim, get_next_master_frame, push_controller_frame}
use fuji_iot.Sim.Laws.{IsValid}
use fuji_iot.Serial.{Outcome, done, fatal}
use fuji_iot.Server.Remote.{Press, press}
use fuji_iot.Server.Session.{Event, Allowed}
use fuji_iot.Server.Interleaved.{Exchange}
use fuji_iot.Daemon.{Daemon, Loop, Call, resume}
use fuji_iot.Station.{SerialInterface, Station, Act, wake_at, wake_call, join_loop, act}

-- No act stores a temperature of 128 or more, and none is a shutdown.
abbrev pub AllowedAct : Act → Type 0
AllowedAct (Act.key p) = Allowed (Event.key p)
AllowedAct (Act.update u) = Allowed (Event.call u)
AllowedAct Act.stop = ⊥
AllowedAct _ = Unit

abbrev pub AllAllowedActs : List Act → Type 0
AllAllowedActs [] = Unit
AllAllowedActs (a ∷ later) = AllowedAct a × AllAllowedActs later

module _ {W : Type 0} where
  -- A read without a frame is not heard.
  abbrev pub heard_read : Outcome (Option MasterFrame × W) → List Event
  heard_read fatal = []
  heard_read (done (none, w)) = []
  heard_read (done (some mf, w)) = Event.round ∷ []

  module _ (i : SerialInterface W) where
    abbrev pub heard_body : W → Option MasterFrame → List Event
    heard_body w none = heard_read (i.read_master_frame w)
    heard_body w (some mf) = Event.round ∷ []

    abbrev pub heard_loop : Loop → W → Option MasterFrame → List Event
    heard_loop Loop.at_test w held = []
    heard_loop Loop.in_round w held = heard_body w held
    heard_loop Loop.ended w held = []

    abbrev pub heard_act : Act → Station W → List Event
    heard_act Act.loop s = heard_loop s.daemon.loop s.world s.held
    heard_act Act.stop s = []
    heard_act Act.join s = []
    heard_act (Act.key p) s = Event.key p ∷ []
    heard_act (Act.update u) s = Event.call u ∷ []
    heard_act Act.status s = []
    heard_act (Act.wake n) s = []

    module _ (press_key : Press → W → W) where
      -- The events that a list of acts comes to: frames read and frames handled, keys and calls.
      unfoldable pub heard : List Act → Station W → List Event
      heard [] s = []
      heard (a ∷ later) s = elim (act i press_key a s) [
        | fatal ↦ []
        | done s' ↦ heard_act a s ++ heard later s'
      ]

module _ {W : Type 0} (i : SerialInterface W) (press_key : Press → W → W) (unit : W → Sim)
    (good : W → Type 0) where
  -- ReadMasterFrame gives the unit's next frame, or none before the unit sends one.
  pub data UnitRead (w : W) : Type 0 where
    full :
        (w' : W)
        → i.read_master_frame w ≡ done (some (get_next_master_frame (unit w)).1, w')
        → unit w' ≡ (get_next_master_frame (unit w)).0
        → good w'
        → UnitRead w
    quiet :
        (w' : W) → i.read_master_frame w ≡ done (none, w') → unit w' ≡ unit w → good w' → UnitRead w

  -- What is behind the interface is a unit, as long as it is good, and stays good.
  pub record IsUnit : Type 0 where
    pub reads : (w : W) → good w → IsValid (unit w) → UnitRead w
    pub writes :
        (cf : ControllerFrame) (w : W)
        → good w
        → IsBytes8 cf.bytes
        → (w' : W) × (i.write_controller_frame cf w ≡ done w')
          × (unit w' ≡ push_controller_frame (unit w) cf)
          × good w'
    pub presses : (p : Press) (w : W) → unit (press_key p w) ≡ press p (unit w)
    pub press_keeps : (p : Press) (w : W) → good w → good (press_key p w)

-- The controller of a station, with its unit and the frame in hand.
abbrev pub exchange_of : {W : Type 0} → (W → Sim) → Station W → Exchange
exchange_of unit s = record {
  service = record { controller = s.daemon.controller; sim = unit s.world };
  held = s.held;
}

-- The end of a join leaves the controller and the loop alone.
pub join_loop-controller :
    (b : Bool) (l : Loop) (d : Daemon)
    → ((join_loop b l d).controller ≡ d.controller) × ((join_loop b l d).loop ≡ d.loop)
unfolding join_loop
join_loop-controller true Loop.ended d = (refl, refl)
join_loop-controller true Loop.at_test d = (refl, refl)
join_loop-controller true Loop.in_round d = (refl, refl)
join_loop-controller false l d = (refl, refl)

-- A call that goes on leaves the controller and the loop alone.
pub resume-controller :
    (d : Daemon) (before : List Call) (c : Call) (after : List Call)
    → ((resume d before c after).controller ≡ d.controller)
      × ((resume d before c after).loop ≡ d.loop)
unfolding resume
resume-controller d before Call.update_waits after = (refl, refl)
resume-controller d before Call.status_waits after = (refl, refl)

wake_at-controller :
    (d : Daemon) (before cs : List Call) (n : ℕ)
    → ((wake_at d before cs n).controller ≡ d.controller) × ((wake_at d before cs n).loop ≡ d.loop)
unfolding wake_at
wake_at-controller d before [] n = (refl, refl)
wake_at-controller d before (c ∷ cs) zero = resume-controller d before c cs
wake_at-controller d before (c ∷ cs) (suc n) = wake_at-controller d (before ++ c ∷ []) cs n

chosen-controller :
    (d e : Daemon) (b : Bool)
    → (e.controller ≡ d.controller) × (e.loop ≡ d.loop)
    → ((if b then e else d).controller ≡ d.controller) × ((if b then e else d).loop ≡ d.loop)
chosen-controller d e true k = k
chosen-controller d e false k = (refl, refl)

pub wake_call-controller :
    (n : ℕ) (d : Daemon)
    → ((wake_call n d).controller ≡ d.controller) × ((wake_call n d).loop ≡ d.loop)
unfolding wake_call
wake_call-controller n d =
    chosen-controller d (wake_at d [] d.calls n) d.controller.ready
      (wake_at-controller d [] d.calls n)

settle-answer : (c : Controller) (r : Handler × Option ControllerFrame) → (settle c r).1 ≡ r.1
unfolding settle
settle-answer c (h, none) = refl
settle-answer c (h, some cf) = refl

pub answer-IsBytes8 :
    (c : Controller) (f : MasterFrame) (cf : ControllerFrame)
    → (process_frame c f).1 ≡ some cf
    → IsBytes8 cf.bytes
unfolding process_frame
answer-IsBytes8 c f cf e =
    (handle-IsReply c.client f cf
      (sym (settle-answer c (handle_master_frame c.client f)) ∙ e)).bytes
