-- ===== src/Client/Wanted.antt =====
-- What the flags of the command line client ask for: the values of --mode, --fan and --setpoint.
use Prim.Native.String.{String}
use fuji_iot.Base.{◌<◌, ◌≤◌, ◌≡◌, sym, ap, ◌∙◌, ◌⊎◌, inl, inr, arith}
use fuji_iot.Controller.{ℤ, pos, negsuc, AcUnitState, ProtoMode, ProtoFan}
use fuji_iot.Client.{Flags, request_mode, request_fan, request_setpoint, run_client}

-- A value of --mode, or no value, and the mode that it stands for.
abbrev pub ModeFlag : String → ProtoMode → Type 0
ModeFlag s m =
    ((s ≡ "") × (m ≡ ProtoMode.mode_unknown))
    ⊎ ((s ≡ "off") × (m ≡ ProtoMode.mode_off))
    ⊎ ((s ≡ "cool") × (m ≡ ProtoMode.mode_cool))
    ⊎ ((s ≡ "dry") × (m ≡ ProtoMode.mode_dry))
    ⊎ ((s ≡ "fan") × (m ≡ ProtoMode.mode_fan))
    ⊎ ((s ≡ "heat") × (m ≡ ProtoMode.mode_heat))

abbrev pub FanFlag : String → ProtoFan → Type 0
FanFlag s f =
    ((s ≡ "") × (f ≡ ProtoFan.fan_unknown))
    ⊎ ((s ≡ "low") × (f ≡ ProtoFan.fan_low))
    ⊎ ((s ≡ "medium") × (f ≡ ProtoFan.fan_medium))
    ⊎ ((s ≡ "high") × (f ≡ ProtoFan.fan_high))
    ⊎ ((s ≡ "max") × (f ≡ ProtoFan.fan_max))

-- A setpoint from 18 to 28 stands for itself, and any other for none.
abbrev pub SetpointFlag : ℤ → ℤ → Type 0
SetpointFlag (negsuc n) t = t ≡ pos 0
SetpointFlag (pos n) t =
    ((n < 18) × (t ≡ pos 0)) ⊎ ((28 < n) × (t ≡ pos 0)) ⊎ ((18 ≤ n) × (n ≤ 28) × (t ≡ pos n))

-- The request that a user of the client means.
pub record Wants (flags : Flags) (u : AcUnitState) : Type 0 where
  pub mode_wanted : ModeFlag flags.mode u.mode
  pub fan_wanted : FanFlag flags.fan u.fan
  pub setpoint_wanted : SetpointFlag flags.setpoint u.setpoint_temperature

same_mode : (s t : String) (m : ProtoMode) → s ≡ t → m ≡ request_mode t → request_mode s ≡ m
same_mode s t m e k = ap request_mode e ∙ sym k

mode_made : (s : String) (m : ProtoMode) → ModeFlag s m → request_mode s ≡ m
unfolding request_mode
mode_made s m (inl (e, k)) = same_mode s _ m e k
mode_made s m (inr (inl (e, k))) = same_mode s _ m e k
mode_made s m (inr (inr (inl (e, k)))) = same_mode s _ m e k
mode_made s m (inr (inr (inr (inl (e, k))))) = same_mode s _ m e k
mode_made s m (inr (inr (inr (inr (inl (e, k)))))) = same_mode s _ m e k
mode_made s m (inr (inr (inr (inr (inr (e, k)))))) = same_mode s _ m e k

same_fan : (s t : String) (f : ProtoFan) → s ≡ t → f ≡ request_fan t → request_fan s ≡ f
same_fan s t f e k = ap request_fan e ∙ sym k

fan_made : (s : String) (f : ProtoFan) → FanFlag s f → request_fan s ≡ f
unfolding request_fan
fan_made s f (inl (e, k)) = same_fan s _ f e k
fan_made s f (inr (inl (e, k))) = same_fan s _ f e k
fan_made s f (inr (inr (inl (e, k)))) = same_fan s _ f e k
fan_made s f (inr (inr (inr (inl (e, k))))) = same_fan s _ f e k
fan_made s f (inr (inr (inr (inr (e, k))))) = same_fan s _ f e k

setpoint_made : (z t : ℤ) → SetpointFlag z t → request_setpoint z ≡ t
unfolding request_setpoint
setpoint_made (negsuc n) t k = sym k
setpoint_made (pos n) t (inl (l, k)) = ground (arith, l, k)
setpoint_made (pos n) t (inr (inl (l, k))) = ground (arith, l, k)
setpoint_made (pos n) t (inr (inr (l, h, k))) = ground (arith, l, h, k)

-- RunClient makes the request that is meant.
pub run_client-Wants : (flags : Flags) (u : AcUnitState) → Wants flags u → run_client flags ≡ u
unfolding run_client
run_client-Wants flags u w = λ i. record {
  mode = mode_made flags.mode u.mode w.mode_wanted i;
  fan = fan_made flags.fan u.fan w.fan_wanted i;
  setpoint_temperature = setpoint_made flags.setpoint u.setpoint_temperature w.setpoint_wanted i;
}
