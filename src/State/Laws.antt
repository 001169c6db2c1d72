-- ===== src/State/Laws.antt =====
-- What the register says that a state builds, and what a state says that a register was merged into.
use fuji_iot.Base.{
  ◌<◌, ◌≡◌, refl, Bool, true, not, List, [], ◌∷◌, arith, if◌then◌else◌, ◌==◌, Bool-cases, inl, inr,
}
use fuji_iot.Base.Bytes.{Bytes5, IsBytes5}
use fuji_iot.Types.{Mode, mode_code}
use fuji_iot.Register
use fuji_iot.Register.View.{Status, view}
use fuji_iot.Register.Writes.{
  Write, AllFit, apply_all, assign_all, apply_all-IsBytes5, view-apply_all,
}
use fuji_iot.State.{AcState, build_status_register_response, merge_from_master_status_register}

abbrev pub is_fan : Mode → Bool
is_fan m = mode_code m == mode_code Mode.fan

-- The setter calls of BuildStatusRegisterResponse, in their order.
abbrev response_writes : AcState → List Write
response_writes s =
    let rest = Write.swing s.swing ∷ Write.swing_step s.swing_step ∷ [] in
    Write.enabled s.enabled
    ∷ Write.mode s.mode
    ∷ Write.fan s.fan
    ∷ (if not (is_fan s.mode)
        then Write.economy s.economy ∷ Write.temperature s.temperature ∷ rest
        else rest)

build-writes :
    (s : AcState) (r : Bytes5)
    → build_status_register_response s r ≡ apply_all (response_writes s) r
unfolding build_status_register_response apply_all Register.set_swing_step
build-writes s r = elim (Bool-cases (is_fan s.mode)) [ inl e ↦ rw e | inr e ↦ rw e ]

response_writes_fit : (s : AcState) → s.temperature < 128 → AllFit (response_writes s)
response_writes_fit s h = elim (Bool-cases (is_fan s.mode)) [
  | inl e ↦ rw e (omega arith)
  | inr e ↦ rw e (omega arith)
]

-- A register with the settings of a state. In fan mode it keeps its economy and temperature.
abbrev pub with_settings : AcState → Status → Status
with_settings s v = record v {
  mode = s.mode;
  enabled = s.enabled;
  fan = s.fan;
  economy = if is_fan s.mode then v.economy else s.economy;
  temperature = if is_fan s.mode then v.temperature else s.temperature;
  swing = s.swing;
  swing_step = s.swing_step;
}

assign_response_writes :
    (s : AcState) (v : Status) → assign_all (response_writes s) v ≡ with_settings s v
assign_response_writes s v = elim (Bool-cases (is_fan s.mode)) [ inl e ↦ rw e | inr e ↦ rw e ]

-- BuildStatusRegisterResponse, for a state with a temperature below 128, writes the mode, the
-- switch, the fan, the swing and the swing step of the state into a register, the economy and the
-- temperature too unless the mode is FAN, and keeps every other field of the register.
pub view-build :
    (s : AcState) (r : Bytes5)
    → IsBytes5 r
    → s.temperature < 128
    → view (build_status_register_response s r) ≡ with_settings s (view r)
view-build s r h t =
    rw (build-writes s r, view-apply_all (response_writes s) r h (response_writes_fit s t))
      (assign_response_writes s (view r))

pub build-IsBytes5 :
    (s : AcState) (r : Bytes5) → IsBytes5 r → IsBytes5 (build_status_register_response s r)
build-IsBytes5 s r h = rw (build-writes s r) (apply_all-IsBytes5 (response_writes s) r h)

-- The state that holds what a register says, but for the swing step, which it keeps.
abbrev pub with_status : Status → AcState → AcState
with_status v s = record s {
  mode = v.mode;
  enabled = v.enabled;
  fan = v.fan;
  error_flag = v.error;
  controller_present = v.controller_present;
  economy = v.economy;
  temperature = v.temperature;
  swing = v.swing;
  merged = true;
}

pub merge_lem :
    (s : AcState) (r : Bytes5) → merge_from_master_status_register s r ≡ with_status (view r) s
unfolding merge_from_master_status_register view
merge_lem s r = refl
