-- ===== src/Register/Writes.antt =====
-- The setters of FujiStatusRegister as writes to a memory of ten independent fields.
use fuji_iot.Base.{ℕ, zero, suc, ◌<◌, ◌≡◌, refl, Bool, List, [], ◌∷◌, arith}
use fuji_iot.Base.Bytes.{Bytes5, IsBytes5}
use fuji_iot.Types.{Mode, Fan}
use fuji_iot.Register.{
  set_at, set_mode, set_fan, set_enabled, set_error, set_economy, set_temperature, set_update_magic,
  set_swing, set_swing_step, set_controller_present,
}
use fuji_iot.Register.Layout.Laws.{insert_bits-lt}
use fuji_iot.Register.View.{
  Status, view, view-set_mode, view-set_fan, view-set_enabled, view-set_error, view-set_economy,
  view-set_temperature, view-set_update_magic, view-set_swing, view-set_swing_step,
  view-set_controller_present,
}

-- A call of one setter.
pub data Write : Type 0 where
  mode : Mode → Write
  fan : Fan → Write
  enabled : Bool → Write
  error : Bool → Write
  economy : Bool → Write
  temperature : ℕ → Write
  update_magic : ℕ → Write
  swing : Bool → Write
  swing_step : Bool → Write
  controller_present : Bool → Write

-- A temperature of seven bits and an update magic of four fit their fields.
abbrev pub Fits : Write → Type 0
Fits (Write.temperature v) = v < 128
Fits (Write.update_magic v) = v < 16
Fits _ = Unit {0}

unfoldable pub apply : Write → Bytes5 → Bytes5
apply (Write.mode v) r = set_mode r v
apply (Write.fan v) r = set_fan r v
apply (Write.enabled v) r = set_enabled r v
apply (Write.error v) r = set_error r v
apply (Write.economy v) r = set_economy r v
apply (Write.temperature v) r = set_temperature r v
apply (Write.update_magic v) r = set_update_magic r v
apply (Write.swing v) r = set_swing r v
apply (Write.swing_step v) r = set_swing_step r v
apply (Write.controller_present v) r = set_controller_present r v

abbrev pub assign : Write → Status → Status
assign (Write.mode v) s = record s { mode = v }
assign (Write.fan v) s = record s { fan = v }
assign (Write.enabled v) s = record s { enabled = v }
assign (Write.error v) s = record s { error = v }
assign (Write.economy v) s = record s { economy = v }
assign (Write.temperature v) s = record s { temperature = v }
assign (Write.update_magic v) s = record s { update_magic = v }
assign (Write.swing v) s = record s { swing = v }
assign (Write.swing_step v) s = record s { swing_step = v }
assign (Write.controller_present v) s = record s { controller_present = v }

pub set_at-IsBytes5 : (r : Bytes5) (i b : ℕ) → IsBytes5 r → b < 256 → IsBytes5 (set_at r i b)
set_at-IsBytes5 r zero b h lt = omega arith
set_at-IsBytes5 r (suc zero) b h lt = omega arith
set_at-IsBytes5 r (suc (suc zero)) b h lt = omega arith
set_at-IsBytes5 r (suc (suc (suc zero))) b h lt = omega arith
set_at-IsBytes5 r (suc (suc (suc (suc i)))) b h lt = omega arith

-- Every setter leaves bytes behind, whatever its argument.
pub apply-IsBytes5 : (w : Write) (r : Bytes5) → IsBytes5 r → IsBytes5 (apply w r)
unfolding apply set_mode set_fan set_enabled set_error set_economy set_temperature set_update_magic
    set_swing set_swing_step set_controller_present
apply-IsBytes5 (Write.mode v) r h = set_at-IsBytes5 r 0 _ h (insert_bits-lt _ _ _)
apply-IsBytes5 (Write.fan v) r h = set_at-IsBytes5 r 0 _ h (insert_bits-lt _ _ _)
apply-IsBytes5 (Write.enabled v) r h = set_at-IsBytes5 r 0 _ h (insert_bits-lt _ _ _)
apply-IsBytes5 (Write.error v) r h = set_at-IsBytes5 r 0 _ h (insert_bits-lt _ _ _)
apply-IsBytes5 (Write.economy v) r h = set_at-IsBytes5 r 1 _ h (insert_bits-lt _ _ _)
apply-IsBytes5 (Write.temperature v) r h = set_at-IsBytes5 r 1 _ h (insert_bits-lt _ _ _)
apply-IsBytes5 (Write.update_magic v) r h = set_at-IsBytes5 r 2 _ h (insert_bits-lt _ _ _)
apply-IsBytes5 (Write.swing v) r h = set_at-IsBytes5 r 2 _ h (insert_bits-lt _ _ _)
apply-IsBytes5 (Write.swing_step v) r h = set_at-IsBytes5 r 2 _ h (insert_bits-lt _ _ _)
apply-IsBytes5 (Write.controller_present v) r h = set_at-IsBytes5 r 3 _ h (insert_bits-lt _ _ _)

view-apply : (w : Write) (r : Bytes5) → IsBytes5 r → Fits w → view (apply w r) ≡ assign w (view r)
unfolding apply
view-apply (Write.mode v) r h g = view-set_mode r v h
view-apply (Write.fan v) r h g = view-set_fan r v h
view-apply (Write.enabled v) r h g = view-set_enabled r v h
view-apply (Write.error v) r h g = view-set_error r v h
view-apply (Write.economy v) r h g = view-set_economy r v h
view-apply (Write.temperature v) r h g = view-set_temperature r v h g
view-apply (Write.update_magic v) r h g = view-set_update_magic r v h g
view-apply (Write.swing v) r h g = view-set_swing r v h
view-apply (Write.swing_step v) r h g = view-set_swing_step r v h
view-apply (Write.controller_present v) r h g = view-set_controller_present r v h

abbrev pub AllFit : List Write → Type 0
AllFit [] = Unit {0}
AllFit (w ∷ ws) = Fits w × AllFit ws

unfoldable pub apply_all : List Write → Bytes5 → Bytes5
unfolding apply
apply_all [] r = r
apply_all (w ∷ ws) r = apply_all ws (apply w r)

abbrev pub assign_all : List Write → Status → Status
assign_all [] s = s
assign_all (w ∷ ws) s = assign_all ws (assign w s)

-- The status register is a memory of ten independent fields: after any list of setter calls on five
-- bytes, with temperatures below 128 and update magics below 16, the getters read what the same
-- assignments leave in a record of ten fields.
pub view-apply_all :
    (ws : List Write) (r : Bytes5)
    → IsBytes5 r
    → AllFit ws
    → view (apply_all ws r) ≡ assign_all ws (view r)
unfolding apply_all
view-apply_all [] r h g = refl
view-apply_all (w ∷ ws) r h (g, gs) =
    rw (← view-apply w r h g) (view-apply_all ws (apply w r) (apply-IsBytes5 w r h) gs)

pub apply_all-IsBytes5 : (ws : List Write) (r : Bytes5) → IsBytes5 r → IsBytes5 (apply_all ws r)
unfolding apply_all
apply_all-IsBytes5 [] r h = h
apply_all-IsBytes5 (w ∷ ws) r h = apply_all-IsBytes5 ws (apply w r) (apply-IsBytes5 w r h)
