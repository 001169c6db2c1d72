-- ===== src/Handler/Delivery.antt =====
-- How a change of the local state reaches the main unit.
use mathlib.Core.Bool.{false≢true}
use fuji_iot.Base.{
  Bool-cases, inl, inr, ap, sym, ◌∙◌, ℕ, suc, ◌+◌, ◌≡◌, true, false, not, some, List, [], ◌∷◌,
  arith, length,
}
use fuji_iot.Base.Bytes.{of_bool}
use fuji_iot.Frame
use fuji_iot.Frame.{MasterFrame, ControllerFrame, with_write_bit}
use fuji_iot.State.{AcState, set_merged, set_swing_step}
use fuji_iot.Handler.{Handler, handle_master_frame, respond, send_status_frame, status_frame}
use fuji_iot.Handler.Replies.{write_bit-login, write_bit-error_query, write_bit-status}
use fuji_iot.Handler.Protocol.{
  IsStatus, handle_status, handle_status_merged, handle_status_unmerged, updated,
}

-- The queries that go out before the next settings.
abbrev pub pending : Handler → ℕ
pending h = of_bool h.login_read + of_bool h.error_read

-- The frame that has the main unit take the settings of a state over.
abbrev pub write_frame : AcState → ControllerFrame
write_frame s = with_write_bit (status_frame s) true

-- The state behind a write: a swing step takes a second one, without the step.
abbrev pub written : AcState → AcState
written s = record s { swing_step = false; merged = not s.swing_step }

pub respond_ready :
    (h : Handler)
    → h.ac_state.merged ≡ false
    → pending h ≡ 0
    → respond h ≡ (record h { ac_state = written h.ac_state }, some (write_frame h.ac_state))
unfolding respond send_status_frame set_merged set_swing_step
respond_ready h m z = ground arith

-- With a local change and no query pending, the answer to a STATUS frame for the wired controller
-- is the frame with the write bit and the settings of the state, and only the state changes: the
-- swing step is cleared, and the state is merged if no swing step was asked for.
pub handle_unmerged_idle :
    (h : Handler) (f : MasterFrame)
    → h.ac_state.merged ≡ false
    → pending h ≡ 0
    → IsStatus f
    → handle_master_frame h f
      ≡ (record h { ac_state = written h.ac_state }, some (write_frame h.ac_state))
handle_unmerged_idle h f m z p = handle_status_unmerged h f m p ∙ respond_ready h m z

pub handle_unmerged_pending :
    (h : Handler) (f : MasterFrame) (n : ℕ)
    → h.ac_state.merged ≡ false
    → pending h ≡ suc n
    → IsStatus f
    → ((handle_master_frame h f).0.ac_state ≡ h.ac_state)
      × (pending (handle_master_frame h f).0 ≡ n)
unfolding respond
handle_unmerged_pending h f n m z p = rw (handle_status h f p, m) (ground arith, ground arith)

-- The handler behind a list of frames.
unfoldable pub handle_all : Handler → List MasterFrame → Handler
handle_all h [] = h
handle_all h (f ∷ fs) = handle_all (handle_master_frame h f).0 fs

abbrev pub AllStatus : List MasterFrame → Type 0
AllStatus [] = Unit {0}
AllStatus (f ∷ fs) = IsStatus f × AllStatus fs

-- A local change is written as soon as the pending queries are out: while the state is not merged,
-- after as many STATUS frames for the wired controller as there are pending queries, the answer to
-- the next one is the frame with the write bit and the settings of the state as it was at the
-- start.
pub write_after_pending :
    (fs : List MasterFrame) (h : Handler) (f : MasterFrame)
    → h.ac_state.merged ≡ false
    → length fs ≡ pending h
    → AllStatus fs
    → IsStatus f
    → (handle_master_frame (handle_all h fs) f).1 ≡ some (write_frame h.ac_state)
unfolding handle_all
write_after_pending [] h f m z a p = ap (λ r. r.1) (handle_unmerged_idle h f m (sym z) p)
write_after_pending (g ∷ fs) h f m z (q, a) p =
    let (same, fewer) = handle_unmerged_pending h g (length fs) m (sym z) q in
    let h' = (handle_master_frame h g).0 in
    write_after_pending fs h' f (ap (λ (s : AcState). s.merged) same ∙ m) (sym fewer) a p
    ∙ ap (λ (s : AcState). some (write_frame s)) same

abbrev pub Writing : Handler → MasterFrame → Type 0
Writing h f = IsStatus f × (h.ac_state.merged ≡ false) × (pending h ≡ 0)

respond_write :
    (h : Handler) (cf : ControllerFrame)
    → (respond h).1 ≡ some cf
    → Frame.write_bit cf ≡ true
    → (h.ac_state.merged ≡ false) × (pending h ≡ 0)
unfolding respond send_status_frame
respond_write h cf e w =
    ground (arith, write_bit-login, write_bit-error_query, write_bit-status h.ac_state)

pub handle_write :
    (h : Handler) (f : MasterFrame) (cf : ControllerFrame)
    → IsStatus f
    → (handle_master_frame h f).1 ≡ some cf
    → Frame.write_bit cf ≡ true
    → (h.ac_state.merged ≡ false) × (pending h ≡ 0)
handle_write h f cf p e w = elim (Bool-cases h.ac_state.merged) [
  | inl m ↦ absurd (not_merged m (sym (ap (λ r. r.1) (handle_status_merged h f m p)) ∙ e))
  | inr m ↦ respond_write h cf (sym (ap (λ r. r.1) (handle_status_unmerged h f m p)) ∙ e) w
]
  where
    not_merged : h.ac_state.merged ≡ true → (respond (updated h f)).1 ≡ some cf → ⊥
    not_merged m q = false≢true (sym (respond_write (updated h f) cf q w).0)
