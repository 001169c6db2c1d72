-- ===== src/Sim/Laws.antt =====
-- The frames that the simulated unit sends, and what it takes over from the frames it gets.
use fuji_iot.Base.{
  ◌≡◌, refl, ap, ◌∙◌, true, false, [], ◌∷◌, arith, inl, inr, if◌then◌else◌, Bool-cases,
}
use fuji_iot.Base.Bytes.{Bytes5, Bytes8, IsBytes5, IsBytes8}
use fuji_iot.Register
use fuji_iot.Register.View.{view, view-set_swing_step}
use fuji_iot.Register.Writes.{Write, apply_all, apply_all-IsBytes5}
use fuji_iot.Frame
use fuji_iot.Frame.{
  MasterFrame, ControllerFrame, DestinationAddr, RegisterType, master_payload, with_type,
  with_unknown_bit, with_destination,
}
use fuji_iot.Frame.Laws.{
  MasterView, master_view, master_view-with_type, master_view-with_unknown_bit,
  master_view-with_destination,
}
use fuji_iot.Frame.Valid.{
  tail_of-IsBytes5, with_destination-IsBytes8, with_type-IsBytes8, with_unknown_bit-IsBytes8,
  with_tail-IsBytes8,
}
use fuji_iot.Sim.{Sim, new_sim, status, with_status, answer, get_next_master_frame}

pub record IsValid (s : Sim) : Type 0 where
  pub status_bytes : IsBytes8 s.status_register
  pub error_bytes : IsBytes8 s.error_register
  pub login_bytes : IsBytes8 s.login_register

-- The registers of the constructor.
pub new_sim-IsValid : IsValid new_sim
new_sim-IsValid = record {
  status_bytes = omega arith;
  error_bytes = omega arith;
  login_bytes = omega arith;
}

pub status-IsBytes5 : (s : Sim) → IsValid s → IsBytes5 (status s)
status-IsBytes5 s h = tail_of-IsBytes5 s.status_register h.status_bytes

-- What GetNextMasterFrame does to the status register before it is copied.
abbrev pub clear_step : Bytes5 → Bytes5
clear_step r = if Register.swing_step r then Register.set_swing_step r false else r

pub clear_step-IsBytes5 : (r : Bytes5) → IsBytes5 r → IsBytes5 (clear_step r)
unfolding Register.set_swing_step apply_all
clear_step-IsBytes5 r h = elim (Bool-cases (Register.swing_step r)) [
  | inl e ↦ rw e (apply_all-IsBytes5 (Write.swing_step false ∷ []) r h)
  | inr e ↦ rw e h
]

without_step :
    (r : Bytes5) → Register.swing_step r ≡ false → view r ≡ record (view r) { swing_step = false }
unfolding view
without_step r e = λ i. record (view r) { swing_step = e i }

pub view-clear_step :
    (r : Bytes5) → IsBytes5 r → view (clear_step r) ≡ record (view r) { swing_step = false }
view-clear_step r h = elim (Bool-cases (Register.swing_step r)) [
  | inl e ↦ rw e (view-set_swing_step r false h)
  | inr e ↦ rw e (without_step r e)
]

-- A frame under the last three calls of GetNextMasterFrame.
abbrev stamped : Bytes8 → RegisterType → MasterFrame
stamped d t =
    with_destination (with_unknown_bit (with_type (record { bytes = d }) t) true)
      DestinationAddr.wired_controller_addr

stamped-view :
    (d : Bytes8) (t : RegisterType)
    → IsBytes8 d
    → master_view (stamped d t) ≡ record {
      unknown_bit = true;
      destination = DestinationAddr.wired_controller_addr;
      register_type = t;
      payload = Frame.tail_of d;
    }
stamped-view d t h =
    let f : MasterFrame = record { bytes = d } in
    let typed = with_type f t in
    let typed_bytes = with_type-IsBytes8 f t h in
    master_view-with_destination (with_unknown_bit typed true) DestinationAddr.wired_controller_addr
      (with_unknown_bit-IsBytes8 typed true typed_bytes)
    ∙ ap (λ (v : MasterView). record v { destination = DestinationAddr.wired_controller_addr })
        (master_view-with_unknown_bit typed true typed_bytes
          ∙ ap (λ (v : MasterView). record v { unknown_bit = true }) (master_view-with_type f t h))
    ∙ unfold master_view in refl

-- The register that GetNextMasterFrame answers from.
abbrev pub queried : RegisterType → Sim → Bytes8
queried RegisterType.error s = s.error_register
queried RegisterType.login s = s.login_register
queried _ s = Frame.with_tail s.status_register (clear_step (status s))

-- The register type of the answer.
abbrev pub answered : RegisterType → RegisterType
answered RegisterType.unknown = RegisterType.status
answered t = t

-- The status register behind GetNextMasterFrame.
abbrev pub polled : RegisterType → Bytes5 → Bytes5
polled RegisterType.error r = Register.set_update_magic r 10
polled RegisterType.login r = Register.set_update_magic r 10
polled _ r = Register.set_update_magic (clear_step r) 10

answer_lem :
    (t : RegisterType) (s : Sim)
    → (answer t s).1 ≡ with_type (record { bytes = queried t s }) (answered t)
unfolding answer
answer_lem RegisterType.status s = ground arith
answer_lem RegisterType.error s = refl
answer_lem RegisterType.login s = refl
answer_lem RegisterType.unknown s = ground arith

queried-IsBytes8 : (t : RegisterType) (s : Sim) → IsValid s → IsBytes8 (queried t s)
queried-IsBytes8 RegisterType.error s h = h.error_bytes
queried-IsBytes8 RegisterType.login s h = h.login_bytes
queried-IsBytes8 RegisterType.status s h =
    with_tail-IsBytes8 _ _ h.status_bytes (clear_step-IsBytes5 (status s) (status-IsBytes5 s h))
queried-IsBytes8 RegisterType.unknown s h =
    with_tail-IsBytes8 _ _ h.status_bytes (clear_step-IsBytes5 (status s) (status-IsBytes5 s h))

pub get_next_master_frame-IsBytes8 :
    (s : Sim) → IsValid s → IsBytes8 (get_next_master_frame s).1.bytes
unfolding get_next_master_frame
get_next_master_frame-IsBytes8 s h = rw (answer_lem s.next_query_register s) (
    with_destination-IsBytes8 _ DestinationAddr.wired_controller_addr (
      with_unknown_bit-IsBytes8 _ true (
        with_type-IsBytes8 _ (answered s.next_query_register)
          (queried-IsBytes8 s.next_query_register s h))))

-- Every frame of the simulated unit is for the wired controller, has the unknown bit set and the
-- type of the register that was asked for last (STATUS if that is unknown), and holds that
-- register, the status register with its swing step cleared.
pub get_next_master_frame-view :
    (s : Sim)
    → IsValid s
    → master_view (get_next_master_frame s).1 ≡ record {
      unknown_bit = true;
      destination = DestinationAddr.wired_controller_addr;
      register_type = answered s.next_query_register;
      payload = Frame.tail_of (queried s.next_query_register s);
    }
unfolding get_next_master_frame
get_next_master_frame-view s h = rw (answer_lem s.next_query_register s) (
    stamped-view (queried s.next_query_register s) (answered s.next_query_register)
      (queried-IsBytes8 s.next_query_register s h))

answer-clear :
    (s : Sim)
    → let s' =
        (if Register.swing_step (status s)
          then with_status s (Register.set_swing_step (status s) false)
          else s) in
      with_status s' (Register.set_update_magic (status s') 10)
      ≡ with_status s (Register.set_update_magic (clear_step (status s)) 10)
answer-clear s = elim (Bool-cases (Register.swing_step (status s))) [ inl e ↦ rw e | inr e ↦ rw e ]

answer-polled :
    (t : RegisterType) (s : Sim)
    → with_status (answer t s).0 (Register.set_update_magic (status (answer t s).0) 10)
      ≡ with_status s (polled t (status s))
unfolding answer
answer-polled RegisterType.status s = answer-clear s
answer-polled RegisterType.error s = refl
answer-polled RegisterType.login s = refl
answer-polled RegisterType.unknown s = answer-clear s

pub get_next_master_frame-polled :
    (s : Sim)
    → (get_next_master_frame s).0 ≡ with_status s (polled s.next_query_register (status s))
unfolding get_next_master_frame
get_next_master_frame-polled s = answer-polled s.next_query_register s

pub polled-IsBytes5 : (t : RegisterType) (r : Bytes5) → IsBytes5 r → IsBytes5 (polled t r)
unfolding Register.set_update_magic apply_all
polled-IsBytes5 RegisterType.error r h = apply_all-IsBytes5 (Write.update_magic 10 ∷ []) r h
polled-IsBytes5 RegisterType.login r h = apply_all-IsBytes5 (Write.update_magic 10 ∷ []) r h
polled-IsBytes5 RegisterType.status r h =
    apply_all-IsBytes5 (Write.update_magic 10 ∷ []) (clear_step r) (clear_step-IsBytes5 r h)
polled-IsBytes5 RegisterType.unknown r h =
    apply_all-IsBytes5 (Write.update_magic 10 ∷ []) (clear_step r) (clear_step-IsBytes5 r h)
