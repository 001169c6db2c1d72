-- ===== src/Daemon/Patience.antt =====
-- FujiAcController::GetStatus: how long a client waits for its first response.
use fuji_iot.Base.{
  ℕ, ◌+◌, ◌≤◌, ◌≡◌, ◌≢◌, refl, ap, ◌∙◌, Bool, true, false, Option, none, some, [], arith, ◌⊎◌, inl,
  inr, if◌then◌else◌, Bool-cases, leb,
}
use fuji_iot.Frame
use fuji_iot.Frame.{MasterFrame, ControllerFrame, RegisterType, empty_frame, frame_eq}
use fuji_iot.Handler.{
  Handler, dispatch, respond, send_login_frame, send_logged_in_frame,
  update_from_master_status_register, update_from_master_error_register,
}
use fuji_iot.Handler.Protocol.{handle_cases}
use fuji_iot.Handler.Replies.{login_bit-logged_in}
use fuji_iot.Controller.{
  Controller, make_controller, begin_update, do_loop_round, process_frame, settle,
}
use fuji_iot.Controller.Ready.{frame_eq_sound, query-login, query-empty}
use fuji_iot.Daemon.{
  Daemon, Step, Run, make_daemon, call_update, call_status, test_shutdown, run_round, step_rounds,
  rounds,
}
use fuji_iot.Daemon.Shutdown.{shut_down-closing, not_both}

-- No frame has been answered yet.
record IsFresh (c : Controller) : Type 0 where
  login_read : c.client.login_read ≡ true
  last_empty : c.last_frame ≡ empty_frame
  not_ready : c.ready ≡ false

respond_login : (h : Handler) → h.login_read ≡ true → (respond h).1 ≡ some send_login_frame
unfolding respond
respond_login h l = rw l refl

update_keeps_login :
    (h : Handler) (f : MasterFrame)
    → h.login_read ≡ true
    → (update_from_master_status_register h f).login_read ≡ true
unfolding update_from_master_status_register
update_keeps_login h f l = ground arith

status_keeps_login :
    (merged : Bool) (h : Handler) (f : MasterFrame)
    → h.login_read ≡ true
    → (if merged then update_from_master_status_register h f else h).login_read ≡ true
status_keeps_login true h f l = update_keeps_login h f l
status_keeps_login false h f l = l

login_bit-empty : Frame.login_bit empty_frame ≡ false
unfolding Frame.login_bit empty_frame
login_bit-empty = refl

-- What the first answer can be.
first_answer :
    (t : RegisterType) (h : Handler) (f : MasterFrame)
    → h.login_read ≡ true
    → (dispatch t h f ≡ (h, none))
      ⊎ ((dispatch t h f).1 ≡ some send_login_frame)
      ⊎ ((dispatch t h f).1 ≡ some (send_logged_in_frame h))
unfolding dispatch update_from_master_error_register
first_answer RegisterType.status h f l =
    inr (inl (respond_login _ (status_keeps_login h.ac_state.merged h f l)))
first_answer RegisterType.login h f l = inr (inr refl)
first_answer RegisterType.error h f l = inl refl
first_answer RegisterType.unknown h f l = inl refl

login-ne-empty : send_login_frame ≢ empty_frame
login-ne-empty e = cc (query-login, query-empty, ap Frame.query_register e)

logged_in-ne-empty : (h : Handler) → send_logged_in_frame h ≢ empty_frame
logged_in-ne-empty h e = cc (login_bit-logged_in h, login_bit-empty, ap Frame.login_bit e)

settle_first :
    (c : Controller) (r : Handler × Option ControllerFrame) (cf : ControllerFrame)
    → IsFresh c
    → r.1 ≡ some cf
    → cf ≢ empty_frame
    → (settle c r).0.ready ≡ false
unfolding settle
settle_first c (h, none) cf v e n = v.not_ready
settle_first c (h, some x) cf v e n = elim (Bool-cases (frame_eq x c.last_frame)) [
  | inl same ↦ absurd (n (cc (frame_eq_sound x c.last_frame same, v.last_empty, e)))
  | inr differs ↦ rw differs (v.not_ready)
]

settle_silent :
    (c : Controller) (r : Handler × Option ControllerFrame) (h : Handler)
    → r ≡ (h, none)
    → (settle c r).0.ready ≡ c.ready
unfolding settle
settle_silent c r h e = rw e refl

first_round :
    (c : Controller) (mf : Option MasterFrame) → IsFresh c → (do_loop_round c mf).0.ready ≡ false
unfolding do_loop_round process_frame
first_round c none v = v.not_ready
first_round c (some f) v = elim (handle_cases c.client f) [
  | inl q ↦ settle_silent c _ _ q ∙ v.not_ready
  | inr (_, q) ↦ rw q (elim (first_answer (Frame.register_type f) c.client f v.login_read) [
    | inl silent ↦ settle_silent c _ _ silent ∙ v.not_ready
    | inr (inl sent) ↦ settle_first c _ _ v sent login-ne-empty
    | inr (inr sent) ↦ settle_first c _ _ v sent (logged_in-ne-empty c.client)
  ])
]

-- What holds behind `n` rounds of DoLoop.
record IsEarly (e : Daemon) (n : ℕ) : Type 0 where
  fresh : n ≡ 0 → IsFresh e.controller
  not_ready : n ≤ 1 → e.controller.ready ≡ false
  no_response : n ≤ 1 → e.responses ≡ []

step-IsEarly : {d e : Daemon} (n : ℕ) (s : Step d e) → IsEarly d n → IsEarly e (n + step_rounds s)
unfolding call_update call_status begin_update run_round test_shutdown step_rounds
step-IsEarly n (Step.update d u) v = record {
  fresh = λ z. record {
    login_read = (v.fresh (omega arith)).login_read;
    last_empty = (v.fresh (omega arith)).last_empty;
    not_ready = refl;
  };
  not_ready = λ z. refl;
  no_response = λ z. v.no_response (omega arith);
}
step-IsEarly n (Step.status d) v = record {
  fresh = λ z. v.fresh (omega arith);
  not_ready = λ z. v.not_ready (omega arith);
  no_response = λ z. v.no_response (omega arith);
}
step-IsEarly n (Step.wake d before call after _ r) v = record {
  fresh = λ z. absurd (not_both (v.not_ready (omega arith)) r);
  not_ready = λ z. absurd (not_both (v.not_ready (omega arith)) r);
  no_response = λ z. absurd (not_both (v.not_ready (omega arith)) r);
}
step-IsEarly n (Step.test d l) v = record {
  fresh = λ z. v.fresh (omega arith);
  not_ready = λ z. v.not_ready (omega arith);
  no_response = λ z. v.no_response (omega arith);
}
step-IsEarly n (Step.round d mf l) v = record {
  fresh = λ z. absurd (omega arith);
  not_ready = λ z. first_round d.controller mf (v.fresh (omega arith));
  no_response = λ z. v.no_response (omega arith);
}
step-IsEarly n (Step.stop d e g) v = rw (shut_down-closing d e g) (record {
  fresh = λ z. record {
    login_read = (v.fresh (omega arith)).login_read;
    last_empty = (v.fresh (omega arith)).last_empty;
    not_ready = (v.fresh (omega arith)).not_ready;
  };
  not_ready = λ z. v.not_ready (omega arith);
  no_response = λ z. v.no_response (omega arith);
})
step-IsEarly n (Step.join d j l) v = record {
  fresh = λ z. v.fresh (omega arith);
  not_ready = λ z. v.not_ready (omega arith);
  no_response = λ z. v.no_response (omega arith);
}

run-IsEarly : {e : Daemon} (r : Run make_daemon e) → IsEarly e (rounds r)
unfolding rounds make_daemon make_controller
run-IsEarly Run.here = record {
  fresh = λ z. record { login_read = refl; last_empty = refl; not_ready = refl };
  not_ready = λ z. refl;
  no_response = λ z. refl;
}
run-IsEarly (Run.next r s) = step-IsEarly (rounds r) s (run-IsEarly r)

-- No client gets a response before the loop has run two rounds: whatever the steps of the threads
-- from the start of the daemon on, if a call of GetStatus has responded, then DoLoop has run at
-- least two rounds.
pub response_after_two : (e : Daemon) (r : Run make_daemon e) → e.responses ≢ [] → 2 ≤ rounds r
response_after_two e r given = elim (Bool-cases (leb (rounds r) 1)) [
  | inl few ↦ absurd (given ((run-IsEarly r).no_response (ground arith)))
  | inr many ↦ ground arith
]
