-- ===== src/Tests/Exchanges.antt =====
-- The theorems on the rules of protocol/fuji_ac_protocol_handler.cc at concrete frames.
use fuji_iot.Base.{◌≡◌, refl, true, false, Option, none, some, List, [], ◌∷◌, arith}
use fuji_iot.Frame
use fuji_iot.Frame.{MasterFrame, RegisterType}
use fuji_iot.Handler.{Handler}
use fuji_iot.Handler.Rules.{message, Reply, tells, Hears, Responds, Rule, Rules}
use fuji_iot.Handler.Rules.Machine.{
  exchanges, messages, AllBytes, exchanges-Rules, Rules-exchanges, same_messages,
}
use fuji_iot.Tests.Golden.Replay.{frame8}
use fuji_iot.Tests.Data.{status_mf, login_mf, error_mf, status_mf-IsBytes8, changed}

-- The registration, an error that is not answered, and a status behind it.
abbrev talk : List MasterFrame
talk = login_mf ∷ error_mf ∷ status_mf ∷ []

talk-AllBytes : AllBytes talk
talk-AllBytes = (omega arith, (omega arith, (status_mf-IsBytes8, tt)))

abbrev told : Handler
told = record changed { ac_state = record (changed.ac_state) { merged = true } }

abbrev replies : List (Option Reply)
replies = some (tells true false changed) ∷ none ∷ some (tells false true changed) ∷ []

exchanges-Rules_example :
    Rules changed (messages talk) (exchanges changed talk).1 (exchanges changed talk).0
exchanges-Rules_example = exchanges-Rules changed talk (omega arith) talk-AllBytes

talk-Rules : Rules changed (messages talk) replies told
unfolding messages message Frame.destination Frame.destination_of Frame.register_type Frame.type_of
talk-Rules = Rules.goes_on (Rule.confirms changed) (
    Rules.goes_on (Rule.ignores_error changed) (
      Rules.goes_on
        (Rule.answers changed changed told _ _ (Hears.keeps changed _ refl)
          (Responds.writes changed refl refl refl refl))
        (Rules.ends told)))

Rules-exchanges_example : exchanges changed talk ≡ (told, replies)
Rules-exchanges_example =
    Rules-exchanges changed talk replies told (omega arith) talk-AllBytes talk-Rules

-- The same status, with other values in the first byte and in the unused bits of the third.
abbrev noisy_mf : MasterFrame
noisy_mf = record { bytes = frame8 0x05 0xa0 0x41 0x46 0x12 0xa0 0x01 0x20 }

same_noisy : messages (status_mf ∷ []) ≡ messages (noisy_mf ∷ [])
unfolding messages message Frame.destination Frame.destination_of Frame.register_type Frame.type_of
    Frame.master_payload
same_noisy = refl

same_messages_example : exchanges changed (status_mf ∷ []) ≡ exchanges changed (noisy_mf ∷ [])
same_messages_example =
    same_messages changed (status_mf ∷ []) (noisy_mf ∷ []) (omega arith) (status_mf-IsBytes8, tt)
      (omega arith, tt) same_noisy
