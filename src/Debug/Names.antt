-- ===== src/Debug/Names.antt =====
-- The texts of ToString, read back.
use Prim.Native.String.{String}
use text.Mathlib.Text.{◌==◌ as str_eq}
use fuji_iot.Base.{◌≡◌, refl, sym, ap, ◌∙◌, if◌then◌else◌}
use fuji_iot.Types.{Mode, Fan}
use fuji_iot.Frame.{DestinationAddr, RegisterType}
use fuji_iot.Debug.{mode_text, fan_text, destination_text, type_text}

abbrev mode_named : String → Mode
mode_named s =
    if str_eq s "FAN"
    then Mode.fan
    else if str_eq s "DRY"
    then Mode.dry
    else if str_eq s "COOL"
    then Mode.cool
    else if str_eq s "HEAT"
    then Mode.heat
    else if str_eq s "AUTO"
    then Mode.auto
    else Mode.unknown

abbrev fan_named : String → Fan
fan_named s =
    if str_eq s "AUTO"
    then Fan.auto
    else if str_eq s "LOW"
    then Fan.low
    else if str_eq s "MEDIUM"
    then Fan.medium
    else if str_eq s "HIGH"
    then Fan.high
    else if str_eq s "MAX"
    then Fan.max
    else Fan.unknown

abbrev destination_named : String → DestinationAddr
destination_named s =
    if str_eq s "OTHER"
    then DestinationAddr.other
    else if str_eq s "WIRED_CONTROLLER_ADDR"
    then DestinationAddr.wired_controller_addr
    else DestinationAddr.unknown

abbrev type_named : String → RegisterType
type_named s =
    if str_eq s "STATUS"
    then RegisterType.status
    else if str_eq s "ERROR"
    then RegisterType.error
    else if str_eq s "LOGIN"
    then RegisterType.login
    else RegisterType.unknown

mode_named-text : (m : Mode) → mode_named (mode_text m) ≡ m
unfolding mode_text
mode_named-text Mode.unknown = refl
mode_named-text Mode.fan = refl
mode_named-text Mode.dry = refl
mode_named-text Mode.cool = refl
mode_named-text Mode.heat = refl
mode_named-text Mode.auto = refl

fan_named-text : (f : Fan) → fan_named (fan_text f) ≡ f
unfolding fan_text
fan_named-text Fan.auto = refl
fan_named-text Fan.low = refl
fan_named-text Fan.medium = refl
fan_named-text Fan.high = refl
fan_named-text Fan.max = refl
fan_named-text Fan.unknown = refl

destination_named-text : (d : DestinationAddr) → destination_named (destination_text d) ≡ d
unfolding destination_text
destination_named-text DestinationAddr.unknown = refl
destination_named-text DestinationAddr.wired_controller_addr = refl
destination_named-text DestinationAddr.other = refl

type_named-text : (t : RegisterType) → type_named (type_text t) ≡ t
unfolding type_text
type_named-text RegisterType.status = refl
type_named-text RegisterType.error = refl
type_named-text RegisterType.login = refl
type_named-text RegisterType.unknown = refl

injective_by :
    {A : Type 0} (text : A → String) (named : String → A)
    → ((a : A) → named (text a) ≡ a)
    → (a b : A) → text a ≡ text b
    → a ≡ b
injective_by text named back a b e = sym (back a) ∙ ap named e ∙ back b

-- The log tells the values of each enumeration apart: two operation modes, two fan speeds, two
-- destinations and two register types with the same text of ToString are the same.
pub texts_distinct :
    ((a b : Mode) → mode_text a ≡ mode_text b → a ≡ b)
    × ((a b : Fan) → fan_text a ≡ fan_text b → a ≡ b)
    × ((a b : DestinationAddr) → destination_text a ≡ destination_text b → a ≡ b)
    × ((a b : RegisterType) → type_text a ≡ type_text b → a ≡ b)
texts_distinct = (
  injective_by mode_text mode_named mode_named-text,
  injective_by fan_text fan_named fan_named-text,
  injective_by destination_text destination_named destination_named-text,
  injective_by type_text type_named type_named-text,
)
