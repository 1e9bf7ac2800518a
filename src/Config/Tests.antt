-- ===== src/Config/Tests.antt =====
-- Readings of the environment by internal/config/config.go, and the theorems on numbers at them.
use slim_m_relay.Prelude.{◌≡◌, refl, true, false, none, some, [], if◌then◌else◌}
use slim_m_relay.Prelude.Int.{pos, negsuc}
use slim_m_relay.Text.{codes, str_eq}
use slim_m_relay.Config.{Environment, atoi, parse_bool, load}

numbers :
    (atoi (codes "-12") ≡ some (negsuc 11))
    × (atoi (codes "+7") ≡ some (pos 7))
    × (atoi (codes "9223372036854775808") ≡ none)
    × (atoi (codes "-9223372036854775808") ≡ some (negsuc 9223372036854775807))
    × (atoi (codes "1x") ≡ none)
    × (atoi (codes "-") ≡ none)
unfolding atoi
numbers = (refl, refl, refl, refl, refl, refl)

booleans :
    (parse_bool (codes "T") ≡ some true)
    × (parse_bool (codes "0") ≡ some false)
    × (parse_bool (codes "yes") ≡ none)
unfolding parse_bool
booleans = (refl, refl, refl)

-- a number and a switch that do not parse leave the defaults
abbrev odd_environment : Environment
odd_environment key =
    if str_eq key (codes "RELAY_SEND_BURST")
    then codes "many"
    else if str_eq key (codes "RELAY_TRUST_PROXY")
    then codes "on"
    else []

odd_load :
    ((load odd_environment).send_burst ≡ pos 60) × ((load odd_environment).trust_proxy ≡ false)
unfolding load atoi parse_bool str_eq
odd_load = (refl, refl)
