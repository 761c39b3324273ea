-- ===== src/Config/Tests.antt =====
-- The theorem about the settings in an environment that sets one port and the host.
use live_translation.Common.{◌-◌, ◌≡◌, true, [], ◌∷◌, Option, none, some, if◌then◌else◌}
use live_translation.Common.Int.{ℤ, pos}
use live_translation.Ogg.Utf8.{Text}
use live_translation.Config.{Python, load_settings}
use live_translation.Ogg.Bytes.{bytes_eq}
use live_translation.Config.Settings.{
  host_name, tcpport_name, any_bad, settings, load_settings-settings,
}

-- A text is read as a number if it is one digit.
abbrev digit : Text → Option ℤ
digit [] = none
digit (c ∷ []) = some (pos (c - 48))
digit (c ∷ d ∷ ds) = none

abbrev python : Python ℤ
python = record {
  parse_int = digit;
  parse_float = digit;
  truncate = λ x. x;
  to_float = λ n. n;
  path_exists = λ path. true;
  lower = λ word. word;
}

abbrev environment : Text → Option Text
environment name =
    if bytes_eq name host_name
    then some (b'h' ∷ [])
    else if bytes_eq name tcpport_name
    then some (b'7' ∷ [])
    else none

load_settings-settings_example :
    load_settings python environment
    ≡ (if any_bad python environment then none else some (settings python environment))
load_settings-settings_example = load_settings-settings python environment
