-- ===== src/Config.antt =====
-- Config.py. The environment, with what `load_dotenv` puts into it, is a function; values are the
-- sum of the types that `Union[str, int, float, bool]` names, where floats stand as texts. Python's
-- `int` and `float` on a text are parameters: `none` is a ValueError. `valid_config` is part of
-- what a validator returns.
pub mod Settings
mod Tests
use live_translation.Common.{
  ℕ, Bool, true, false, ◌&&◌, ◌||◌, List, [], ◌∷◌, ◌++◌, Option, none, some, if◌then◌else◌,
}
use live_translation.Common.Int.{ℤ, pos}
use live_translation.Ogg.Bytes.{bytes_eq}
use live_translation.Ogg.Utf8.{Text}

pub data Value (F : Type 0) : Type 0 where
  text : Text → Value F
  int : ℤ → Value F
  float : F → Value F
  bool : Bool → Value F

-- What the file uses of Python and of the system.
pub record Python (F : Type 0) : Type 0 where
  pub parse_int : Text → Option ℤ
  pub parse_float : Text → Option F
  pub truncate : F → ℤ
  pub to_float : ℤ → F
  pub path_exists : Text → Bool
  pub lower : Text → Text

-- A validator: the value, the default, then the value that is kept and whether it was valid.
abbrev pub Validator : Type 0 → Type 0
Validator F = Value F → Value F → Value F × Bool

abbrev pub is_one_of : Text → List Text → Bool
is_one_of word [] = false
is_one_of word (w ∷ ws) = bytes_eq word w || is_one_of word ws

-- The names of the models, of the tasks, and "true" and "false".
abbrev pub valid_models : List Text
valid_models =
    (b't' ∷ b'i' ∷ b'n' ∷ b'y' ∷ [])
    ∷ (b'b' ∷ b'a' ∷ b's' ∷ b'e' ∷ [])
    ∷ (b's' ∷ b'm' ∷ b'a' ∷ b'l' ∷ b'l' ∷ [])
    ∷ (b'm' ∷ b'e' ∷ b'd' ∷ b'i' ∷ b'u' ∷ b'm' ∷ [])
    ∷ (b'l' ∷ b'a' ∷ b'r' ∷ b'g' ∷ b'e' ∷ [])
    ∷ []

abbrev pub valid_tasks : List Text
valid_tasks =
    (b't' ∷ b'r' ∷ b'a' ∷ b'n' ∷ b's' ∷ b'c' ∷ b'r' ∷ b'i' ∷ b'b' ∷ b'e' ∷ [])
    ∷ (b't' ∷ b'r' ∷ b'a' ∷ b'n' ∷ b's' ∷ b'l' ∷ b'a' ∷ b't' ∷ b'e' ∷ [])
    ∷ []

abbrev pub true_text : Text
true_text = b't' ∷ b'r' ∷ b'u' ∷ b'e' ∷ []

abbrev pub false_text : Text
false_text = b'f' ∷ b'a' ∷ b'l' ∷ b's' ∷ b'e' ∷ []

-- The value if it passes a test, or else the default.
abbrev pub value_or : {F : Type 0} → Option (Value F) → Value F → Value F × Bool
value_or none fallback = (fallback, false)
value_or (some value) fallback = (value, true)

-- `value in words`
abbrev pub validate_word : {F : Type 0} → List Text → Validator F
validate_word words (text word) fallback =
    if is_one_of word words then (text word, true) else (fallback, false)
validate_word words (int n) fallback = (fallback, false)
validate_word words (float x) fallback = (fallback, false)
validate_word words (bool b) fallback = (fallback, false)

unfoldable pub validate_model : {F : Type 0} → Validator F
validate_model value fallback = validate_word valid_models value fallback

unfoldable pub validate_task : {F : Type 0} → Validator F
validate_task value fallback = validate_word valid_tasks value fallback

abbrev pub map_int : {F : Type 0} → Option ℤ → Option (Value F)
map_int none = none
map_int (some n) = some (int n)

abbrev pub map_float : {F : Type 0} → Option F → Option (Value F)
map_float none = none
map_float (some x) = some (float x)

-- `int(True)` and `int(False)`.
abbrev pub bit : Bool → ℤ
bit true = pos 1
bit false = pos 0

module _ {F : Type 0} (py : Python F) where
  unfoldable pub validate_path : Validator F
  validate_path (text path) fallback =
      if py.path_exists path then (text path, true) else (fallback, false)
  validate_path (int n) fallback = (fallback, false)
  validate_path (float x) fallback = (fallback, false)
  validate_path (bool b) fallback = (fallback, false)

  unfoldable pub validate_float : Validator F
  validate_float (text word) fallback = value_or (map_float (py.parse_float word)) fallback
  validate_float (int n) fallback = (float (py.to_float n), true)
  validate_float (float x) fallback = (float x, true)
  validate_float (bool b) fallback = (float (py.to_float (bit b)), true)

  unfoldable pub validate_int : Validator F
  validate_int (text word) fallback = value_or (map_int (py.parse_int word)) fallback
  validate_int (int n) fallback = (int n, true)
  validate_int (float x) fallback = (int (py.truncate x), true)
  validate_int (bool b) fallback = (int (bit b), true)

  unfoldable pub validate_bool : Validator F
  validate_bool (text word) fallback =
      if is_one_of (py.lower word) (true_text ∷ false_text ∷ [])
      then (bool (bytes_eq (py.lower word) true_text), true)
      else (fallback, false)
  validate_bool (int n) fallback = (fallback, false)
  validate_bool (float x) fallback = (fallback, false)
  validate_bool (bool b) fallback = (bool b, true)

  -- `os.getenv(env_var, default)`
  abbrev pub or_default : Option Text → Value F → Value F
  or_default none fallback = fallback
  or_default (some word) fallback = text word

  abbrev pub validated : Option (Validator F) → Value F → Value F → Value F × Bool
  validated none value fallback = (value, true)
  validated (some validate) value fallback = validate value fallback

  -- `get_variable`, on what `os.getenv` finds.
  unfoldable pub get_variable : Option Text → Value F → Option (Validator F) → Value F × Bool
  get_variable found fallback validate = validated validate (or_default found fallback) fallback

-- The keys of the dict of settings.
pub data Setting : Type 0 where
  host externalhost tcpport udpport secret_token health_check_port prometheus_port : Setting

abbrev pub all_settings : List Setting
all_settings =
    host ∷ externalhost ∷ tcpport ∷ udpport ∷ secret_token ∷ health_check_port ∷ prometheus_port
    ∷ []

-- "0.0.0.0", "127.0.0.1" and "your_secret_token".
abbrev pub any_host : Text
any_host = b'0' ∷ b'.' ∷ b'0' ∷ b'.' ∷ b'0' ∷ b'.' ∷ b'0' ∷ []

abbrev pub local_host : Text
local_host = b'1' ∷ b'2' ∷ b'7' ∷ b'.' ∷ b'0' ∷ b'.' ∷ b'0' ∷ b'.' ∷ b'1' ∷ []

abbrev pub default_token : Text
default_token =
    b'y' ∷ b'o' ∷ b'u' ∷ b'r' ∷ b'_' ∷ b's' ∷ b'e' ∷ b'c' ∷ b'r' ∷ b'e' ∷ b't' ∷ b'_' ∷ b't' ∷ b'o'
    ∷ b'k' ∷ b'e' ∷ b'n' ∷ []

abbrev pub default_of : {F : Type 0} → Setting → Value F
default_of host = text any_host
default_of externalhost = text local_host
default_of tcpport = int (pos 5000)
default_of udpport = int (pos 5001)
default_of secret_token = text default_token
default_of health_check_port = int (pos 8001)
default_of prometheus_port = int (pos 2112)

-- The settings that are validated, by `validate_int`.
abbrev pub is_port : Setting → Bool
is_port host = false
is_port externalhost = false
is_port tcpport = true
is_port udpport = true
is_port secret_token = false
is_port health_check_port = true
is_port prometheus_port = true

-- `TRANSCRIPTION_SERVER_` and the rest of a name.
abbrev pub server_variable : Text → Text
server_variable name =
    (b'T' ∷ b'R' ∷ b'A' ∷ b'N' ∷ b'S' ∷ b'C' ∷ b'R' ∷ b'I' ∷ b'P' ∷ b'T' ∷ b'I' ∷ b'O' ∷ b'N' ∷ b'_'
      ∷ b'S' ∷ b'E' ∷ b'R' ∷ b'V' ∷ b'E' ∷ b'R' ∷ b'_' ∷ [])
    ++ name

-- The environment variable of a setting.
abbrev pub variable_of : Setting → Text
variable_of host = server_variable (b'H' ∷ b'O' ∷ b'S' ∷ b'T' ∷ [])
variable_of externalhost =
    server_variable (
      b'E' ∷ b'X' ∷ b'T' ∷ b'E' ∷ b'R' ∷ b'N' ∷ b'A' ∷ b'L' ∷ b'_' ∷ b'H' ∷ b'O' ∷ b'S' ∷ b'T' ∷ [])
variable_of tcpport = server_variable (b'P' ∷ b'O' ∷ b'R' ∷ b'T' ∷ b'_' ∷ b'T' ∷ b'C' ∷ b'P' ∷ [])
variable_of udpport = server_variable (b'P' ∷ b'O' ∷ b'R' ∷ b'T' ∷ b'_' ∷ b'U' ∷ b'D' ∷ b'P' ∷ [])
variable_of secret_token = server_variable (b'S' ∷ b'E' ∷ b'C' ∷ b'R' ∷ b'E' ∷ b'T' ∷ [])
variable_of health_check_port = server_variable (
    b'H' ∷ b'E' ∷ b'A' ∷ b'L' ∷ b'T' ∷ b'H' ∷ b'_' ∷ b'C' ∷ b'H' ∷ b'E' ∷ b'C' ∷ b'K' ∷ b'_' ∷ b'P'
    ∷ b'O' ∷ b'R' ∷ b'T' ∷ [])
variable_of prometheus_port = server_variable (
    b'P' ∷ b'R' ∷ b'O' ∷ b'M' ∷ b'E' ∷ b'T' ∷ b'H' ∷ b'E' ∷ b'U' ∷ b'S' ∷ b'_' ∷ b'P' ∷ b'O' ∷ b'R'
    ∷ b'T' ∷ [])

-- `if not valid_config: sys.exit(1)`
abbrev pub if_valid {ℓ} : {A : Type ℓ} → A × Bool → Option A
if_valid (settings, true) = some settings
if_valid (settings, false) = none

module _ {F : Type 0} (py : Python F) (env : Text → Option Text) where
  unfoldable pub setting : Setting → Value F × Bool
  unfolding get_variable validate_int
  setting s =
      get_variable py (env (variable_of s)) (default_of s)
        (if is_port s then some (validate_int py) else none)

  -- The dict of the settings, and `valid_config`.
  unfoldable pub read_settings : List Setting → List (Setting × Value F) × Bool
  unfolding setting
  read_settings [] = ([], true)
  read_settings (s ∷ ss) =
      let (value, is_valid) = setting s in
      let (values, are_valid) = read_settings ss in ((s, value) ∷ values, is_valid && are_valid)

  -- `load_settings`; `none` is `sys.exit(1)`.
  unfoldable pub load_settings : Option (List (Setting × Value F))
  load_settings = if_valid (read_settings all_settings)
