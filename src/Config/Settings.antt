-- ===== src/Config/Settings.antt =====
-- The settings that Config.py returns, and when it exits instead.
use live_translation.Common.{
  ℕ, ◌≡◌, refl, ap, ◌∙◌, inl, inr, Bool, true, false, ◌&&◌, ◌||◌, not, List, [], ◌∷◌, Option, none,
  some, Option-cases, if◌then◌else◌,
}
use live_translation.Common.Int.{ℤ, pos}
use live_translation.Ogg.Utf8.{Text}
use live_translation.Config.{
  Value, int, text, Python, Setting, host, externalhost, tcpport, udpport, secret_token,
  health_check_port, prometheus_port, validate_int, get_variable, setting, read_settings, if_valid,
  load_settings,
}

-- The variables by their whole names.
abbrev pub host_name : Text
host_name =
    b'T' ∷ b'R' ∷ b'A' ∷ b'N' ∷ b'S' ∷ b'C' ∷ b'R' ∷ b'I' ∷ b'P' ∷ b'T' ∷ b'I' ∷ b'O' ∷ b'N' ∷ b'_'
    ∷ b'S' ∷ b'E' ∷ b'R' ∷ b'V' ∷ b'E' ∷ b'R' ∷ b'_' ∷ b'H' ∷ b'O' ∷ b'S' ∷ b'T' ∷ []

abbrev pub externalhost_name : Text
externalhost_name =
    b'T' ∷ b'R' ∷ b'A' ∷ b'N' ∷ b'S' ∷ b'C' ∷ b'R' ∷ b'I' ∷ b'P' ∷ b'T' ∷ b'I' ∷ b'O' ∷ b'N' ∷ b'_'
    ∷ b'S' ∷ b'E' ∷ b'R' ∷ b'V' ∷ b'E' ∷ b'R' ∷ b'_' ∷ b'E' ∷ b'X' ∷ b'T' ∷ b'E' ∷ b'R' ∷ b'N'
    ∷ b'A' ∷ b'L' ∷ b'_' ∷ b'H' ∷ b'O' ∷ b'S' ∷ b'T' ∷ []

abbrev pub tcpport_name : Text
tcpport_name =
    b'T' ∷ b'R' ∷ b'A' ∷ b'N' ∷ b'S' ∷ b'C' ∷ b'R' ∷ b'I' ∷ b'P' ∷ b'T' ∷ b'I' ∷ b'O' ∷ b'N' ∷ b'_'
    ∷ b'S' ∷ b'E' ∷ b'R' ∷ b'V' ∷ b'E' ∷ b'R' ∷ b'_' ∷ b'P' ∷ b'O' ∷ b'R' ∷ b'T' ∷ b'_' ∷ b'T'
    ∷ b'C' ∷ b'P' ∷ []

abbrev pub udpport_name : Text
udpport_name =
    b'T' ∷ b'R' ∷ b'A' ∷ b'N' ∷ b'S' ∷ b'C' ∷ b'R' ∷ b'I' ∷ b'P' ∷ b'T' ∷ b'I' ∷ b'O' ∷ b'N' ∷ b'_'
    ∷ b'S' ∷ b'E' ∷ b'R' ∷ b'V' ∷ b'E' ∷ b'R' ∷ b'_' ∷ b'P' ∷ b'O' ∷ b'R' ∷ b'T' ∷ b'_' ∷ b'U'
    ∷ b'D' ∷ b'P' ∷ []

abbrev pub secret_name : Text
secret_name =
    b'T' ∷ b'R' ∷ b'A' ∷ b'N' ∷ b'S' ∷ b'C' ∷ b'R' ∷ b'I' ∷ b'P' ∷ b'T' ∷ b'I' ∷ b'O' ∷ b'N' ∷ b'_'
    ∷ b'S' ∷ b'E' ∷ b'R' ∷ b'V' ∷ b'E' ∷ b'R' ∷ b'_' ∷ b'S' ∷ b'E' ∷ b'C' ∷ b'R' ∷ b'E' ∷ b'T' ∷ []

abbrev pub health_check_name : Text
health_check_name =
    b'T' ∷ b'R' ∷ b'A' ∷ b'N' ∷ b'S' ∷ b'C' ∷ b'R' ∷ b'I' ∷ b'P' ∷ b'T' ∷ b'I' ∷ b'O' ∷ b'N' ∷ b'_'
    ∷ b'S' ∷ b'E' ∷ b'R' ∷ b'V' ∷ b'E' ∷ b'R' ∷ b'_' ∷ b'H' ∷ b'E' ∷ b'A' ∷ b'L' ∷ b'T' ∷ b'H'
    ∷ b'_' ∷ b'C' ∷ b'H' ∷ b'E' ∷ b'C' ∷ b'K' ∷ b'_' ∷ b'P' ∷ b'O' ∷ b'R' ∷ b'T' ∷ []

abbrev pub prometheus_name : Text
prometheus_name =
    b'T' ∷ b'R' ∷ b'A' ∷ b'N' ∷ b'S' ∷ b'C' ∷ b'R' ∷ b'I' ∷ b'P' ∷ b'T' ∷ b'I' ∷ b'O' ∷ b'N' ∷ b'_'
    ∷ b'S' ∷ b'E' ∷ b'R' ∷ b'V' ∷ b'E' ∷ b'R' ∷ b'_' ∷ b'P' ∷ b'R' ∷ b'O' ∷ b'M' ∷ b'E' ∷ b'T'
    ∷ b'H' ∷ b'E' ∷ b'U' ∷ b'S' ∷ b'_' ∷ b'P' ∷ b'O' ∷ b'R' ∷ b'T' ∷ []

module _ {F : Type 0} (py : Python F) (env : Text → Option Text) where
  -- A port's variable that is set, but to no number.
  abbrev pub is_bad_word : Option ℤ → Bool
  is_bad_word none = true
  is_bad_word (some n) = false

  abbrev pub is_bad_port : Option Text → Bool
  is_bad_port none = false
  is_bad_port (some word) = is_bad_word (py.parse_int word)

  abbrev pub any_bad : Bool
  any_bad =
      is_bad_port (env tcpport_name)
      || is_bad_port (env udpport_name)
      || is_bad_port (env health_check_name)
      || is_bad_port (env prometheus_name)

  -- What a setting is, from its variable.
  abbrev pub int_or : Option ℤ → Value F → Value F
  int_or none fallback = fallback
  int_or (some n) fallback = int n

  abbrev pub port_or : Option Text → ℕ → Value F
  port_or none fallback = int (pos fallback)
  port_or (some word) fallback = int_or (py.parse_int word) (int (pos fallback))

  abbrev pub text_or : Option Text → Text → Value F
  text_or none fallback = text fallback
  text_or (some word) fallback = text word

  abbrev pub settings : List (Setting × Value F)
  settings =
      (host, text_or (env host_name) (b'0' ∷ b'.' ∷ b'0' ∷ b'.' ∷ b'0' ∷ b'.' ∷ b'0' ∷ []))
      ∷ (
        externalhost,
        text_or (env externalhost_name)
            (b'1' ∷ b'2' ∷ b'7' ∷ b'.' ∷ b'0' ∷ b'.' ∷ b'0' ∷ b'.' ∷ b'1' ∷ []),
      )
      ∷ (tcpport, port_or (env tcpport_name) 5000)
      ∷ (udpport, port_or (env udpport_name) 5001)
      ∷ (
        secret_token,
        text_or (env secret_name) (
            b'y' ∷ b'o' ∷ b'u' ∷ b'r' ∷ b'_' ∷ b's' ∷ b'e' ∷ b'c' ∷ b'r' ∷ b'e' ∷ b't' ∷ b'_' ∷ b't'
            ∷ b'o' ∷ b'k' ∷ b'e' ∷ b'n' ∷ []),
      )
      ∷ (health_check_port, port_or (env health_check_name) 8001)
      ∷ (prometheus_port, port_or (env prometheus_name) 2112)
      ∷ []

  get_variable-port :
      (found : Option Text) (n : ℕ)
      → get_variable py found (int (pos n)) (some (validate_int py))
        ≡ (port_or found n, not (is_bad_port found))
  unfolding get_variable validate_int
  get_variable-port none n = refl
  get_variable-port (some word) n = elim (Option-cases (py.parse_int word)) [
    | inl e ↦ rw e
    | inr (m, e) ↦ rw e
  ]

  get_variable-text :
      (found : Option Text) (word : Text)
      → get_variable py found (text word) none ≡ (text_or found word, true)
  unfolding get_variable
  get_variable-text none word = refl
  get_variable-text (some given) word = refl

  setting-host :
      setting py env host
      ≡ (text_or (env host_name) (b'0' ∷ b'.' ∷ b'0' ∷ b'.' ∷ b'0' ∷ b'.' ∷ b'0' ∷ []), true)
  unfolding setting
  setting-host = get_variable-text (env host_name) _

  setting-externalhost : setting py env externalhost ≡ (
    text_or
        (env externalhost_name)
        (b'1' ∷ b'2' ∷ b'7' ∷ b'.' ∷ b'0' ∷ b'.' ∷ b'0' ∷ b'.' ∷ b'1' ∷ []),
    true,
  )
  unfolding setting
  setting-externalhost = get_variable-text (env externalhost_name) _

  setting-tcpport :
      setting py env tcpport
      ≡ (port_or (env tcpport_name) 5000, not (is_bad_port (env tcpport_name)))
  unfolding setting
  setting-tcpport = get_variable-port (env tcpport_name) 5000

  setting-udpport :
      setting py env udpport
      ≡ (port_or (env udpport_name) 5001, not (is_bad_port (env udpport_name)))
  unfolding setting
  setting-udpport = get_variable-port (env udpport_name) 5001

  setting-secret_token : setting py env secret_token ≡ (
    text_or (env secret_name) (
        b'y' ∷ b'o' ∷ b'u' ∷ b'r' ∷ b'_' ∷ b's' ∷ b'e' ∷ b'c' ∷ b'r' ∷ b'e' ∷ b't' ∷ b'_' ∷ b't'
        ∷ b'o' ∷ b'k' ∷ b'e' ∷ b'n' ∷ []),
    true,
  )
  unfolding setting
  setting-secret_token = get_variable-text (env secret_name) _

  setting-health_check_port :
      setting py env health_check_port
      ≡ (port_or (env health_check_name) 8001, not (is_bad_port (env health_check_name)))
  unfolding setting
  setting-health_check_port = get_variable-port (env health_check_name) 8001

  setting-prometheus_port :
      setting py env prometheus_port
      ≡ (port_or (env prometheus_name) 2112, not (is_bad_port (env prometheus_name)))
  unfolding setting
  setting-prometheus_port = get_variable-port (env prometheus_name) 2112

  read_settings-cons :
      (s : Setting) (ss : List Setting) (value : Value F) (values : List (Setting × Value F))
      (b bs : Bool)
      → setting py env s ≡ (value, b)
      → read_settings py env ss ≡ (values, bs)
      → read_settings py env (s ∷ ss) ≡ ((s, value) ∷ values, b && bs)
  unfolding read_settings
  read_settings-cons s ss value values b bs e e' = rw (e, e') refl

  read_settings-nil : read_settings py env [] ≡ ([], true)
  unfolding read_settings
  read_settings-nil = refl

  exits_if :
      {A : Type 0} (values : A) (a b c d : Bool)
      → if_valid (values, not a && (not b && (not c && (not d && true))))
        ≡ (if a || b || c || d then none else some values)
  exits_if values true b c d = refl
  exits_if values false true c d = refl
  exits_if values false false true d = refl
  exits_if values false false false true = refl
  exits_if values false false false false = refl

  -- The program exits exactly if the variable of some port is set to what is no number. Otherwise
  -- the settings are, in this order, the host, the external host, the TCP and the UDP port, the
  -- secret token, and the ports of the health check and of Prometheus, each from the variable with
  -- its whole name, as a number if it is a port, or else its default.
  pub load_settings-settings : load_settings py env ≡ (if any_bad then none else some settings)
  unfolding load_settings
  load_settings-settings =
      ap if_valid (
        read_settings-cons host _ _ _ _ _ setting-host (
          read_settings-cons externalhost _ _ _ _ _ setting-externalhost (
            read_settings-cons tcpport _ _ _ _ _ setting-tcpport (
              read_settings-cons udpport _ _ _ _ _ setting-udpport (
                read_settings-cons secret_token _ _ _ _ _ setting-secret_token (
                  read_settings-cons health_check_port _ _ _ _ _ setting-health_check_port (
                    read_settings-cons prometheus_port _ _ _ _ _ setting-prometheus_port
                      read_settings-nil)))))))
      ∙ exits_if settings (is_bad_port (env tcpport_name)) (is_bad_port (env udpport_name))
          (is_bad_port (env health_check_name)) (is_bad_port (env prometheus_name))
