-- ===== src/Tcp.antt =====
-- The class `Client` of TCPserver.py. What other parties do is a list of acts, one after another: a
-- round of the loop that runs (the clock at its start, what `recv` does, and the clock after it), a
-- call of `stop` by another thread, which runs as a whole there (its steps are in Overlap), or a
-- break of the connection, after which sends fail. Callbacks are numbers, and what is told to the
-- program is kept in `told`. RSA and AES are parameters; `none` is that they raise.
pub mod Loops
pub mod Keeps
pub mod Removal
pub mod Token
pub mod Access
pub mod Outcome
pub mod Server
pub mod Overlap
pub mod Stopping
pub mod Shutdown
pub mod Lifecycle
pub mod Events
mod Tests
use live_translation.Common.{
  ℕ, Bool, true, false, ◌||◌, ◌&&◌, not, List, [], ◌∷◌, ◌++◌, map, Option, none, some, ◌==◌, take,
  drop, if◌then◌else◌,
}
use live_translation.Common.Result.{Result, ok, err}
use live_translation.Common.Float.{Floats}
use live_translation.Ogg.Bytes.{Bytes, Error, bytes_eq}
use live_translation.Ogg.Utf8.{Text, decode}
use live_translation.Event
use live_translation.Event.{EventHandler}

-- `self.conn`: None, or a socket, which may be broken.
pub data Connection : Type 0 where
  closed opened broken : Connection

pub data Told : Type 0 where
  connected disconnected timeout ping : ℕ → Told
  message : ℕ → Bytes → Told
  removed : Told

pub record Client (F : Type 0) : Type 0 where
  pub conn : Connection
  pub ping_timeout_time : F
  pub running : Bool
  pub encryption : ℕ
  pub last_ping : F
  pub server_publickey : Option Bytes
  pub has_privatekey : Bool
  pub client_key : Option Bytes
  pub client_initkey : Option Bytes
  pub secret_token : Text
  pub connected_callbacks : EventHandler ℕ
  pub disconnected_callbacks : EventHandler ℕ
  pub timeout_callbacks : EventHandler ℕ
  pub message_callbacks : EventHandler ℕ
  pub ping_callbacks : EventHandler ℕ
  pub sent : List Bytes
  pub told : List Told

-- What `recv` does: data, which is empty when the peer has closed, or an exception.
pub data Input : Type 0 where
  arrives : Bytes → Input
  times_out fails : Input

pub data Act (F : Type 0) : Type 0 where
  round : F → Input → F → Act F
  calls_stop breaks : Act F

-- How a loop ends: it waits for a further act, its condition is false, it returns, or an
-- exception that nothing catches ends the thread.
pub data Verdict : Type 0 where
  waiting ended crashed : Verdict
  returned : Bool → Verdict

-- The private key's `decrypt` with OAEP, and AES in CFB mode, on key, init vector and data.
pub record Ciphers : Type 0 where
  pub rsa_decrypt : Bytes → Option Bytes
  pub aes_decrypt : Bytes → Bytes → Bytes → Option Bytes
  pub aes_encrypt : Bytes → Bytes → Bytes → Option Bytes

abbrev pub is_closed : Connection → Bool
is_closed closed = true
is_closed opened = false
is_closed broken = false

-- b"OK", b"PING" and b"PONG".
abbrev pub ok_message : Bytes
ok_message = b'O' ∷ b'K' ∷ []

abbrev pub ping_message : Bytes
ping_message = b'P' ∷ b'I' ∷ b'N' ∷ b'G' ∷ []

abbrev pub pong_message : Bytes
pong_message = b'P' ∷ b'O' ∷ b'N' ∷ b'G' ∷ []

-- A bytes object that is there and not empty.
abbrev pub is_truthy : Option Bytes → Bool
is_truthy none = false
is_truthy (some []) = false
is_truthy (some (b ∷ bs)) = true

-- `_encrypt` and `_decrypt`.
unfoldable pub crypt :
    (Bytes → Bytes → Bytes → Option Bytes) → Option Bytes → Option Bytes → Bytes → Option Bytes
crypt cipher (some key) (some initkey) payload = cipher key initkey payload
crypt cipher (some key) none payload = some []
crypt cipher none initkey payload = some []

module _ {F : Type 0} where
  abbrev pub tells : Client F → List Told → Client F
  tells c news = record c { told = c.told ++ news }

  unfoldable pub reset_ping : Client F → F → Client F
  reset_ping c now = record c { last_ping = now }

  -- `stop`. Errors of `shutdown` and `close` are caught there.
  unfoldable pub stop : Client F → Client F
  stop c =
      if not c.running
      then c
      else if is_closed c.conn
      then record c { running = false }
      else record c {
        running = false;
        conn = closed;
        told = c.told ++ map disconnected (Event.emit c.disconnected_callbacks) ++ removed ∷ [];
      }

  unfoldable pub ping_timeout : Client F → Client F
  unfolding stop
  ping_timeout c = stop (tells c (map timeout (Event.emit c.timeout_callbacks)))

  -- `sendall`, with the data or with the exception that encrypting it raised.
  unfoldable pub send_data : Client F → Connection → Option Bytes → Client F
  unfolding stop
  send_data c opened (some payload) = record c { sent = c.sent ++ payload ∷ [] }
  send_data c _ _ = stop c

  module _ (k : Ciphers) where
    unfoldable pub outgoing : Client F → Bytes → Option Bytes
    unfolding crypt
    outgoing c payload =
        if not (c.encryption == 0) && is_truthy c.client_key && is_truthy c.client_initkey
        then crypt k.aes_encrypt c.client_key c.client_initkey payload
        else some payload

    unfoldable pub send : Client F → Bytes → Client F
    unfolding send_data outgoing
    send c payload = send_data c c.conn (outgoing c payload)

    -- What was received, in plain text.
    unfoldable pub incoming : Client F → Bytes → Option Bytes
    unfolding crypt
    incoming c payload =
        if c.encryption == 0
        then some payload
        else crypt k.aes_decrypt c.client_key c.client_initkey payload

    unfoldable pub handle_ping : Client F → F → Client F
    unfolding reset_ping send
    handle_ping c now =
        let c' = reset_ping c now in
        send (tells c' (map ping (Event.emit c'.ping_callbacks))) pong_message
