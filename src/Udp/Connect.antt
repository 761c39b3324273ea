-- ===== src/Udp/Connect.antt =====
-- What one datagram does: whom it is delivered to, and what is announced.
use live_translation.Common.{
  ℕ, ◌≡◌, ◌⊎◌, List, [], ◌∷◌, Option, none, some, ◌==◌, map, if◌then◌else◌,
}
use live_translation.Ogg.Bytes.{Bytes}
use live_translation.Event
use live_translation.Udp.{Address, Client, Server}
use live_translation.Udp.Listen.{Emitted, message, thread_ends}
use live_translation.Udp.Choose.{HasPort, IsUnclaimed}

module _ (decrypt : Bytes → Bytes → Bytes → Option Bytes) where
  -- The data in plain text for a client, if decrypting them raises nothing.
  abbrev pub plain_for : Server → Client → Bytes → Option Bytes
  plain_for s client payload =
      if s.encryption == 0 then some payload else decrypt payload client.aes_key client.aes_initkey

  -- The message is given to each callback of the client, and nothing else is started; or the thread
  -- ends.
  abbrev pub IsHanded : ℕ → Client → Option Bytes → List Emitted → Type 0
  IsHanded c client none es = es ≡ thread_ends ∷ []
  IsHanded c client (some text) es =
      es ≡ map (λ cb. message cb c text) (Event.emit client.message_callback)

  pub record Serves (s : Server) (port : ℕ) (payload : Bytes) (es : List Emitted) : Type 0 where
    pub c : ℕ
    pub owner : HasPort s port c
    pub given : IsHanded c owner.client (plain_for s owner.client payload) es

  abbrev pub IsServed : Server → Server → Address → Bytes → List Emitted → Type 0
  IsServed s t address payload es =
      ((es ≡ []) × IsUnclaimed s address) ⊎ Serves t address.1 payload es
