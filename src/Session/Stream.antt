-- ===== src/Session/Stream.antt =====
-- What the users of a client and of its server get, in every state of a session.
use gio_net.Base.{◌∷◌, List, []}
use gio_net.Buffer.{Buffer}
use gio_net.Packet.{Packet}
use gio_net.Connection.{Connection}
use gio_net.Client.{Client}
use gio_net.System.{In}
use gio_net.Session.{Session}

-- What was handed over: all of `ordered`, each once and in order, and in between others, as often
-- and in whatever order they came.
pub data Mixed (others : List Buffer) : List Buffer → List Buffer → Type 0 where
  none : Mixed others [] []
  ordered :
      (b : Buffer) {bs handed : List Buffer}
      → Mixed others bs handed
      → Mixed others (b ∷ bs) (b ∷ handed)
  other :
      (b : Buffer) {bs handed : List Buffer}
      → In b others
      → Mixed others bs handed
      → Mixed others bs (b ∷ handed)
