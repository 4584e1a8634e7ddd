-- ===== src/Server/Processed.antt =====
-- `ProcessReceivedPackets` keeps the invariant and empties the queues.
use mathlib.Core.Path.{subst}
use mathlib.Core.Option.{some_inj}
use gio_net.Base.{
  ℕ, ◌≡◌, refl, sym, ap, ◌∙◌, Bool, true, false, Option, none, some, [], ok, if◌then◌else◌,
}
use gio_net.Base.Map.{find}
use gio_net.Connection.{Connection}
use gio_net.Connection.Invariant.{IsValid}
use gio_net.Server.{Server, get_peers, process_received_packets}
use gio_net.Server.Each.{member, is_there, option_map}
use gio_net.Server.Drain.{drained, deliveries, process_received_packets_lem}
use gio_net.Server.Sound.{IsSound, AreLive-same, drained-IsValid}

-- No packet waits in the queue of a peer.
abbrev pub IsDrained : Server → Type 0
IsDrained s =
    (q : ℕ) (c : Connection)
    → member q (get_peers s) ≡ true
    → find q s.connections ≡ some c
    → c.incoming.ready_packets ≡ []

option_map-IsValid :
    (o : Option Connection) (c : Connection)
    → ((d : Connection) → o ≡ some d → IsValid d)
    → option_map drained o ≡ some c
    → IsValid c × (c.incoming.ready_packets ≡ [])
option_map-IsValid none c v e = cc
option_map-IsValid (some d) c v e = (
  subst IsValid (some_inj.0 e) (drained-IsValid d (v d refl)),
  ap (λ x. x.incoming.ready_packets) (sym (some_inj.0 e)),
)

drained_if :
    (b : Bool) (o : Option Connection) (c : Connection)
    → ((d : Connection) → o ≡ some d → IsValid d)
    → (if b then option_map drained o else o) ≡ some c
    → IsValid c × (b ≡ true → c.incoming.ready_packets ≡ [])
drained_if true o c v e = let r = option_map-IsValid o c v e in (r.0, λ h. r.1)
drained_if false o c v e = (v c e, λ h. cc)

is_there-if :
    (b : Bool) (o : Option Connection)
    → is_there (if b then option_map drained o else o) ≡ is_there o
is_there-if true none = refl
is_there-if true (some c) = refl
is_there-if false o = refl

-- Handing the packets over keeps the invariant and empties the queues.
pub process_received_packets-IsSound :
    (s : Server)
    → IsSound s
    → (t : Server) × (process_received_packets s ≡ ok (deliveries (get_peers s) s.connections, t))
      × IsSound t
      × IsDrained t
      × (t.peers ≡ s.peers)
      × ((q : ℕ)
          → find q t.connections ≡ (
              if member q (get_peers s)
              then option_map drained (find q s.connections)
              else find q s.connections))
unfolding get_peers
process_received_packets-IsSound s k =
    let (t, runs, effect, same_peers, same_socket, same_next) =
      process_received_packets_lem s k.live in
    let same : get_peers t ≡ get_peers s = rw same_peers refl in
    let after : (q : ℕ) (c : Connection)
        → find q t.connections ≡ some c
        → IsValid c × (member q (get_peers s) ≡ true → c.incoming.ready_packets ≡ []) =
      λ q c e.
        drained_if (member q (get_peers s)) (find q s.connections) c (k.valid q)
          (sym (effect q) ∙ e) in
    (
      t,
      runs,
      record {
        live = rw same (
            AreLive-same (get_peers s) s.connections t.connections
              (λ q. rw (effect q) (is_there-if (member q (get_peers s)) (find q s.connections)))
              k.live);
        fresh = rw (same, same_next) k.fresh;
        valid = λ q c e. (after q c e).0;
      },
      λ q c m e. (after q c e).1 (rw same at m),
      same_peers,
      effect,
    )
