-- ===== src/Rooms.antt =====
-- node/runtime/src/network_proxy.rs, and the data of coordination.rs that it shares with
-- negotiation.rs: the channels of a room. A channel is a number that its two ends share; those that
-- a call makes are arguments.
pub mod Proxy
use tss_libp2p.Prelude.{ℕ, zero, ◌-◌, List, Option, some, none, Bool, nat_beq, if◌then◌else◌}
use tss_libp2p.Peer.{PeerApi}
use tss_libp2p.Io.{IoResult, ok, panic, ◌>>=◌}
use tss_libp2p.Broadcast.{IncomingMessage}
use tss_libp2p.Service.{RoomId, NetworkService}
use tss_libp2p.Peerset.{Peerset, index_of, size}

-- `Option::unwrap`.
abbrev pub unwrap {ℓ} : {A : Type ℓ} → Option A → IoResult A
unwrap none = panic
unwrap (some a) = ok a

-- A `ComputeAgentAsync`, by what it says of itself.
pub record ComputeAgent : Type 0 where
  pub session_id : ℕ
  pub protocol_id : ℕ

-- A local request to compute: `on_done` is the channel of its result.
pub record LocalRpcMsg : Type 0 where
  pub n : ℕ
  pub args : List ℕ
  pub agent : ComputeAgent
  pub on_done : ℕ

-- A room that waits for a request, remote or local.
pub record Phase1Channel (PeerId : Type 0) : Type 0 where
  pub id : RoomId
  pub rx : Option ℕ
  pub on_local_rpc : ℕ
  pub service : NetworkService PeerId

-- `Phase1Channel::new`: `rpc` is the new channel for local requests.
unfoldable pub new_phase1 :
    {PeerId : Type 0} → RoomId → ℕ → NetworkService PeerId → ℕ → Phase1Channel PeerId × ℕ
new_phase1 room_id room_rx service rpc =
    (record { id = room_id; rx = some room_rx; on_local_rpc = rpc; service = service }, rpc)

-- What stands between the queue of a room and a running computation. `capacity` is the bound of the
-- channel `tx`.
pub record ReceiverProxy (PeerId : Type 0) : Type 0 where
  pub id : RoomId
  pub rx : Option ℕ
  pub tx : ℕ
  pub capacity : ℕ
  pub service : NetworkService PeerId
  pub parties : Peerset PeerId

-- `ReceiverProxy::new`: the new channel has room for `size - 1` messages, and one for its sender; whether
-- it takes one more is found by the poll. `size - 1` panics for no peer.
unfoldable pub new_proxy :
    {PeerId : Type 0}
    → ⦃api : PeerApi PeerId⦄ → RoomId
    → ℕ
    → NetworkService PeerId
    → Peerset PeerId
    → ℕ
    → IoResult (ReceiverProxy PeerId × ℕ)
new_proxy room_id room_rx service parties chan =
    if nat_beq (size parties) 0
    then panic
    else ok (
      record {
        id = room_id;
        rx = some room_rx;
        tx = chan;
        capacity = size parties - 1;
        service = service;
        parties = parties;
      },
      chan,
    )

-- What a poll of the proxy finds: whether the computation has dropped its end, the next message, and
-- whether the channel to the computation takes one.
pub record ProxyInput (PeerId : Type 0) : Type 0 where
  pub is_closed : Bool
  pub next : Option (IncomingMessage PeerId)
  pub takes : Bool
  pub rpc : ℕ

-- The proxy after a poll, the message that it hands on, and its output: the room back in phase 1.
abbrev pub ProxyPoll : Type 0 → Type 0
ProxyPoll PeerId =
    ReceiverProxy PeerId
    × Option (IncomingMessage PeerId)
    × Option (RoomId × (Phase1Channel PeerId × ℕ))

module _ {PeerId : Type 0} ⦃api : PeerApi PeerId⦄ where
  -- The computation is over.
  unfoldable pub back_to_phase1 : ℕ → ReceiverProxy PeerId → IoResult (ProxyPoll PeerId)
  back_to_phase1 rpc proxy = do
    rx ← unwrap proxy.rx
    ok (record proxy { rx = none }, none, some (proxy.id, new_phase1 proxy.id rx proxy.service rpc))

  -- The next message gets the index of its sender; one from outside the peer set is a panic. Nobody
  -- looks at the result of `try_send`: a message that the channel does not take is gone.
  unfoldable pub forward :
      Bool → Option (IncomingMessage PeerId) → ReceiverProxy PeerId → IoResult (ProxyPoll PeerId)
  forward takes none proxy = unwrap proxy.rx >>= λ rx. ok (proxy, none, none)
  forward takes (some msg) proxy = do
    rx ← unwrap proxy.rx
    i ← unwrap (index_of proxy.parties msg.peer_id)
    ok (proxy, (if takes then some (record msg { peer_index = i }) else none), none)

  unfoldable pub poll_proxy : ProxyInput PeerId → ReceiverProxy PeerId → IoResult (ProxyPoll PeerId)
  unfolding back_to_phase1 forward
  poll_proxy inp proxy =
      if inp.is_closed then back_to_phase1 inp.rpc proxy else forward inp.takes inp.next proxy
