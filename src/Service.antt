-- ===== src/Service.antt =====
-- node/network/src/service.rs and lib.rs: rooms, the messages of `NetworkService` to the worker, and
-- what the worker's loop does with one. The channel between them has no bound.
use tss_libp2p.Prelude.{ℕ, List, [], ◌∷◌, ◌++◌, Option}
use tss_libp2p.Messages.{MessageContext}
use tss_libp2p.Broadcast.{Net, Name, Broadcast, RequestResponse, Effect, try_connect}
use tss_libp2p.Broadcast.Send

-- A room is the text of its hash.
abbrev pub RoomId : Type 0
RoomId = Name

-- `/room/` and the hash.
unfoldable pub as_protocol_id : RoomId → Name
as_protocol_id id = 47 ∷ 114 ∷ 111 ∷ 111 ∷ 109 ∷ 47 ∷ id

-- The handle on the worker: what is sent by it is listed.
pub record NetworkService (PeerId : Type 0) : Type 0 where
  pub local_peer_id : PeerId

-- Where a payload goes, and the channel of the replies.
pub data MessageRouting (PeerId : Type 0) : Type 0 where
  to_all : List ℕ → Option ℕ → MessageRouting PeerId
  to_many : List PeerId → List ℕ → Option ℕ → MessageRouting PeerId
  to_one : PeerId → List ℕ → ℕ → MessageRouting PeerId

pub record NetworkMessage (PeerId : Type 0) : Type 0 where
  pub room_id : RoomId
  pub context : MessageContext
  pub message : MessageRouting PeerId

module _ {X : Net} (rr : RequestResponse X) where
  -- A request of the service, with the peers that discovery knows.
  unfoldable pub on_message :
      ℕ → List X.PeerId → NetworkMessage X.PeerId → Broadcast X → Broadcast X × List (Effect X)
  on_message now known m b = elim m.message [
    | to_all payload tx ↦
        Send.broadcast_message rr now b known (as_protocol_id m.room_id) m.context payload tx
          try_connect
    | to_many targets payload tx ↦
        Send.broadcast_message rr now b targets (as_protocol_id m.room_id) m.context payload tx
          try_connect
    | to_one target payload tx ↦
        Send.send_message rr now b target (as_protocol_id m.room_id) m.context payload tx
          try_connect
  ]

  -- The requests that wait on the channel, in order.
  serve :
      ℕ
      → List X.PeerId
      → List (NetworkMessage X.PeerId)
      → Broadcast X
      → Broadcast X × List (Effect X)
  unfolding on_message
  serve now known [] b = (b, [])
  serve now known (m ∷ ms) b =
      let (b1, es) = on_message now known m b in
      let (b2, fs) = serve now known ms b1 in (b2, es ++ fs)
