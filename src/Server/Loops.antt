-- ===== src/Server/Loops.antt =====
-- readLoop and writeLoop (internal/network/client.go).
use skall.Base.{
  ℕ, Bool, true, false, Option, none, some, List, [], ◌∷◌, if◌then◌else◌, ◌==◌, ok, err, ℕ-eq,
}
use skall.Bytes.{Bytes, Bytes-eq}
use skall.Dict.{get, put}
use skall.Protocol.Message.{Message, MessageError, Json, validate, type_join}
use skall.Protocol.Framing.{read_message}
use skall.Server.State.{Client, Server, register, remove_client}
use skall.Server.Routing.{broadcast}

-- What a turn of the loop meets: the time, the order of a range, and whether SetReadDeadline succeeds.
pub record Turn : Type 0 where
  pub now : ℕ
  pub order : List ℕ
  pub armed : Bool

module _ (format : ℕ → Bytes) where
  -- readLoop on a message, from Validate on. The join and the whole broadcast are one turn: what other
  -- goroutines do between the snapshot of broadcast and its sends is not in it.
  unfoldable pub handle_valid : ℕ → Turn → Message → Option MessageError → Server → Server
  handle_valid k turn m (some e) s = s
  handle_valid k turn m none s =
      broadcast format turn.now k turn.order m (if m.type == type_join then register k m s else s)

  unfoldable pub handle_message : ℕ → Turn → Message → Server → Server
  handle_message k turn m s = handle_valid k turn m (validate m) s

module _ (json : Json) (format : ℕ → Bytes) where
  -- readLoop on the bytes that the client sends before it is silent for too long or closes: the turns
  -- give the time of each, `none` is a loop that still runs. An error ends it, and removes the client.
  unfoldable pub read_loop : List Turn → ℕ → Bytes → Server → Option Server
  read_loop [] k input s = none
  read_loop (turn ∷ turns) k input s =
      let (read, rest) = read_message json input in
      elim turn.armed [
        | false ↦ some (remove_client k s)
        | true ↦ elim read [
          | err e ↦ some (remove_client k s)
          | ok m ↦ read_loop turns k rest (handle_message format k turn m s)
        ]
      ]

unfoldable pub rest_of : List Message → List Message
rest_of [] = []
rest_of (m ∷ rest) = rest

unfoldable pub pop : ℕ → Option Client → Server → Server
pop k none s = s
pop k (some c) s = record s { conns = put k (record c { queue = rest_of c.queue }) s.conns }

-- One turn of writeLoop: the message that it takes from the channel is written or not; a write that
-- fails ends the loop, and removes the client.
unfoldable pub write_turn : ℕ → Bool → Server → Server
write_turn k written s =
    let s' = pop k (get k s.conns) s in if written then s' else remove_client k s'
