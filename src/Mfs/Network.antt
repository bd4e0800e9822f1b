-- ===== src/Mfs/Network.antt =====
-- A client and the server of p5/MFS with the network between them: every message that was sent can
-- arrive any number of times, in any order, or never. The calls are all but MFS_Shutdown, which ends
-- the server.
use bacon_eggs.Prelude.{
  ◌==◌, ◌%◌, ◌≡◌, Bool, true, false, Option, none, some, List, [], ◌∷◌, not, if◌then◌else◌,
}
use mathlib.Core.List.{Memᴰ}
use bacon_eggs.Mfs.State.{Server}
use bacon_eggs.Mfs.Commands.{Packet, receive, is_next}
use bacon_eggs.Mfs.Transmit.{Client, Event, start_round, transmit_round}

-- `waiting` is whether the client is in `transmit`. `replies` has all replies of the server,
-- `processed` the messages that it has processed, and `completed` those that the client has had an
-- answer to, the last one first.
pub record Network : Type 0 where
  pub client : Client
  pub server : Server
  pub waiting : Bool
  pub replies : List Packet
  pub processed : List Packet
  pub completed : List Packet

-- A packet that is in the network, if there is one.
abbrev pub Arrives : Option Packet → List Packet → Type 0
Arrives none replies = Unit {0}
Arrives (some r) replies = Memᴰ r replies

-- The start of `transmit` with the message `m`.
abbrev pub begin : Packet → Network → Network
begin m n = record n { client = start_round (record n.client { message = m }); waiting = true }

-- The server has answered `m` with `r`.
abbrev pub served : Packet → Packet → Server → Network → Network
served m r server n = record n {
  server = server;
  replies = r ∷ n.replies;
  processed = if is_next m n.server then m ∷ n.processed else n.processed;
}

abbrev pub rounded : Event → Network → Network
rounded e n =
    let (client, ackd) = transmit_round e n.client in
    record n {
      client = client;
      waiting = not ackd;
      completed = if ackd then n.client.message ∷ n.completed else n.completed;
    }

pub data Step (n : Network) : Network → Type 0 where
  begin_step :
      (m : Packet)
      → n.waiting ≡ false
      → m.key ≡ b'k'
      → m.message_id ≡ n.client.messageid % 256
      → m.command == 7 ≡ false
      → Step n (begin m n)
  serve_step :
      (m r : Packet) (server : Server)
      → Memᴰ m n.client.sent
      → receive m n.server ≡ some (r, server)
      → Step n (served m r server n)
  round_step : (e : Event) → n.waiting ≡ true → Arrives e.datagram n.replies → Step n (rounded e n)

pub data Run (n : Network) : Network → Type 0 where
  start : Run n n
  next : {m k : Network} → Run n m → Step m k → Run n k

-- Neither the client nor the server has sent a message.
pub record Start (n : Network) : Type 0 where
  pub quiet : n.client.sent ≡ []
  pub silent : n.replies ≡ []
  pub first : n.client.messageid ≡ 0
  pub count : n.server.messagecount ≡ 0
  pub idle : n.waiting ≡ false
  pub unprocessed : n.processed ≡ []
  pub uncompleted : n.completed ≡ []
