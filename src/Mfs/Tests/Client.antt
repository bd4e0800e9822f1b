-- ===== src/Mfs/Tests/Client.antt =====
-- The client and the server of p5/MFS together, on the image that the server starts with.
use bacon_eggs.Prelude.{
  ℕ, ◌≤◌, ◌<◌, ◌≡◌, refl, ◌⊎◌, true, false, none, some, [], ◌∷◌, length, arith,
}
use mathlib.Core.List.Memᴰ.{head}
use bacon_eggs.Prelude.Int.{pos}
use bacon_eggs.Mfs.Disk.{Bytes}
use bacon_eggs.Mfs.State.{Server}
use bacon_eggs.Mfs.Names.{string_length}
use bacon_eggs.Mfs.Files.{mfs_lookup_h, lookup_entries}
use bacon_eggs.Mfs.Utils.{getinode, startfs, same_string}
use bacon_eggs.Mfs.Commands.{Packet, receive, processcommand}
use bacon_eggs.Mfs.Replay.{plain_answer}
use bacon_eggs.Mfs.Transmit.{Client, clear}
use bacon_eggs.Mfs.Client.{labelled, is_percent, mfs_write, mfs_read, mfs_lookup}
use bacon_eggs.Mfs.Network.{
  Network, Start, Run, start, next, begin_step, serve_step, round_step, begin, served, rounded,
}
use bacon_eggs.Mfs.Exchange.{exactly_once}
use bacon_eggs.Mfs.EndToEnd.{arrival, write_message, read_message, write-read_network}
use bacon_eggs.Mfs.LostAnswer.{timeout, lookup_message, accepted_late, lookup-lost}
use bacon_eggs.Mfs.Tests.{
  fresh, letter, with_file, with_file-InodeAt, with_file_type, with_file_count,
}

abbrev new_client : Client
new_client = record { message = clear; response = clear; messageid = 0; sent = [] }

-- A call of MFS_Init: its message, the server's answer, and the round in which it arrives.
abbrev new_network : Network
new_network = record {
  client = new_client;
  server = fresh;
  waiting = false;
  replies = [];
  processed = [];
  completed = [];
}

new_network-Start : Start new_network
new_network-Start = record {
  quiet = refl;
  silent = refl;
  first = refl;
  count = refl;
  idle = refl;
  unprocessed = refl;
  uncompleted = refl;
}

abbrev init_message : Packet
init_message = labelled 0 new_client

abbrev server_after : Server
server_after = record fresh { messagecount = 1 }

abbrev init_reply : Packet
init_reply = plain_answer init_message server_after

abbrev network_after : Network
network_after =
    rounded (arrival init_reply)
      (served init_message init_reply server_after (begin init_message new_network))

init_run : Run new_network network_after
unfolding receive processcommand
init_run =
    next
      (next (next start (begin_step init_message refl refl refl refl))
        (serve_step init_message init_reply server_after (head refl) refl))
      (round_step (arrival init_reply) refl (head refl))

exactly_once_example :
    ((network_after.processed ≡ network_after.completed)
      ⊎ ((network_after.waiting ≡ true)
          × (network_after.processed ≡ network_after.client.message ∷ network_after.completed)))
    × (length network_after.completed ≤ 127)
exactly_once_example = exactly_once new_network network_after new_network-Start init_run

write-read_network_example :
    (r : Packet) × (t : Server) × (c : Client) × (receive
        (write_message 1 2 (letter b'x') new_client)
        with_file
      ≡ some (r, t))
    × (mfs_write (pos 1) (some (letter b'x')) (pos 2) (arrival r ∷ []) new_client
        ≡ some (pos 0, c, []))
    × (c.sent ≡ write_message 1 2 (letter b'x') new_client ∷ [])
    × ((q : Packet) × (u : Server) × (c' : Client) × (text : Bytes) × (receive
            (read_message 1 2 c)
            t
          ≡ some (q, u))
        × (mfs_read (pos 1) true (pos 2) (arrival q ∷ []) c ≡ some (some text, c', []))
        × (c'.sent ≡ read_message 1 2 c ∷ c.sent)
        × ((a : ℕ) → a < 4096 → text a ≡ letter b'x' a))
write-read_network_example =
    write-read_network with_file new_client 1 2 (letter b'x') with_file-InodeAt with_file_type
      (omega arith) (omega arith) with_file_count (omega (arith, with_file_count))

-- The name "x" is not there; after a lost answer the client gets 0.
abbrev x_message : Packet
x_message = lookup_message 0 (letter b'x') new_client

abbrev x_answer : Packet × Server
x_answer = elim (receive x_message fresh) [ none ↦ (clear, fresh) | some answer ↦ answer ]

lookup-lost_example :
    (receive x_message x_answer.1 ≡ some (plain_answer x_message x_answer.1, x_answer.1))
    × (mfs_lookup
          (pos 0)
          (some (letter b'x'))
          (timeout ∷ arrival (plain_answer x_message x_answer.1) ∷ [])
          new_client
        ≡ some (pos 0, accepted_late x_message (plain_answer x_message x_answer.1) new_client, []))
unfolding receive processcommand string_length is_percent mfs_lookup_h getinode startfs
    lookup_entries same_string
lookup-lost_example =
    lookup-lost fresh x_answer.1 new_client 0 (letter b'x') x_answer.0 (omega arith) refl refl
      (omega arith) refl
