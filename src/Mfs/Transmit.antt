-- ===== src/Mfs/Transmit.antt =====
-- The client's buffers, and transmit, receive and sendpacket of p5/MFS/mfs.c. `char` is signed, as in
-- the server. The copies for the debug output in `test` are left out.
use bacon_eggs.Prelude.{
  ℕ, ◌+◌, ◌%◌, Bool, true, false, ◌&&◌, Option, none, some, List, [], ◌∷◌, ltb, ◌==◌, if◌then◌else◌,
}
use bacon_eggs.Mfs.Commands.{Packet, no_text}

-- `sent` is what UDP_Write has been given, the last message first.
pub record Client : Type 0 where
  pub message : Packet
  pub response : Packet
  pub messageid : ℕ
  pub sent : List Packet

-- One round of the inner loop of `transmit`: what UDP_Read gives, and `diff > TIMEOUT`.
pub record Event : Type 0 where
  pub datagram : Option Packet
  pub late : Bool

abbrev pub clear : Packet
clear = record { text = no_text; key = 0; message_id = 0; command = 0; cmd_int1 = 0; cmd_int2 = 0 }

abbrev pub sendpacket : Client → Client
sendpacket c = record c { sent = c.message ∷ c.sent }

-- The start of a round of the outer loop.
abbrev pub start_round : Client → Client
start_round c = sendpacket (record c { response = clear })

-- `receive`, and the test on what it returns and on the response.
abbrev pub hear : Option Packet → Client → Client
hear none c = c
hear (some r) c = record c { response = r }

abbrev pub next_id : Client → ℕ
next_id c = (c.messageid + 1) % 255

abbrev pub is_ack : Option Packet → Client → Bool
is_ack none c = false
is_ack (some r) c = r.key == b'k' && (ltb r.message_id 128 && r.message_id == next_id c)

-- One round of the inner loop, with the start of the next round of the outer loop where it ends
-- without an answer: the client, and `ackd`.
unfoldable pub transmit_round : Event → Client → Client × Bool
transmit_round e c =
    let heard = hear e.datagram c in
    if is_ack e.datagram c
    then (record heard { messageid = next_id c }, true)
    else if e.late
    then (start_round heard, false)
    else (heard, false)

-- The loops of `transmit` on the rounds `es`: `none` when it has no answer after them, or else the
-- rounds that are left.
unfoldable pub transmit_loop : List Event → Client → Option (Client × List Event)
unfolding transmit_round
transmit_loop [] c = none
transmit_loop (e ∷ es) c =
    let (c', ackd) = transmit_round e c in
    let rest = transmit_loop es c' in if ackd then some (c', es) else rest

abbrev pub transmit : List Event → Client → Option (Client × List Event)
transmit es c = transmit_loop es (start_round c)
