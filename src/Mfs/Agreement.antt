-- ===== src/Mfs/Agreement.antt =====
-- What the client and the server of p5/MFS agree on: a message that begins, and one that is served.
use mathlib.Core.List.{Memᴰ}
use mathlib.Core.List.Memᴰ.{head, tail}
use bacon_eggs.Prelude.{
  ◌+◌, ◌%◌, ◌≤◌, ◌<◌, ◌≡◌, refl, ap, ◌∙◌, true, false, some, ◌∷◌, length, ◌⊎◌, inl, inr, arith,
}
use bacon_eggs.Mfs.State.{Server}
use bacon_eggs.Mfs.Commands.{Packet, receive, is_next}
use bacon_eggs.Mfs.Replay.{receive-some}
use bacon_eggs.Mfs.Reply.{receive-id}
use bacon_eggs.Mfs.Network.{Network, begin, served}

-- The message in `transmit` is processed, or it is not.
abbrev pub Agree : Network → Type 0
Agree n =
    ((n.server.messagecount ≡ n.client.messageid) × (n.processed ≡ n.completed))
    ⊎ ((n.waiting ≡ true)
        × (n.server.messagecount ≡ n.client.messageid + 1)
        × (n.processed ≡ n.client.message ∷ n.completed))

pub record Valid (n : Network) : Type 0 where
  pub bound : n.client.messageid ≤ 127
  pub own : n.waiting ≡ true → n.client.message.message_id ≡ n.client.messageid
  pub sent :
      (q : Packet)
      → Memᴰ q n.client.sent
      → (q.message_id < n.client.messageid) ⊎ ((n.waiting ≡ true) × (q ≡ n.client.message))
  pub heard : (r : Packet) → Memᴰ r n.replies → r.message_id ≤ n.server.messagecount
  pub number : length n.completed ≡ n.client.messageid
  pub agree : Agree n

count_bound : (n : Network) → Valid n → n.server.messagecount ≤ 128
count_bound n v = elim v.agree [
  | inl (count, same) ↦ omega (arith, count, v.bound)
  | inr (waiting, count, same) ↦ omega (arith, count, v.bound)
]

begin-sent :
    (n : Network) (m q : Packet)
    → Valid n
    → n.waiting ≡ false
    → Memᴰ q (begin m n).client.sent
    → (q.message_id < n.client.messageid) ⊎ ((true ≡ true) × (q ≡ m))
begin-sent n m q v idle (head e) = inr (refl, e)
begin-sent n m q v idle (tail old) = elim (v.sent q old) [
  | inl low ↦ inl low
  | inr (waiting, same) ↦ absurd (ground arith)
]

begin-Agree : (n : Network) (m : Packet) → Valid n → n.waiting ≡ false → Agree (begin m n)
begin-Agree n m v idle = elim v.agree [
  | inl (count, same) ↦ inl (count, same)
  | inr (waiting, count, same) ↦ absurd (ground arith)
]

pub begin-Valid :
    (n : Network) (m : Packet)
    → Valid n
    → n.waiting ≡ false
    → m.message_id ≡ n.client.messageid % 256
    → Valid (begin m n)
begin-Valid n m v idle id = record {
  bound = v.bound;
  own = λ waiting. omega (arith, v.bound, id);
  sent = λ q mem. begin-sent n m q v idle mem;
  heard = v.heard;
  number = v.number;
  agree = begin-Agree n m v idle;
}

-- A message that the server processes is the one in `transmit`.
next-own :
    (n : Network) (m : Packet)
    → Valid n
    → Memᴰ m n.client.sent
    → is_next m n.server ≡ true
    → (n.waiting ≡ true)
      × (m ≡ n.client.message)
      × (n.server.messagecount ≡ n.client.messageid)
      × (n.processed ≡ n.completed)
next-own n m v mem new =
    let id : m.message_id ≡ n.server.messagecount = ground arith in
    elim (v.sent m mem) [
      | inl low ↦ absurd (elim v.agree [
        | inl (count, same) ↦ omega arith
        | inr (waiting, count, same) ↦ omega arith
      ])
      | inr (waiting, own) ↦
          let number = v.own waiting in
          let id' : m.message_id ≡ n.client.message.message_id = ap (λ q. q.message_id) own in
          elim v.agree [
            | inl (count, same) ↦ (waiting, own, count, same)
            | inr (waiting', count, same) ↦ absurd (omega arith)
          ]
    ]

served-heard :
    (n : Network) (r q : Packet) (server : Server)
    → Valid n
    → n.server.messagecount ≤ server.messagecount
    → r.message_id ≡ server.messagecount % 256
    → Memᴰ q (r ∷ n.replies)
    → q.message_id ≤ server.messagecount
served-heard n r q server v grows id (head e) =
    let id' : q.message_id ≡ r.message_id = ap (λ q. q.message_id) e in omega arith
served-heard n r q server v grows id (tail old) = let low = v.heard q old in omega arith

served-Valid :
    (n : Network) (m r : Packet) (server : Server)
    → Valid n
    → n.server.messagecount ≤ server.messagecount
    → r.message_id ≡ server.messagecount % 256
    → Agree (served m r server n)
    → Valid (served m r server n)
served-Valid n m r server v grows id agree = record {
  bound = v.bound;
  own = v.own;
  sent = v.sent;
  heard = λ q mem. served-heard n r q server v grows id mem;
  number = v.number;
  agree = agree;
}

served_new :
    (n : Network) (m r : Packet) (server : Server)
    → Valid n
    → Memᴰ m n.client.sent
    → is_next m n.server ≡ true
    → server.messagecount ≡ (n.server.messagecount + 1) % 255
    → Agree (served m r server n)
served_new n m r server v mem new count =
    let (waiting, own, before, same) = next-own n m v mem new in
    rw new (
      inr (
        waiting,
        omega (arith, count, before, v.bound),
        ap (λ q. q ∷ n.processed) own ∙ ap (λ ps. n.client.message ∷ ps) same,
      ))

pub serve-Valid :
    (n : Network) (m r : Packet) (server : Server)
    → Valid n
    → Memᴰ m n.client.sent
    → receive m n.server ≡ some (r, server)
    → Valid (served m r server n)
serve-Valid n m r server v mem run =
    let id = receive-id m n.server r server run in
    let low = count_bound n v in
    elim (receive-some m n.server r server run) [
      | inl (old, same) ↦
          let count : server.messagecount ≡ n.server.messagecount = ap (λ t. t.messagecount) same in
          served-Valid n m r server v (omega arith) id (rw (old, count) v.agree)
      | inr (new, count) ↦
          served-Valid n m r server v (omega arith) id (served_new n m r server v mem new count)
    ]
