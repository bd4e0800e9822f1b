-- ===== src/Mfs/Replay.antt =====
-- Repeated messages and the message count of `receiving` in p5/MFS/server.c.
use bacon_eggs.Prelude.{
  ◌+◌, ◌%◌, ◌≤◌, ◌≡◌, refl, sym, ◌∙◌, ◌⊎◌, inl, inr, true, false, Option, none, some, List, [], ◌∷◌,
  arith, Bool-cases,
}
use bacon_eggs.Prelude.Int.{pos}
use bacon_eggs.Mfs.State.{Server}
use bacon_eggs.Mfs.Commands.{Packet, processcommand, receive, is_next, answer, no_text}
use bacon_eggs.Mfs.Count.Rules.{Stays}
use bacon_eggs.Mfs.Count.{processcommand-Keeps}

-- What the server answers when it does not process a message.
abbrev pub plain_answer : Packet → Server → Packet
plain_answer m s = answer m.command 0 no_text (pos 0) s

pub receive-old :
    (m : Packet) (s : Server) → is_next m s ≡ false → receive m s ≡ some (plain_answer m s, s)
unfolding receive
receive-old m s old = rw old refl

pub receive-next :
    (m : Packet) (s : Server)
    → is_next m s ≡ true
    → receive m s
      ≡ processcommand m.command m (record s { messagecount = (s.messagecount + 1) % 255 })
unfolding receive
receive-next m s next = rw next refl

-- What a message leaves: nothing new, or the next message count.
pub receive-some :
    (m : Packet) (s : Server) (r : Packet) (s' : Server)
    → receive m s ≡ some (r, s')
    → ((is_next m s ≡ false) × (s' ≡ s))
      ⊎ ((is_next m s ≡ true) × (s'.messagecount ≡ (s.messagecount + 1) % 255))
receive-some m s r s' e = elim (Bool-cases (is_next m s)) [
  | inl next ↦ inr (next, counted (processed next))
  | inr old ↦ inl (old, cc (receive-old m s old))
]
  where
    start : Server
    start = record s { messagecount = (s.messagecount + 1) % 255 }

    processed : is_next m s ≡ true → processcommand m.command m start ≡ some (r, s')
    processed next = sym (receive-next m s next) ∙ e

    counted :
        processcommand m.command m start ≡ some (r, s')
        → s'.messagecount ≡ (s.messagecount + 1) % 255
    counted run =
        let kept : Stays (processcommand m.command m start) ((s.messagecount + 1) % 255) =
          processcommand-Keeps m.command m start in
        rw run at kept

-- A message that the server gets a second time directly after the first is answered and changes
-- nothing, whether or not the server processed it the first time.
pub receive_twice :
    (m : Packet) (s : Server) (r : Packet) (s' : Server)
    → receive m s ≡ some (r, s')
    → receive m s' ≡ some (plain_answer m s', s')
receive_twice m s r s' e = receive-old m s' (seen (receive-some m s r s' e))
  where
    seen :
        ((is_next m s ≡ false) × (s' ≡ s))
          ⊎ ((is_next m s ≡ true) × (s'.messagecount ≡ (s.messagecount + 1) % 255))
        → is_next m s' ≡ false
    seen (inl (old, same)) = rw same old
    seen (inr (next, count)) = ground arith

-- The messages `ms`, one after the other.
unfoldable pub deliver : List Packet → Server → Option Server
deliver [] s = some s
deliver (m ∷ ms) s = elim (receive m s) [ none ↦ none | some (r, s') ↦ deliver ms s' ]

-- When the message count is 128 or more, no message is processed again: after any messages
-- the server is as before, image and count included.
pub deliver-stuck : (ms : List Packet) (s : Server) → 128 ≤ s.messagecount → deliver ms s ≡ some s
unfolding deliver
deliver-stuck [] s high = refl
deliver-stuck (m ∷ ms) s high =
    let old : is_next m s ≡ false = ground arith in
    rw (receive-old m s old, deliver) (deliver-stuck ms s high)
