-- ===== src/Mfs/Exchange.antt =====
-- Runs of a client and the server of p5/MFS.
use mathlib.Core.List.{Memᴰ}
use mathlib.Core.List.Memᴰ.{head, tail, not-nil}
use bacon_eggs.Prelude.{
  suc, ◌+◌, ◌≤◌, ◌<◌, ◌≡◌, refl, sym, ap, ◌∙◌, Bool, true, false, Option, none, some, List, ◌∷◌,
  length, ◌⊎◌, inl, inr, arith, Bool-cases,
}
use bacon_eggs.Mfs.Commands.{Packet}
use bacon_eggs.Mfs.Transmit.{clear, is_ack, next_id, transmit_round}
use bacon_eggs.Mfs.Agreement.{Valid, begin-Valid, serve-Valid}
use bacon_eggs.Mfs.Network.{
  Network, Arrives, rounded, Step, begin_step, serve_step, round_step, Run, start, next, Start,
}

-- A message that was sent, or the one in `transmit`.
sent-known :
    (n : Network) (q : Packet)
    → Valid n
    → n.waiting ≡ true
    → Memᴰ q (n.client.message ∷ n.client.sent)
    → (q.message_id < n.client.messageid) ⊎ ((true ≡ true) × (q ≡ n.client.message))
sent-known n q v waiting (head e) = inr (refl, e)
sent-known n q v waiting (tail old) = elim (v.sent q old) [
  | inl low ↦ inl low
  | inr (w, same) ↦ inr (refl, same)
]

-- A round without an answer: the client's response and what it has sent can change.
quiet-Valid :
    (n : Network) (r : Packet) (sent : List Packet)
    → Valid n
    → n.waiting ≡ true
    → ((q : Packet) → Memᴰ q sent → Memᴰ q (n.client.message ∷ n.client.sent))
    → Valid (record n { client = record n.client { response = r; sent = sent }; waiting = true })
quiet-Valid n r sent v waiting known = record {
  bound = v.bound;
  own = λ w. v.own waiting;
  sent = λ q mem. sent-known n q v waiting (known q mem);
  heard = v.heard;
  number = v.number;
  agree = elim v.agree [ inl same ↦ inl same | inr (w, count, same) ↦ inr (refl, count, same) ];
}

-- A round with an answer.
ack-Valid :
    (n : Network) (r : Packet)
    → Valid n
    → n.waiting ≡ true
    → Memᴰ r n.replies
    → is_ack (some r) n.client ≡ true
    → Valid (record n {
      client = record n.client { response = r; messageid = next_id n.client };
      waiting = false;
      completed = n.client.message ∷ n.completed;
    })
ack-Valid n r v waiting mem ack =
    let small : r.message_id < 128 = ground arith in
    let id : r.message_id ≡ next_id n.client = ground arith in
    let heard = v.heard r mem in
    let next : next_id n.client ≡ n.client.messageid + 1 = omega (arith, v.bound) in
    record {
      bound = omega arith;
      own = λ w. absurd (ground arith);
      sent = λ q mem. inl (elim (v.sent q mem) [
        | inl low ↦ omega arith
        | inr (w, same) ↦
            let number = v.own w in
            let id' : q.message_id ≡ n.client.message.message_id = ap (λ p. p.message_id) same in
            omega arith
      ]);
      heard = v.heard;
      number = ap suc v.number ∙ omega arith;
      agree = elim v.agree [
        | inl (count, same) ↦ absurd (omega arith)
        | inr (w, count, same) ↦ inl (omega arith, same)
      ];
    }

round-Valid :
    (n : Network) (d : Option Packet) (l : Bool)
    → Valid n
    → n.waiting ≡ true
    → Arrives d n.replies
    → Valid (rounded (record { datagram = d; late = l }) n)
unfolding transmit_round
round-Valid n none true v waiting arrives =
    quiet-Valid n clear (n.client.message ∷ n.client.sent) v waiting λ q mem. mem
round-Valid n none false v waiting arrives =
    quiet-Valid n n.client.response n.client.sent v waiting λ q mem. tail mem
round-Valid n (some r) true v waiting arrives = elim (Bool-cases (is_ack (some r) n.client)) [
  | inl ack ↦ rw ack (ack-Valid n r v waiting arrives ack)
  | inr quiet ↦
      rw quiet (quiet-Valid n clear (n.client.message ∷ n.client.sent) v waiting λ q mem. mem)
]
round-Valid n (some r) false v waiting arrives = elim (Bool-cases (is_ack (some r) n.client)) [
  | inl ack ↦ rw ack (ack-Valid n r v waiting arrives ack)
  | inr quiet ↦ rw quiet (quiet-Valid n r n.client.sent v waiting λ q mem. tail mem)
]

step-Valid : {n m : Network} → Valid n → Step n m → Valid m
step-Valid v (begin_step m idle key id runs) = begin-Valid _ m v idle id
step-Valid v (serve_step m r server mem run) = serve-Valid _ m r server v mem run
step-Valid v (round_step e waiting arrives) = round-Valid _ e.datagram e.late v waiting arrives

pub Run-Valid : {n m : Network} → Valid n → Run n m → Valid m
Run-Valid v start = v
Run-Valid v (next run step) = step-Valid (Run-Valid v run) step

Start-Valid : (n : Network) → Start n → Valid n
Start-Valid n s = record {
  bound = omega (arith, s.first);
  own = λ w. absurd (ground (arith, s.idle));
  sent = λ q mem. absurd (not-nil (rw s.quiet at mem));
  heard = λ r mem. absurd (not-nil (rw s.silent at mem));
  number = ap length s.uncompleted ∙ sym s.first;
  agree = inl (s.count ∙ sym s.first, s.unprocessed ∙ sym s.uncompleted);
}

-- However the network loses, repeats and reorders messages, from a start on and without a call of
-- `MFS_Shutdown`: the server has processed the messages of the calls that the client has completed,
-- each once and in their order, and besides them at most the one that the client waits for; and at
-- most 127 calls complete.
pub exactly_once :
    (n m : Network)
    → Start n
    → Run n m
    → ((m.processed ≡ m.completed)
        ⊎ ((m.waiting ≡ true) × (m.processed ≡ m.client.message ∷ m.completed)))
      × (length m.completed ≤ 127)
exactly_once n m s run =
    let v = Run-Valid (Start-Valid n s) run in
    (
      elim v.agree [
        | inl (count, same) ↦ inl same
        | inr (waiting, count, same) ↦ inr (waiting, same)
      ],
      omega (arith, v.bound, v.number),
    )
