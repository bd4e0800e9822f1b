-- ===== src/Mfs/LostAnswer.antt =====
-- MFS_Lookup of p5/MFS/mfs.c when the server's answer is lost.
use bacon_eggs.Prelude.{
  ℕ, ◌+◌, ◌%◌, ◌≤◌, ◌≡◌, refl, ◌∙◌, ◌∷◌, List, [], inl, inr, true, false, none, some, arith,
  ltb-false, ltb, if◌then◌else◌,
}
use bacon_eggs.Prelude.Int.{pos, minus_one}
use bacon_eggs.Mfs.Disk.{Bytes}
use bacon_eggs.Mfs.State.{Server}
use bacon_eggs.Mfs.Names.{string_length}
use bacon_eggs.Mfs.Commands.{Packet, char_int, int_char, receive, is_next}
use bacon_eggs.Mfs.Replay.{plain_answer, receive_twice, receive-some}
use bacon_eggs.Mfs.Transmit.{
  Client, Event, start_round, transmit_loop, transmit_round, is_ack, next_id,
}
use bacon_eggs.Mfs.Client.{labelled, with_name, is_percent, transact, mfs_lookup}
use bacon_eggs.Mfs.EndToEnd.{arrival, transmit_loop-arrival, answered-some, not_both}

-- A round of `transmit` without a packet, and the time is over.
abbrev pub timeout : Event
timeout = record { datagram = none; late = true }

-- The client that has sent `m` twice and has taken the answer `r`.
abbrev pub accepted_late : (m r : Packet) → Client → Client
accepted_late m r c = record {
  message = m;
  response = r;
  messageid = next_id c;
  sent = m ∷ m ∷ c.sent;
}

abbrev pub lookup_message : ℕ → Bytes → Client → Packet
lookup_message i name c = record (with_name name (labelled 1 c)) { cmd_int1 = int_char (pos i) }

transmit_loop-timeout :
    (es : List Event) (c : Client)
    → transmit_loop (timeout ∷ es) c ≡ transmit_loop es (start_round c)
unfolding transmit_loop transmit_round
transmit_loop-timeout es c = refl

transact-late :
    (m r : Packet) (c : Client)
    → is_ack (some r) c ≡ true
    → transact m (timeout ∷ arrival r ∷ []) c
      ≡ some (if ltb r.cmd_int2 128 then some r else none, accepted_late m r c, [])
transact-late m r c ack =
    let begun = start_round (record c { message = m }) in
    rw
      (
        transact,
        transmit_loop-timeout (arrival r ∷ []) begun,
        transmit_loop-arrival r [] (start_round begun) ack,
      )
      refl

mfs_lookup-late :
    (i : ℕ) (name : Bytes) (r : Packet) (c : Client)
    → string_length name 0 61 ≤ 60
    → is_percent name 0 (string_length name 0 61) ≡ false
    → is_ack (some r) c ≡ true
    → r.cmd_int2 ≡ 0
    → mfs_lookup (pos i) (some name) (timeout ∷ arrival r ∷ []) c
      ≡ some (pos 0, accepted_late (lookup_message i name c) r c, [])
unfolding mfs_lookup
mfs_lookup-late i name r c short plain ack value =
    let fits : ltb 60 (string_length name 0 61) ≡ false = ltb-false 60 _ short in
    rw (fits, plain)
      (answered-some minus_one (λ q. char_int q.cmd_int2) (transact (lookup_message i name c))
          (timeout ∷ arrival r ∷ []) [] c (accepted_late (lookup_message i name c) r c) r
          (transact-late (lookup_message i name c) r c ack ∙ rw value refl)
        ∙ rw value refl)

-- A client and a server that agree on the number of the next message, at most 126, a name of at most 60
-- bytes without `%`, and a server that processes the message of `MFS_Lookup` with some answer: when
-- the client does not get it, and sends the message again, the server's second answer changes nothing
-- there and is taken, and `MFS_Lookup` returns 0, the number of the root, whatever it looked for.
pub lookup-lost :
    (s t : Server) (c : Client) (i : ℕ) (name : Bytes) (r : Packet)
    → string_length name 0 61 ≤ 60
    → is_percent name 0 (string_length name 0 61) ≡ false
    → c.messageid ≡ s.messagecount
    → s.messagecount ≤ 126
    → receive (lookup_message i name c) s ≡ some (r, t)
    → (receive (lookup_message i name c) t ≡ some (plain_answer (lookup_message i name c) t, t))
      × (mfs_lookup
            (pos i)
            (some name)
            (timeout ∷ arrival (plain_answer (lookup_message i name c) t) ∷ [])
            c
          ≡ some (
            pos 0,
            accepted_late (lookup_message i name c) (plain_answer (lookup_message i name c) t) c,
            [],
          ))
lookup-lost s t c i name r short plain ids low run =
    let m = lookup_message i name c in
    let new : is_next m s ≡ true = ground (arith, ids, low) in
    let count : t.messagecount ≡ (s.messagecount + 1) % 255 = elim (receive-some m s r t run) [
      | inl (old, same) ↦ absurd (not_both _ new old)
      | inr (next, count) ↦ count
    ] in
    (
      receive_twice m s r t run,
      mfs_lookup-late i name (plain_answer m t) c short plain (ground (arith, ids, low, count))
          refl,
    )
