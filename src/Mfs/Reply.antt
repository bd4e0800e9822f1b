-- ===== src/Mfs/Reply.antt =====
-- The identifier in the replies of p5/MFS/server.c.
use bacon_eggs.Prelude.{ℕ, zero, suc, ◌+◌, ◌%◌, ◌≡◌, refl, Option, none, some, Bool-cases, inl, inr}
use bacon_eggs.Prelude.Int.{ℤ}
use bacon_eggs.Mfs.Disk.{Bytes}
use bacon_eggs.Mfs.State.{Server, Call, ◌>>=◌}
use bacon_eggs.Mfs.Files.{mfs_lookup_h, mfs_stat_h, mfs_write_h, mfs_read_h}
use bacon_eggs.Mfs.Names.{mfs_creat_h}
use bacon_eggs.Mfs.Unlink.{mfs_unlink_h}
use bacon_eggs.Mfs.Commands.{
  stat_text, no_text, Packet, char_int, message_data, lookup_answer, reply_to, processcommand,
  receive, is_next,
}
use bacon_eggs.Mfs.Replay.{receive-old, receive-next}

-- A reply, if there is one, has the message count of the state that it leaves.
abbrev pub Labelled : Option (Packet × Server) → Type 0
Labelled none = Unit {0}
Labelled (some (r, s)) = r.message_id ≡ s.messagecount % 256

Labelled-bind :
    {A : Type 0} (m : Call A) (f : A → Call Packet) (s : Server)
    → ((a : A) (t : Server) → Labelled (f a t))
    → Labelled ((m >>= f) s)
Labelled-bind {A} m f s labels = go (m s)
  where
    go :
        (o : Option (A × Server))
        → Labelled (elim o as (λ _. Option (Packet × Server)) [ none ↦ none | some (a, t) ↦ f a t ])
    go none = tt
    go (some (a, t)) = labels a t

reply_to-Labelled :
    (command : ℕ) (text : Server → Bytes) (handler : Call ℤ) (s : Server)
    → Labelled (reply_to command text handler s)
reply_to-Labelled command text handler s = Labelled-bind handler _ s λ retval t. refl

lookup_answer-Labelled :
    (found : Option ℕ) (s : Server) → Labelled (some (lookup_answer found s, s))
unfolding lookup_answer
lookup_answer-Labelled none s = refl
lookup_answer-Labelled (some inum) s = refl

processcommand-Labelled :
    (command : ℕ) (m : Packet) (s : Server) → Labelled (processcommand command m s)
unfolding processcommand
processcommand-Labelled zero m s = refl
processcommand-Labelled (suc zero) m s =
    Labelled-bind (mfs_lookup_h (char_int m.cmd_int1) (message_data m)) _ s lookup_answer-Labelled
processcommand-Labelled (suc (suc zero)) m s =
    reply_to-Labelled 2 stat_text (mfs_stat_h (char_int m.cmd_int1)) s
processcommand-Labelled (suc (suc (suc zero))) m s =
    reply_to-Labelled 3 (λ t. no_text)
      (mfs_write_h (char_int m.cmd_int1) (message_data m) (char_int m.cmd_int2)) s
processcommand-Labelled (suc (suc (suc (suc zero)))) m s =
    reply_to-Labelled 4 (λ t. t.rbuf) (mfs_read_h (char_int m.cmd_int1) (char_int m.cmd_int2)) s
processcommand-Labelled (suc (suc (suc (suc (suc zero))))) m s =
    reply_to-Labelled 5 (λ t. no_text)
      (mfs_creat_h (char_int m.cmd_int1) (char_int m.cmd_int2) (message_data m)) s
processcommand-Labelled (suc (suc (suc (suc (suc (suc zero)))))) m s =
    reply_to-Labelled 6 (λ t. no_text) (mfs_unlink_h (char_int m.cmd_int1) m.text) s
processcommand-Labelled (suc (suc (suc (suc (suc (suc (suc zero))))))) m s = refl
processcommand-Labelled (suc (suc (suc (suc (suc (suc (suc (suc n)))))))) m s = refl

receive-Labelled : (m : Packet) (s : Server) → Labelled (receive m s)
receive-Labelled m s = elim (Bool-cases (is_next m s)) [
  | inl next ↦
      rw (receive-next m s next) (
        processcommand-Labelled m.command m
          (record s { messagecount = (s.messagecount + 1) % 255 }))
  | inr old ↦ rw (receive-old m s old) refl
]

pub receive-id :
    (m : Packet) (s : Server) (r : Packet) (t : Server)
    → receive m s ≡ some (r, t)
    → r.message_id ≡ t.messagecount % 256
receive-id m s r t run =
    let label : Labelled (receive m s) = receive-Labelled m s in rw run at label
