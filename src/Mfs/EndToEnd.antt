-- ===== src/Mfs/EndToEnd.antt =====
-- A call of the client of p5/MFS with the server's answer to it.
use bacon_eggs.Prelude.{
  ℕ, ◌+◌, ◌%◌, ◌^◌, ◌≤◌, ◌<◌, ◌≡◌, refl, ◌∙◌, ◌∷◌, List, [], inl, inr, Bool, true, false, Option,
  none, some, arith, ltb, if◌then◌else◌,
}
use bacon_eggs.Prelude.Int.{ℤ, pos, minus_one}
use bacon_eggs.Mfs.Disk.{Bytes, word_at}
use bacon_eggs.Mfs.State.{Server, Call, bind-some}
use bacon_eggs.Mfs.Files.{mfs_write_h, mfs_read_h}
use bacon_eggs.Mfs.FileAt.{InodeAt}
use bacon_eggs.Mfs.Commands.{
  Packet, char_int, int_char, no_text, message_data, answer, reply_to, processcommand, receive,
  is_next,
}
use bacon_eggs.Mfs.Replay.{receive-next, receive-some}
use bacon_eggs.Mfs.Reply.{receive-id}
use bacon_eggs.Mfs.WriteRead.{written, write_run, read_written}
use bacon_eggs.Mfs.Transmit.{
  Client, Event, start_round, transmit_loop, transmit_round, is_ack, next_id,
}
use bacon_eggs.Mfs.Client.{labelled, transact, answered, ClientCall, mfs_write, mfs_read}

-- A round of `transmit` in which a packet arrives.
abbrev pub arrival : Packet → Event
arrival r = record { datagram = some r; late = false }

-- The client that has sent `m` once and has taken the answer `r`.
abbrev pub accepted : (m r : Packet) → Client → Client
accepted m r c = record { message = m; response = r; messageid = next_id c; sent = m ∷ c.sent }

pub transmit_loop-arrival :
    (r : Packet) (es : List Event) (c : Client)
    → is_ack (some r) c ≡ true
    → transmit_loop (arrival r ∷ es) c ≡ some (record c { response = r; messageid = next_id c }, es)
unfolding transmit_loop transmit_round
transmit_loop-arrival r es c ack = rw ack refl

pub transact-arrival :
    (m r : Packet) (es : List Event) (c : Client)
    → is_ack (some r) c ≡ true
    → transact m (arrival r ∷ es) c
      ≡ some (if ltb r.cmd_int2 128 then some r else none, accepted m r c, es)
transact-arrival m r es c ack =
    rw (transact, transmit_loop-arrival r es (start_round (record c { message = m })) ack) refl

-- A small number in a `char`.
char_int-int_char : (n : ℕ) → n < 128 → char_int (int_char (pos n)) ≡ pos n
char_int-int_char n small =
    let whole : n % 256 ≡ n = omega arith in
    let positive : ltb n 128 ≡ true = ground arith in rw (whole, positive) refl

reply_to-some :
    (command : ℕ) (text : Server → Bytes) (handler : Call ℤ) (s : Server) {v : ℤ} {t : Server}
    → handler s ≡ some (v, t)
    → reply_to command text handler s ≡ some (answer command 0 (text t) v t, t)
reply_to-some command text handler s run = bind-some handler _ s run

-- The server that has taken one more message.
abbrev pub counted : Server → Server
counted s = record s { messagecount = (s.messagecount + 1) % 255 }

abbrev pub write_message : (n b : ℕ) → Bytes → Client → Packet
write_message n b buf c = record (labelled 3 c) {
  text = buf;
  cmd_int1 = int_char (pos n);
  cmd_int2 = int_char (pos b);
}

abbrev pub read_message : (n b : ℕ) → Client → Packet
read_message n b c = record (labelled 4 c) {
  cmd_int1 = int_char (pos n);
  cmd_int2 = int_char (pos b);
}

receive-write :
    (m : Packet) (s : Server) (n b : ℕ) {t : Server}
    → is_next m s ≡ true
    → m.command ≡ 3
    → m.cmd_int1 ≡ int_char (pos n)
    → m.cmd_int2 ≡ int_char (pos b)
    → n < 128
    → b < 128
    → mfs_write_h (pos n) (message_data m) (pos b) (counted s) ≡ some (pos 0, t)
    → receive m s ≡ some (answer 3 0 no_text (pos 0) t, t)
unfolding processcommand
receive-write m s n b new command int1 int2 small_n small_b run =
    receive-next m s new
    ∙ rw (command, int1, int2, char_int-int_char n small_n, char_int-int_char b small_b)
        (reply_to-some 3 (λ t. no_text) (mfs_write_h (pos n) (message_data m) (pos b)) (counted s)
          run)

receive-read :
    (m : Packet) (s : Server) (n b : ℕ) {t : Server}
    → is_next m s ≡ true
    → m.command ≡ 4
    → m.cmd_int1 ≡ int_char (pos n)
    → m.cmd_int2 ≡ int_char (pos b)
    → n < 128
    → b < 128
    → mfs_read_h (pos n) (pos b) (counted s) ≡ some (pos 0, t)
    → receive m s ≡ some (answer 4 0 t.rbuf (pos 0) t, t)
unfolding processcommand
receive-read m s n b new command int1 int2 small_n small_b run =
    receive-next m s new
    ∙ rw (command, int1, int2, char_int-int_char n small_n, char_int-int_char b small_b)
        (reply_to-some 4 (λ t. t.rbuf) (mfs_read_h (pos n) (pos b)) (counted s) run)

pub answered-some :
    {A : Type 0} (failure : A) (success : Packet → A) (m : ClientCall (Option Packet))
    (es es' : List Event) (c c' : Client) (r : Packet)
    → m es c ≡ some (some r, c', es')
    → answered failure success m es c ≡ some (success r, c', es')
answered-some failure success m es es' c c' r run = rw (answered, run) refl

mfs_write-answer :
    (n b : ℕ) (buf : Bytes) (r : Packet) (c : Client)
    → is_ack (some r) c ≡ true
    → r.cmd_int2 ≡ 0
    → mfs_write (pos n) (some buf) (pos b) (arrival r ∷ []) c
      ≡ some (pos 0, accepted (write_message n b buf c) r c, [])
unfolding mfs_write
mfs_write-answer n b buf r c ack value =
    answered-some minus_one (λ q. pos 0) (transact (write_message n b buf c)) (arrival r ∷ []) [] c
      (accepted (write_message n b buf c) r c) r
      (transact-arrival (write_message n b buf c) r [] c ack ∙ rw value refl)

mfs_read-answer :
    (n b : ℕ) (r : Packet) (c : Client)
    → is_ack (some r) c ≡ true
    → r.cmd_int2 ≡ 0
    → mfs_read (pos n) true (pos b) (arrival r ∷ []) c
      ≡ some (some r.text, accepted (read_message n b c) r c, [])
unfolding mfs_read
mfs_read-answer n b r c ack value =
    answered-some none (λ q. some q.text) (transact (read_message n b c)) (arrival r ∷ []) [] c
      (accepted (read_message n b c) r c) r
      (transact-arrival (read_message n b c) r [] c ack ∙ rw value refl)

pub not_both : (b : Bool) → b ≡ true → b ≡ false → ⊥
not_both b holds fails = ground arith

module _ (s : Server) (c : Client) (n : ℕ) {m p eol : ℕ} (b : ℕ) (buf : Bytes)
    (f : InodeAt s.disk n m p eol) (regular : word_at s.disk.bytes (p + 4) ≡ 1) (valid : b < 14)
    (fits : eol + 4096 < 2 ^ 31) (ids : c.messageid ≡ s.messagecount)
    (low : s.messagecount ≤ 125) where
  -- The server after the write, and its answer.
  abbrev after_write : Server
  after_write = written (counted s) p eol b (message_data (write_message n b buf c))

  abbrev write_reply : Packet
  write_reply = answer 3 0 no_text (pos 0) after_write

  abbrev client_between : Client
  client_between = accepted (write_message n b buf c) write_reply c

  write_received : receive (write_message n b buf c) s ≡ some (write_reply, after_write)
  write_received =
      receive-write (write_message n b buf c) s n b (ground (arith, ids, low)) refl refl refl
        (omega (arith, f.below)) (omega (arith, valid))
        (write_run (counted s) n b (message_data (write_message n b buf c)) f regular valid
          (omega (arith, fits)))

  write_acknowledged : is_ack (some write_reply) c ≡ true
  write_acknowledged = ground (arith, ids, low)

  read_new : is_next (read_message n b client_between) after_write ≡ true
  read_new = ground (arith, ids, low)

  -- The answer to the read has the number that the client expects.
  read_acknowledged :
      (q : Packet) (u : Server)
      → receive (read_message n b client_between) after_write ≡ some (q, u)
      → q.key ≡ b'k'
      → is_ack (some q) client_between ≡ true
  read_acknowledged q u run key =
      let id = receive-id (read_message n b client_between) after_write q u run in
      elim (receive-some (read_message n b client_between) after_write q u run) [
        | inl (old, same) ↦ absurd (not_both _ read_new old)
        | inr (new, count) ↦ ground (arith, ids, low)
      ]

  -- A client and a server that agree on the number of the next message, at most 125, and an image in
  -- which the inode `n`, below 16, stands in its place and is that of a regular file, with room for
  -- the log below 2^31: `MFS_Write` of a block below 14 and then `MFS_Read` of it, where the first message that
  -- arrives in each call is the server's answer to what the client has sent. Each call sends its
  -- message once, the write returns 0, and the read gives the 4096 bytes that were written.
  pub write-read_network :
      (r : Packet) × (t : Server) × (c' : Client) × (receive (write_message n b buf c) s
        ≡ some (r, t))
      × (mfs_write (pos n) (some buf) (pos b) (arrival r ∷ []) c ≡ some (pos 0, c', []))
      × (c'.sent ≡ write_message n b buf c ∷ c.sent)
      × ((q : Packet) × (u : Server) × (c'' : Client) × (text : Bytes) × (receive
              (read_message n b c')
              t
            ≡ some (q, u))
          × (mfs_read (pos n) true (pos b) (arrival q ∷ []) c' ≡ some (some text, c'', []))
          × (c''.sent ≡ read_message n b c' ∷ c'.sent)
          × ((a : ℕ) → a < 4096 → text a ≡ buf a))
  write-read_network =
      let (u, run, text) =
        read_written (counted s) n b (message_data (write_message n b buf c)) f regular valid
          (omega (arith, fits)) ((after_write.messagecount + 1) % 255) in
      let q = answer 4 0 u.rbuf (pos 0) u in
      let served =
        receive-read (read_message n b client_between) after_write n b read_new refl refl refl
          (omega (arith, f.below)) (omega (arith, valid)) run in
      (
        write_reply,
        after_write,
        client_between,
        write_received,
        mfs_write-answer n b buf write_reply c write_acknowledged refl,
        refl,
        (
          q,
          u,
          accepted (read_message n b client_between) q client_between,
          u.rbuf,
          served,
          mfs_read-answer n b q client_between (read_acknowledged q u served refl) refl,
          refl,
          λ a small. text a small ∙ ground arith,
        ),
      )
