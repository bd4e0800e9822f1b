-- ===== src/Mfs/Commands.antt =====
-- `processcommand` and one message of `receiving` in p5/MFS/server.c. `char` is signed. The handlers
-- MFS_Init_h, MFS_Lookup_h and MFS_Shutdown_h send their replies themselves; each message has one.
use bacon_eggs.Prelude.{
  ℕ, zero, suc, ◌+◌, ◌-◌, ◌%◌, Bool, ◌&&◌, Option, none, some, ltb, ◌==◌, if◌then◌else◌,
}
use bacon_eggs.Prelude.Int.{ℤ, pos, negsuc, minus_one}
use bacon_eggs.Mfs.Disk.{Bytes, byte_of}
use bacon_eggs.Mfs.State.{int_word, Server, Call, ◌>>=◌, return, get}
use bacon_eggs.Mfs.Files.{mfs_lookup_h, mfs_stat_h, mfs_write_h, mfs_read_h}
use bacon_eggs.Mfs.Names.{mfs_creat_h}
use bacon_eggs.Mfs.Unlink.{mfs_unlink_h}

-- A buffer of 4107 bytes: `text` has the first 4096, the others are named.
pub record Packet : Type 0 where
  pub text : Bytes
  pub key : ℕ
  pub message_id : ℕ
  pub command : ℕ
  pub cmd_int1 : ℕ
  pub cmd_int2 : ℕ

-- A `char` as an `int`, and an `int` in a `char`.
abbrev pub char_int : ℕ → ℤ
char_int b = if ltb b 128 then pos b else negsuc (255 - b)

abbrev pub int_char : ℤ → ℕ
int_char n = int_word n % 256

abbrev pub no_text : Bytes
no_text a = 0

-- A reply; `reply` is cleared before.
abbrev pub answer : (command : ℕ) (int1 : ℕ) → Bytes → ℤ → Server → Packet
answer command int1 text retval s = record {
  text = text;
  key = b'k';
  message_id = s.messagecount % 256;
  command = command;
  cmd_int1 = int1;
  cmd_int2 = int_char retval;
}

abbrev pub reply_to : (command : ℕ) → (Server → Bytes) → Call ℤ → Call Packet
reply_to command text handler = do
  retval ← handler
  s ← get
  return (answer command 0 (text s) retval s)

-- `type`, then `size`.
abbrev pub stat_text : Server → Bytes
stat_text s a =
    if ltb a 4 then byte_of s.stat.0 a else (if ltb a 8 then byte_of s.stat.1 (a - 4) else 0)

-- `data`, a copy of the text with a zero behind it.
abbrev pub message_data : Packet → Bytes
message_data m a = if ltb a 4096 then m.text a else 0

unfoldable pub lookup_answer : Option ℕ → Server → Packet
lookup_answer none s = answer 1 255 no_text minus_one s
lookup_answer (some inum) s = answer 1 0 no_text (pos inum) s

unfoldable pub processcommand : ℕ → Packet → Call Packet
unfolding lookup_answer
processcommand zero m = do s ← get; return (answer m.command 0 no_text (pos 0) s)
processcommand (suc zero) m = do
  found ← mfs_lookup_h (char_int m.cmd_int1) (message_data m)
  s ← get
  return (lookup_answer found s)
processcommand (suc (suc zero)) m = reply_to 2 stat_text (mfs_stat_h (char_int m.cmd_int1))
processcommand (suc (suc (suc zero))) m =
    reply_to 3 (λ s. no_text)
      (mfs_write_h (char_int m.cmd_int1) (message_data m) (char_int m.cmd_int2))
processcommand (suc (suc (suc (suc zero)))) m =
    reply_to 4 (λ s. s.rbuf) (mfs_read_h (char_int m.cmd_int1) (char_int m.cmd_int2))
processcommand (suc (suc (suc (suc (suc zero))))) m =
    reply_to 5 (λ s. no_text)
      (mfs_creat_h (char_int m.cmd_int1) (char_int m.cmd_int2) (message_data m))
processcommand (suc (suc (suc (suc (suc (suc zero)))))) m =
    reply_to 6 (λ s. no_text) (mfs_unlink_h (char_int m.cmd_int1) m.text)
processcommand (suc (suc (suc (suc (suc (suc (suc zero))))))) m = do
  s ← get
  return (answer 7 0 no_text (pos 0) s)
processcommand (suc (suc (suc (suc (suc (suc (suc (suc n)))))))) m = do
  s ← get
  return (answer 255 0 no_text minus_one s)

-- `buffer[MESSAGE_ID] == messagecount`.
abbrev pub is_next : Packet → Server → Bool
is_next m s = m.key == b'k' && (ltb m.message_id 128 && m.message_id == s.messagecount)

-- One message: the reply, and whether the server exits after it.
unfoldable pub receive : Packet → Call Packet
receive m s =
    let accepted =
      processcommand m.command m (record s { messagecount = (s.messagecount + 1) % 255 }) in
    if is_next m s then accepted else some (answer m.command 0 no_text (pos 0) s, s)

abbrev pub stops : Packet → Server → Bool
stops m s = is_next m s && m.command == 7
