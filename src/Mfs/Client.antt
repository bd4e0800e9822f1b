-- ===== src/Mfs/Client.antt =====
-- The calls MFS_* of p5/MFS/mfs.c, on the rounds that `transmit` is given.
use bacon_eggs.Prelude.{
  ℕ, zero, suc, ◌+◌, ◌%◌, Bool, true, false, ◌||◌, Option, none, some, List, ltb, ◌==◌,
  if◌then◌else◌,
}
use bacon_eggs.Prelude.Int.{ℤ, pos, negsuc, minus_one}
use bacon_eggs.Mfs.Disk.{Bytes, word_at, store}
use bacon_eggs.Mfs.Names.{string_length}
use bacon_eggs.Mfs.Commands.{Packet, char_int, int_char}
use bacon_eggs.Mfs.Transmit.{Client, Event, transmit}

-- A call on the rounds: no result when the rounds end first.
abbrev pub ClientCall : Type 0 → Type 0
ClientCall A = List Event → Client → Option (A × Client × List Event)

-- A pointer that can be NULL.
abbrev pub Pointer : Type 0
Pointer = Option Bytes

abbrev pub is_negative : ℤ → Bool
is_negative (pos n) = false
is_negative (negsuc n) = true

-- `name == NULL || strlen(name) > 60` is `none`.
abbrev pub valid_name : Pointer → Option Bytes
valid_name none = none
valid_name (some name) = if ltb 60 (string_length name 0 61) then none else some name

-- The message with its key, command and identifier.
abbrev pub labelled : (command : ℕ) → Client → Packet
labelled command c = record c.message {
  key = b'k';
  command = command;
  message_id = c.messageid % 256;
}

-- `memcpy(message, name, strlen(name)+1)`.
abbrev pub with_name : Bytes → Packet → Packet
with_name name m = record m { text = store m.text 0 (string_length name 0 61 + 1) name }

-- From the message on: `none` when the response's `CMD_INT2` is negative.
abbrev pub transact : Packet → ClientCall (Option Packet)
transact m es c = elim (transmit es (record c { message = m })) [
  | none ↦ none
  | some (c', es') ↦ some (if ltb c'.response.cmd_int2 128 then some c'.response else none, c', es')
]

-- The value of a call from what `transact` gives.
abbrev pub answered : {A : Type 0} → A → (Packet → A) → ClientCall (Option Packet) → ClientCall A
answered failure success m es c = elim (m es c) [
  | none ↦ none
  | some (none, c', es') ↦ some (failure, c', es')
  | some (some r, c', es') ↦ some (success r, c', es')
]

abbrev pub refused : {A : Type 0} → A → ClientCall A
refused failure es c = some (failure, c, es)

-- `socket` is `port >= 0`, a hostname, and the success of UDP_Open and UDP_FillSockAddr.
unfoldable pub mfs_init : (socket : Bool) → ClientCall ℤ
mfs_init false es c = refused minus_one es c
mfs_init true es c = answered (pos 0) (λ r. pos 0) (transact (labelled 0 c)) es c

unfoldable pub is_percent : Bytes → (i k : ℕ) → Bool
is_percent f i zero = false
is_percent f i (suc k) = f i == b'%' || is_percent f (suc i) k

-- `name` is the format of `sprintf`: with a `%` in it the call has no result.
unfoldable pub mfs_lookup : (pinum : ℤ) → Pointer → ClientCall ℤ
unfolding is_percent
mfs_lookup pinum name es c =
    if is_negative pinum then refused minus_one es c else elim (valid_name name) [
      | none ↦ refused minus_one es c
      | some text ↦
          if is_percent text 0 (string_length text 0 61)
          then none
          else answered minus_one (λ r. char_int r.cmd_int2)
              (transact (record (with_name text (labelled 1 c)) { cmd_int1 = int_char pinum })) es c
    ]

-- What `*m` gets: `type` and `size`.
unfoldable pub mfs_stat : (inum : ℤ) → (has_m : Bool) → ClientCall (Option (ℕ × ℕ))
mfs_stat inum has_m es c =
    if is_negative inum
    then refused none es c
    else if has_m
    then answered none (λ r. some (word_at r.text 0, word_at r.text 4))
        (transact (record (labelled 2 c) { cmd_int1 = int_char inum })) es c
    else refused none es c

unfoldable pub mfs_write : (inum : ℤ) → Pointer → (block : ℤ) → ClientCall ℤ
mfs_write inum none block es c = refused minus_one es c
mfs_write inum (some buffer) block es c =
    if is_negative inum || is_negative block
    then refused minus_one es c
    else answered minus_one (λ r. pos 0)
        (transact (record (labelled 3 c) {
          text = buffer;
          cmd_int1 = int_char inum;
          cmd_int2 = int_char block;
        }))
        es c

-- The 4096 bytes that `buffer` gets.
unfoldable pub mfs_read : (inum : ℤ) → (has_buffer : Bool) → (block : ℤ) → ClientCall (Option Bytes)
mfs_read inum false block es c = refused none es c
mfs_read inum true block es c =
    if is_negative inum || is_negative block
    then refused none es c
    else answered none (λ r. some r.text)
        (transact (record (labelled 4 c) { cmd_int1 = int_char inum; cmd_int2 = int_char block }))
        es c

unfoldable pub mfs_creat : (pinum type : ℤ) → Pointer → ClientCall ℤ
mfs_creat pinum type name es c =
    if is_negative pinum then refused minus_one es c else elim (valid_name name) [
      | none ↦ refused minus_one es c
      | some text ↦
          answered minus_one (λ r. pos 0)
            (transact (record (with_name text (labelled 5 c)) {
              cmd_int1 = int_char pinum;
              cmd_int2 = int_char type;
            }))
            es c
    ]

unfoldable pub mfs_unlink : (pinum : ℤ) → Pointer → ClientCall ℤ
mfs_unlink pinum name es c =
    if is_negative pinum then refused minus_one es c else elim (valid_name name) [
      | none ↦ refused minus_one es c
      | some text ↦
          answered minus_one (λ r. pos 0)
            (transact (record (with_name text (labelled 6 c)) { cmd_int1 = int_char pinum })) es c
    ]

-- The identifiers start again at 0, whatever the response.
abbrev pub restarted : {A : Type 0} → A × Client × List Event → A × Client × List Event
restarted (a, c, es) = (a, record c { messageid = 0 }, es)

unfoldable pub mfs_shutdown : ClientCall ℤ
mfs_shutdown es c = elim (answered minus_one (λ r. pos 0) (transact (labelled 7 c)) es c) [
  | none ↦ none
  | some end ↦ some (restarted end)
]
