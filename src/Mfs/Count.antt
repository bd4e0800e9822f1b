-- ===== src/Mfs/Count.antt =====
-- processcommand of p5/MFS/server.c leaves `messagecount` alone.
pub mod Rules
mod Files
mod Names
use mathlib.Core.Path.{subst}
use bacon_eggs.Prelude.{
  ℕ, zero, suc, ◌+◌, ◌*◌, ◌/◌, ◌%◌, ◌^◌, ◌≤◌, ◌<◌, ◌≡◌, refl, ap, ◌∙◌, ◌≢◌, inl, inr, Bool, true,
  false, ◌&&◌, ◌||◌, not, Option, none, some, ltb, leb, ◌==◌, arith, Bool-cases, if◌then◌else◌,
}
use bacon_eggs.Prelude.Int.{ℤ, pos, negsuc, minus_one}
use bacon_eggs.Mfs.Disk.{Bytes, byte_of, read, word_at, read_int}
use bacon_eggs.Mfs.State.{
  minus_one_word, word_int, int_bytes, inode_words, Server, Call, ◌>>=◌, ◌>>◌, return,
}
use bacon_eggs.Mfs.Utils.{
  writeblock, readblock, free_inum, same_string, getinode, getinode_in, getinode_at, imap_position,
  slot_position, getentry, creatdirentry, creatdirentry_loop, nextinum,
}
use bacon_eggs.Mfs.Files.{
  lookup_entries, lookup_blocks, mfs_lookup_h, mfs_stat_h, write_block, write_file, mfs_write_h,
  read_file, mfs_read_h, valid_block,
}
use bacon_eggs.Mfs.Names.{
  new_inode, string_length, write_imap, write_inode, creat_inode, new_dir_block, creat_loop,
  creat_in, mfs_creat_h, valid_type,
}
use bacon_eggs.Mfs.Unlink.{remove_entry, unlink_found, unlink_entries, unlink_blocks, mfs_unlink_h}
use bacon_eggs.Mfs.Commands.{
  Packet, char_int, message_data, reply_to, processcommand, receive, is_next, answer,
}
use bacon_eggs.Mfs.Count.Rules.{
  Stays, Keeps, Keeps-bind, Stays-if, Keeps-if, Stays-option, Keeps-option, Keeps-bool,
  getinode_at-Keeps, getinode_in-Keeps, getinode-Keeps,
}
use bacon_eggs.Mfs.Count.Files.{
  lookup_entries-Keeps, lookup_blocks-Keeps, mfs_lookup_h-Keeps, mfs_stat_h-Keeps, write_file-Keeps,
  mfs_write_h-Keeps, read_file-Keeps, mfs_read_h-Keeps,
}
use bacon_eggs.Mfs.Count.Names.{
  creatdirentry_loop-Keeps, write_imap-Keeps, write_inode-Keeps, creat_inode-Keeps,
  new_dir_block-Keeps, Keeps-int, creat_loop-Keeps, mfs_creat_h-Keeps, unlink_found-Keeps,
  unlink_entries-Keeps, unlink_blocks-Keeps, mfs_unlink_h-Keeps,
}

reply_to-Keeps :
    (command : ℕ) (text : Server → Bytes) (handler : Call ℤ)
    → Keeps handler
    → Keeps (reply_to command text handler)
reply_to-Keeps command text handler keeps = Keeps-bind handler _ keeps λ retval t. refl

pub processcommand-Keeps : (command : ℕ) (m : Packet) → Keeps (processcommand command m)
unfolding processcommand
processcommand-Keeps zero m = λ s. refl
processcommand-Keeps (suc zero) m =
    Keeps-bind _ _ (mfs_lookup_h-Keeps (char_int m.cmd_int1) (message_data m)) λ found t. refl
processcommand-Keeps (suc (suc zero)) m =
    reply_to-Keeps 2 _ _ (mfs_stat_h-Keeps (char_int m.cmd_int1))
processcommand-Keeps (suc (suc (suc zero))) m =
    reply_to-Keeps 3 _ _
      (mfs_write_h-Keeps (char_int m.cmd_int1) (message_data m) (char_int m.cmd_int2))
processcommand-Keeps (suc (suc (suc (suc zero)))) m =
    reply_to-Keeps 4 _ _ (mfs_read_h-Keeps (char_int m.cmd_int1) (char_int m.cmd_int2))
processcommand-Keeps (suc (suc (suc (suc (suc zero))))) m =
    reply_to-Keeps 5 _ _
      (mfs_creat_h-Keeps (char_int m.cmd_int1) (char_int m.cmd_int2) (message_data m))
processcommand-Keeps (suc (suc (suc (suc (suc (suc zero)))))) m =
    reply_to-Keeps 6 _ _ (mfs_unlink_h-Keeps (char_int m.cmd_int1) m.text)
processcommand-Keeps (suc (suc (suc (suc (suc (suc (suc zero))))))) m = λ s. refl
processcommand-Keeps (suc (suc (suc (suc (suc (suc (suc (suc n)))))))) m = λ s. refl
