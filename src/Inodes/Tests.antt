-- ===== src/Inodes/Tests.antt =====
-- A dirty inode that is written into a cached block.
use operator_system.Common.{
  ℕ, ◌≡◌, refl, Bool, true, false, Option, none, some, ◌==◌, if◌then◌else◌,
}
use operator_system.Buffer.{Head, Cache, Outside, hash_fn, set_head, set_count, set_at}
use operator_system.Buffer.Cached.{
  is_for, wait_on_buffer, find_from, find_buffer, add_user, drop_user, look_up, get_hash_table,
  get_round, getblk, brelse, bread,
}
use operator_system.Inodes.{
  Tables, set_inode, wait_on_super, wait_on_inode, super_loop, get_super, lock_inode, unlock_inode,
  block_of_inode, put_dinode, write_inode, sync_inodes_from, sync_inodes, joined,
}

-- the head at 36 holds block 8 of device 0x301
abbrev cached : Head
cached = record {
  b_data = 0x200000;
  b_block_nr = 8;
  b_dev = 0x301;
  b_uptodate = true;
  b_dirt = false;
  b_count = 0;
  b_lock = false;
  b_wait = none;
  b_prev = 0;
  b_next = 0;
  b_prev_free = 36;
  b_next_free = 36;
}

-- inode 34 of device 0x301, whose maps take 2 and 3 blocks
abbrev tables : Tables ℕ
tables = record {
  inode_table = λ i. record {
    dinode = 7777;
    i_dev = 0x301;
    i_num = 34;
    i_lock = false;
    i_dirt = i == 5;
    i_pipe = false;
  };
  super_blk = λ i. record {
    s_imap_blocks = 2;
    s_zmap_blocks = 3;
    s_dev = if i == 1 then 0x301 else 0;
    s_lock = false;
  };
  dinodes = λ b k. 0;
  machine = 0;
}

abbrev cache : Cache (Tables ℕ)
cache = record {
  heads = λ p. cached;
  hash_table = λ k. if k == 163 then 36 else 0;
  free_list = 36;
  nr_buffers = 1;
  buffer_wait = none;
  others = tables;
}

abbrev still : Outside (Tables ℕ)
still = record {
  sleep_on = λ q s. s;
  wake_up = λ q s. s;
  rw_block = λ w p s. s;
  sync_inodes = λ s. none;
}

abbrev stored : Option (Cache (Tables ℕ)) → ℕ
stored none = 0
stored (some s) = s.others.dinodes 0x200000 1

abbrev still_dirty : Option (Cache (Tables ℕ)) → Bool
still_dirty none = true
still_dirty (some s) = (s.others.inode_table 5).i_dirt

sync_inodes-stores : stored (sync_inodes 12 (joined 1 12 still) cache) ≡ 7777
unfolding sync_inodes sync_inodes_from write_inode put_dinode block_of_inode unlock_inode lock_inode
    get_super super_loop wait_on_inode wait_on_super set_inode joined bread brelse getblk get_round
    get_hash_table look_up drop_user add_user find_buffer find_from wait_on_buffer is_for hash_fn
    set_head set_count set_at
sync_inodes-stores = refl

sync_inodes-cleans : still_dirty (sync_inodes 12 (joined 1 12 still) cache) ≡ false
unfolding sync_inodes sync_inodes_from write_inode put_dinode block_of_inode unlock_inode lock_inode
    get_super super_loop wait_on_inode wait_on_super set_inode joined bread brelse getblk get_round
    get_hash_table look_up drop_user add_user find_buffer find_from wait_on_buffer is_for hash_fn
    set_head set_count set_at
sync_inodes-cleans = refl
