-- ===== src/Inodes.antt =====
-- fs/inode.c and fs/super.c: the inodes and super blocks in memory, over the buffer cache.
mod Tests
use operator_system.Common.{
  ℕ, zero, suc, ◌+◌, ◌-◌, ◌*◌, ◌/◌, ◌%◌, ◌^◌, Bool, true, false, not, ◌&&◌, ◌||◌, Option, none,
  some, leb, ◌==◌, if◌then◌else◌,
}
use operator_system.Common.Word.{sub32}
use operator_system.Buffer.{Head, Cache, Waiting, on_inode, on_super, Outside, set_at, set_head}
use operator_system.Buffer.Cached.{bind, brelse, bread}

-- `MINODE`: the part that is a DINODE, by the bytes it has, and the fields that the code uses
pub record Minode : Type 0 where
  pub dinode : ℕ
  pub i_dev : ℕ
  pub i_num : ℕ
  pub i_lock : Bool
  pub i_dirt : Bool
  pub i_pipe : Bool

-- `SUPER_BLOCK`: the fields that the code uses
pub record SuperBlock : Type 0 where
  pub s_imap_blocks : ℕ
  pub s_zmap_blocks : ℕ
  pub s_dev : ℕ
  pub s_lock : Bool

-- INODE_TABLE and SUPER_BLK by their indices, the DINODEs in the blocks of the cache by the address
-- of the block and their place in it, and the rest of the machine
pub record Tables (V : Type 0) : Type 0 where
  pub inode_table : ℕ → Minode
  pub super_blk : ℕ → SuperBlock
  pub dinodes : ℕ → ℕ → ℕ
  pub machine : V

-- NR_INODE, NR_SUPER, INODES_PER_BLOCK
abbrev pub nr_inode : ℕ
nr_inode = 32

abbrev pub nr_super : ℕ
nr_super = 8

abbrev pub inodes_per_block : ℕ
inodes_per_block = 32

-- the block that holds an inode on its device; the quotient is unsigned, as sizeof is
unfoldable pub block_of_inode : SuperBlock → Minode → ℕ
block_of_inode sb n =
    (2 + sb.s_imap_blocks + sb.s_zmap_blocks + sub32 n.i_num 1 / inodes_per_block) % 2 ^ 32

module _ {V : Type 0} where
  abbrev pub inode_at : Cache (Tables V) → ℕ → Minode
  inode_at s i = s.others.inode_table i

  unfoldable pub set_inode : ℕ → Minode → Cache (Tables V) → Cache (Tables V)
  set_inode i n s = record s {
    others = record s.others { inode_table = set_at i n s.others.inode_table };
  }

  -- waitOnSuper and waitOnInode; the interrupt flag has no state
  unfoldable pub wait_on_super :
      (fuel : ℕ) → Outside (Tables V) → (sb : ℕ) → Cache (Tables V) → Option (Cache (Tables V))
  wait_on_super zero o sb s = none
  wait_on_super (suc fuel) o sb s =
      let again = wait_on_super fuel o sb (o.sleep_on (on_super sb) s) in
      if (s.others.super_blk sb).s_lock then again else some s

  unfoldable pub wait_on_inode :
      (fuel : ℕ) → Outside (Tables V) → (i : ℕ) → Cache (Tables V) → Option (Cache (Tables V))
  wait_on_inode zero o i s = none
  wait_on_inode (suc fuel) o i s =
      let again = wait_on_inode fuel o i (o.sleep_on (on_inode i) s) in
      if (inode_at s i).i_lock then again else some s

  -- the loop of getSuper from the super block `i` on
  unfoldable pub super_loop :
      (fuel : ℕ)
      → Outside (Tables V)
      → (dev i : ℕ) → Cache (Tables V)
      → Option (Option ℕ × Cache (Tables V))
  super_loop zero o dev i s = none
  super_loop (suc fuel) o dev i s =
      let next = super_loop fuel o dev (i + 1) s in
      let waited = bind (wait_on_super fuel o i s) (λ s₁.
        let again = super_loop fuel o dev 0 s₁ in
        if (s₁.others.super_blk i).s_dev == dev then some (some i, s₁) else again) in
      if leb nr_super i
      then some (none, s)
      else if (s.others.super_blk i).s_dev == dev
      then waited
      else next

  -- getSuper
  unfoldable pub get_super :
      (fuel : ℕ)
      → Outside (Tables V)
      → (dev : ℕ) → Cache (Tables V)
      → Option (Option ℕ × Cache (Tables V))
  get_super fuel o dev s = if dev == 0 then some (none, s) else super_loop fuel o dev 0 s

  -- lockInode
  unfoldable pub lock_inode :
      (fuel : ℕ) → Outside (Tables V) → (i : ℕ) → Cache (Tables V) → Option (Cache (Tables V))
  lock_inode fuel o i s =
      bind (wait_on_inode fuel o i s)
        (λ s₁. some (set_inode i (record (inode_at s₁ i) { i_lock = true }) s₁))

  -- unlockInode
  unfoldable pub unlock_inode : Outside (Tables V) → (i : ℕ) → Cache (Tables V) → Cache (Tables V)
  unlock_inode o i s =
      o.wake_up (on_inode i) (set_inode i (record (inode_at s i) { i_lock = false }) s)

  -- the inode into the block of the head `bh`, which is marked
  unfoldable pub put_dinode : (i bh : ℕ) → Cache (Tables V) → Cache (Tables V)
  put_dinode i bh s =
      let n = inode_at s i in
      let b = (s.heads bh).b_data in
      let place = sub32 n.i_num 1 % inodes_per_block in
      let s₁ = record s {
        others = record s.others {
          dinodes = set_at b (set_at place n.dinode (s.others.dinodes b)) s.others.dinodes;
        };
      } in
      set_inode i (record n { i_dirt = false })
        (set_head bh (record (s.heads bh) { b_dirt = true }) s₁)

  -- writeInode; `none` where it stops for ever
  unfoldable pub write_inode :
      (fuel : ℕ) → Outside (Tables V) → (i : ℕ) → Cache (Tables V) → Option (Cache (Tables V))
  write_inode fuel o i s = bind (lock_inode fuel o i s) (λ s₁.
      let n = inode_at s₁ i in
      if not n.i_dirt || (n.i_dev == 0)
      then some (unlock_inode o i s₁)
      else bind (get_super fuel o n.i_dev s₁) (λ (sb, s₂). elim sb [
        | none ↦ none
        | some k ↦
            bind
              (bread fuel o (inode_at s₂ i).i_dev
                (block_of_inode (s₂.others.super_blk k) (inode_at s₂ i)) s₂)
              (λ (bh, s₃).
                if bh == 0
                then none
                else bind (brelse fuel o bh (put_dinode i bh s₃))
                    (λ s₄. some (unlock_inode o i s₄)))
      ]))

  -- syncInodes over `n` inodes from `i` on
  unfoldable pub sync_inodes_from :
      (fuel n : ℕ) → Outside (Tables V) → (i : ℕ) → Cache (Tables V) → Option (Cache (Tables V))
  sync_inodes_from fuel zero o i s = some s
  sync_inodes_from fuel (suc n) o i s = bind (wait_on_inode fuel o i s) (λ s₁.
      bind
        (if (inode_at s₁ i).i_dirt && not (inode_at s₁ i).i_pipe
          then write_inode fuel o i s₁
          else some s₁)
        (λ s₂. sync_inodes_from fuel n o (i + 1) s₂))

  -- syncInodes
  unfoldable pub sync_inodes :
      (fuel : ℕ) → Outside (Tables V) → Cache (Tables V) → Option (Cache (Tables V))
  sync_inodes fuel o s = sync_inodes_from fuel nr_inode o 0 s

  -- The buffer cache with this syncInodes, which calls bread and so syncDev again, `depth` times.
  unfoldable pub joined : (depth fuel : ℕ) → Outside (Tables V) → Outside (Tables V)
  joined zero fuel o = record o { sync_inodes = λ s. none }
  joined (suc depth) fuel o = record o { sync_inodes = sync_inodes fuel (joined depth fuel o) }
