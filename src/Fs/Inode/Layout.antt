-- ===== src/Fs/Inode/Layout.antt =====
-- The format of the file system on the disk (include/fs.h), read from the bytes of a block. A value
-- of several bytes has the lowest one first.
use base_exp.Base.{ℕ, zero, suc, ◌+◌, ◌*◌, ◌/◌, List, [], ◌∷◌, take, drop, get_or}
use base_exp.Fs.PathName.{dirsiz}

abbrev pub bsize : ℕ
bsize = 1024

abbrev pub ndirect : ℕ
ndirect = 11

abbrev pub nindirect : ℕ
nindirect = 256

abbrev pub ndindirect : ℕ
ndindirect = 256 * 256

abbrev pub fsmagic : ℕ
fsmagic = 0x10203040

abbrev pub ushort_at : List ℕ → ℕ → ℕ
ushort_at block off = get_or block off 0 + 256 * get_or block (off + 1) 0

abbrev pub uint_at : List ℕ → ℕ → ℕ
uint_at block off = ushort_at block off + 65536 * ushort_at block (off + 2)

pub record Superblock : Type 0 where
  pub magic : ℕ
  pub size : ℕ
  pub nblocks : ℕ
  pub ninodes : ℕ
  pub nlog : ℕ
  pub logstart : ℕ
  pub inodestart : ℕ
  pub bmapstart : ℕ

unfoldable pub super_of : List ℕ → Superblock
super_of block = record {
  magic = uint_at block 0;
  size = uint_at block 4;
  nblocks = uint_at block 8;
  ninodes = uint_at block 12;
  nlog = uint_at block 16;
  logstart = uint_at block 20;
  inodestart = uint_at block 24;
  bmapstart = uint_at block 28;
}

pub record Dinode : Type 0 where
  pub type : ℕ
  pub major : ℕ
  pub minor : ℕ
  pub nlink : ℕ
  pub size : ℕ
  pub addrs : List ℕ

-- Inodes per block, and the block of an inode.
abbrev pub ipb : ℕ
ipb = 16

abbrev pub iblock : ℕ → Superblock → ℕ
iblock i sb = i / ipb + sb.inodestart

unfoldable pub uints_at : List ℕ → (off n : ℕ) → List ℕ
uints_at block off zero = []
uints_at block off (suc n) = uint_at block off ∷ uints_at block (off + 4) n

-- Inode `n` of a block of them.
unfoldable pub dinode_of : ℕ → List ℕ → Dinode
unfolding uints_at
dinode_of n block = record {
  type = ushort_at block (64 * n);
  major = ushort_at block (64 * n + 2);
  minor = ushort_at block (64 * n + 4);
  nlink = ushort_at block (64 * n + 6);
  size = uint_at block (64 * n + 8);
  addrs = uints_at block (64 * n + 12) (ndirect + 2);
}

-- A directory entry: `inum`, then the name.
abbrev pub dirent_size : ℕ
dirent_size = 16

abbrev pub inum_of : List ℕ → ℕ
inum_of de = ushort_at de 0

abbrev pub name_of : List ℕ → List ℕ
name_of de = take dirsiz (drop 2 de)
