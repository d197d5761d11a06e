-- ===== src/InodeTable/Disk.antt =====
-- What inode.c puts on the device for an inode, and how it is opened and closed.
use cs162hwproj.Prelude.{
  ℕ, ◌+◌, ◌-◌, ◌<◌, ◌^◌, ◌≡◌, refl, ap, Bool, true, false, some, List, [], ◌∷◌, arith, ◌==◌, ◌>>=◌,
  Bool-cases, Option-cases, eq_of_some, inl, inr,
}
use cs162hwproj.Device.{block_read-some, IsDevice}
use cs162hwproj.Inode.{InodeDisk, Inode}
use cs162hwproj.InodeTable.{
  FileSystem, encode_disk, decode_disk, find_inode, change_inode, drop_inode, inode_open,
  inode_reopen, inode_close,
}

-- What `inode_create` writes for an inode is what `inode_open` reads back, for members of 32 bits.
pub decode_disk-encode_disk :
    (d : InodeDisk)
    → d.start < 2 ^ 32
    → d.length < 2 ^ 32
    → d.magic < 2 ^ 32
    → decode_disk (encode_disk d) ≡ d
unfolding decode_disk encode_disk
decode_disk-encode_disk d p q r = ground arith

-- One more opener of an inode, and one less.
abbrev more_open : Inode → Inode
more_open i = record i { open_cnt = i.open_cnt + 1 }

abbrev less_open : Inode → Inode
less_open i = record i { open_cnt = i.open_cnt - 1 }

find_inode-change_inode :
    (is : List Inode) (sector : ℕ) {i : Inode}
    → find_inode is sector ≡ some i
    → find_inode (change_inode sector more_open is) sector ≡ some (more_open i)
unfolding find_inode change_inode
find_inode-change_inode [] sector e = cc
find_inode-change_inode (j ∷ is) sector e = elim (Bool-cases (j.sector == sector)) [
  | inl y ↦ rw (y, find_inode, y) (let f = rw y at e in ap (λ o. some (more_open o)) (eq_of_some f))
  | inr n ↦ rw (n, find_inode, n) (find_inode-change_inode is sector (rw n at e))
]

change_inode_back :
    (is : List Inode) (sector : ℕ)
    → change_inode sector less_open (change_inode sector more_open is) ≡ is
unfolding change_inode
change_inode_back [] sector = refl
change_inode_back (j ∷ is) sector = elim (Bool-cases (j.sector == sector)) [
  | inl y ↦
      rw (y, change_inode, y)
        (let e : j.open_cnt + 1 - 1 ≡ j.open_cnt = omega arith in
          ap (λ n. record j { open_cnt = n } ∷ is) e)
  | inr n ↦ rw (n, change_inode, n) (ap (λ t. j ∷ t) (change_inode_back is sector))
]

-- `inode_open` of a sector of the device, with memory for the inode, and then `inode_close` of what it
-- returns: if every open inode of that sector has an opener, neither fails an assertion, and the list of
-- open inodes, the free map and the device are as they were before, whether the inode was open or not.
pub inode_close-inode_open :
    (bounce : Bool) (sector : ℕ) (fs : FileSystem)
    → IsDevice fs.dev
    → sector < fs.dev.size
    → ((i : Inode) → find_inode fs.open_inodes sector ≡ some i → 0 < i.open_cnt)
    → (inode_open true sector fs >>= λ (handle, fs'). inode_close bounce handle fs') ≡ some fs
unfolding inode_open inode_close
inode_close-inode_open bounce sector fs dev inside opened =
    elim (Option-cases (find_inode fs.open_inodes sector)) [
      | inl new ↦
          let same : (sector == sector) ≡ true = ground arith in
          rw
            (
              new,
              inode_open,
              block_read-some dev sector inside,
              inode_close,
              find_inode,
              same,
              drop_inode,
              same,
            )
            refl
      | inr (i, old) ↦
          let p = opened i old in
          let still : (i.open_cnt + 1 - 1 == 0) ≡ false = ground arith in
          rw
            (
              old,
              inode_open,
              inode_reopen,
              inode_close,
              find_inode-change_inode fs.open_inodes sector old,
              still,
              change_inode_back fs.open_inodes sector,
            )
            refl
    ]
