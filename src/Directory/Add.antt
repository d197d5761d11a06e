-- ===== src/Directory/Add.antt =====
-- Adding an entry to a directory of directory.c, and finding it.
use cs162hwproj.Prelude.{
  ℕ, ◌+◌, ◌-◌, ◌*◌, ◌<◌, ◌≤◌, ◌^◌, ◌≡◌, ◌≢◌, refl, ◌⊎◌, ap, ◌∙◌, Bool, true, false, ◌||◌, inl, inr,
  Option, some, List, arith, min, ltb, ◌==◌, if◌then◌else◌, Bool-cases, Option-cases, length, ◌>>=◌,
}
use cs162hwproj.Prelude.Returns
use cs162hwproj.Prelude.Returns.{Returns, returns}
use cs162hwproj.Device.{Block}
use cs162hwproj.Inode.{InodeDisk, Inode, inode_length}
use cs162hwproj.Inode.Bytes.{IsMapped}
use cs162hwproj.Inode.Write.{Written, write_at-Written}
use cs162hwproj.InodeTable.{FileSystem, find_inode}
use cs162hwproj.Directory.{
  DirEntry, Dir, in_use, inode_sector, matches, fill_entry, write_entry, lookup, dir_add,
}
use cs162hwproj.Directory.Slots.{
  slot, slot_written, slot_kept, slot_unwritten, length-fill_entry, in_use-fill_entry,
  inode_sector-fill_entry, same_name-fill_entry,
}
use cs162hwproj.Directory.Lookup.{Looked, Freed, lookup-Looked, free_loop-Freed}

module _ (dev : Block) (d : InodeDisk) (n : ℕ) (name : List ℕ) (sector : ℕ) (dev' : Block) where
  -- One free entry has become the new one; no entry had the name before.
  pub record Added : Type 0 where
    pub index : ℕ
    pub inside : index < n
    pub was_free : in_use (slot dev d index) ≡ false
    pub found : matches name (slot dev' d index) ≡ true
    pub sector_ : inode_sector (slot dev' d index) ≡ sector
    pub kept : (j : ℕ) → j < n → j ≢ index → slot dev' d j ≡ slot dev d j
    pub fresh : (j : ℕ) → j < n → matches name (slot dev d j) ≡ false

  -- Nothing has changed: the name is not valid, it is there already, or the directory is full.
  pub record Refused : Type 0 where
    pub kept : (j : ℕ) → j < n → slot dev' d j ≡ slot dev d j
    pub reason :
        ((length name ≡ 0) ⊎ (14 < length name))
        ⊎ (((j : ℕ) × (j < n) × (matches name (slot dev d j) ≡ true))
            ⊎ ((j : ℕ) → j < n → in_use (slot dev d j) ≡ true))

-- The file system behind a call that writes the directory `d`; the inodes and the free map stay.
pub record Entered (fs : FileSystem) (d : InodeDisk) (n : ℕ) (name : List ℕ) (sector : ℕ)
    (result : Bool × FileSystem) : Type 0 where
  pub mapped : IsMapped result.1.dev d
  pub same : result.1 ≡ record fs { dev = result.1.dev }
  pub outcome :
      if result.0
      then Added fs.dev d n name sector result.1.dev
      else Refused fs.dev d n name sector result.1.dev

module _ (dir : Dir) (name : List ℕ) (sector : ℕ) (fs : FileSystem) (n : ℕ) {i : Inode}
    (o : find_inode fs.open_inodes dir.inode ≡ some i) (m : IsMapped fs.dev i.disk)
    (l : inode_length i.disk ≡ 20 * n) (w : i.deny_write_cnt ≡ 0) (small : sector < 2 ^ 32) where
  refused :
      ((length name ≡ 0) ⊎ (14 < length name))
        ⊎ (((j : ℕ) × (j < n) × (matches name (slot fs.dev i.disk j) ≡ true))
            ⊎ ((j : ℕ) → j < n → in_use (slot fs.dev i.disk j) ≡ true))
      → Entered fs i.disk n name sector (false, fs)
  refused r = record {
    mapped = m;
    same = refl;
    outcome = record { kept = λ j p. refl; reason = r };
  }

  entered :
      (found : DirEntry × ℕ)
      → Freed fs.dev i.disk n found
      → length name ≤ 14
      → ((j : ℕ) → j < n → matches name (slot fs.dev i.disk j) ≡ false)
      → Returns
          (Entered fs i.disk n name sector)
          (write_entry true dir (fill_entry name sector found.0) found.1 fs)
  unfolding write_entry
  entered (e, ofs) f short fresh =
      let len = length-fill_entry name sector e f.whole short in
      let r = write_at-Written i (fill_entry name sector e) 20 ofs m (omega arith) w in
      rw o (
        Returns.bind r λ (c, dev') (count, written). returns (elim f.free [
          | inl (p, was) ↦
              let size : min 20 (inode_length i.disk - ofs) ≡ 20 = let q = f.place in omega arith in
              let one : (c == 20) ≡ true = ground arith in
              let place = f.place in
              let written' : Written fs.dev i.disk (20 * f.index) 20 (fill_entry name sector e)
                  dev' =
                rw (size, place) at written in
              let there : slot dev' i.disk f.index ≡ fill_entry name sector e =
                slot_written n l written' p len in
              let used = in_use-fill_entry name sector e f.whole short in
              let called = same_name-fill_entry name sector e f.whole short in
              rw one (record {
                mapped = written.mapped;
                same = refl;
                outcome = record {
                  index = f.index;
                  inside = p;
                  was_free = was;
                  found = rw there (ground arith);
                  sector_ = rw there (inode_sector-fill_entry name sector e f.whole short small);
                  kept = slot_kept n l written';
                  fresh = fresh;
                };
              })
          | inr (p, full) ↦
              let size : min 20 (inode_length i.disk - ofs) ≡ 0 = let q = f.place in omega arith in
              let none_ : (c == 20) ≡ false = ground arith in
              let written' : Written fs.dev i.disk ofs 0 (fill_entry name sector e) dev' =
                rw size at written in
              rw none_ (record {
                mapped = written.mapped;
                same = refl;
                outcome = record { kept = slot_unwritten n l written'; reason = inr (inr full) };
              })
        ]))

-- `dir_add`, in an open directory of `n` entries whose sectors lie on the device, which is not denied writes, and
-- with memory for the bounce buffer, ends without a failure and leaves the free map and the list of open inodes
-- as they were. If it returns true, one entry that was free has the name and the sector, every other entry is
-- as it was, and no entry in use had the name before; if it returns false, no entry has changed, and the name is empty or
-- longer than 14 characters, or an entry in use has it, or all entries are in use.
pub dir_add-Entered :
    (dir : Dir) (name : List ℕ) (sector : ℕ) (fs : FileSystem) (n : ℕ) (garbage : DirEntry)
    {i : Inode}
    → find_inode fs.open_inodes dir.inode ≡ some i
    → IsMapped fs.dev i.disk
    → inode_length i.disk ≡ 20 * n
    → i.deny_write_cnt ≡ 0
    → sector < 2 ^ 32
    → length garbage ≡ 20
    → Returns (Entered fs i.disk n name sector) (dir_add true garbage dir name sector fs)
unfolding dir_add
dir_add-Entered dir name sector fs n garbage {i} o m l w small g =
    elim (Bool-cases ((length name == 0) || ltb 14 (length name))) [
      | inl y ↦ rw y (
          returns (
            refused dir name sector fs n o m l w small (
              inl (elim (Bool-cases (length name == 0)) [
                | inl z ↦ inl (ground arith)
                | inr z ↦ inr (ground arith)
              ]))))
      | inr y ↦
          let (found, e, h) = Returns.value (lookup-Looked dir name fs n o m l) in
          let opened : Returns (λ j. j ≡ i) (find_inode fs.open_inodes dir.inode) =
            rw o (returns refl) in
          rw (y, e)
            (elim (Option-cases found) [
              | inl z ↦ rw z (
                  Returns.bind opened λ j same_. rw same_ (
                    Returns.bind
                      (free_loop-Freed m n l (inode_length i.disk + 1) 0 0 garbage (omega arith)
                        (omega arith) (omega arith) g (λ j p. absurd (omega arith)))
                      λ place f.
                        entered dir name sector fs n o m l w small place f (ground arith)
                          (rw z at h)))
              | inr ((hit, ofs), z) ↦
                  let (k, p, q, r, s) = rw z at h in
                  rw z (
                    returns
                      (refused dir name sector fs n o m l w small (inr (inl (k, p, rw (r) at s)))))
            ])
    ]

-- An entry with the sector.
abbrev pub IsFound : ℕ → Option (DirEntry × ℕ) → Type 0
IsFound sector r = (e : DirEntry) × (ofs : ℕ) × (r ≡ some (e, ofs)) × (inode_sector e ≡ sector)

abbrev pub is_looked_up :
    (bounce : Bool)
    → (garbage : DirEntry) → Dir
    → List ℕ
    → ℕ
    → FileSystem
    → Option (Bool × Option (DirEntry × ℕ))
is_looked_up bounce garbage dir name sector fs = do
  (added, fs') ← dir_add bounce garbage dir name sector fs
  found ← lookup bounce dir name fs'
  some (added, found)

module _ (dir : Dir) (name : List ℕ) (sector : ℕ) (fs : FileSystem) (n : ℕ) {i : Inode}
    (o : find_inode fs.open_inodes dir.inode ≡ some i) (l : inode_length i.disk ≡ 20 * n) where
  opened_still :
      (added : Bool) (fs' : FileSystem)
      → Entered fs i.disk n name sector (added, fs')
      → find_inode fs'.open_inodes dir.inode ≡ some i
  opened_still added fs' en = ap (λ f. find_inode f.open_inodes dir.inode) en.same ∙ o

  Looked-IsFound :
      (fs' : FileSystem) (found : Option (DirEntry × ℕ))
      → Entered fs i.disk n name sector (true, fs')
      → Looked fs'.dev i.disk n name found
      → IsFound sector found
  Looked-IsFound fs' found en h =
      let a : Added fs.dev i.disk n name sector fs'.dev = en.outcome in
      elim (Option-cases found) [
        | inl z ↦
            let none_ = rw z at h in
            let r = none_ a.index a.inside in let q = a.found in absurd (ground arith)
        | inr ((hit, ofs), z) ↦
            let (k, p, q, r, s) = rw z at h in
            (
              hit,
              ofs,
              z,
              elim (Bool-cases (k == a.index)) [
                | inl y ↦ let g : k ≡ a.index = ground arith in rw (r, g) a.sector_
                | inr y ↦
                    let old = a.fresh k p in
                    let there : matches name (slot fs.dev i.disk k) ≡ true =
                      rw (r, a.kept k p (ground arith)) at s in
                    absurd (ground arith)
              ],
            )
      ]

  looked_up :
      (m : IsMapped fs.dev i.disk) (added : Bool) (fs' : FileSystem)
      → Entered fs i.disk n name sector (added, fs')
      → Returns
          (λ (added, found). if added then IsFound sector found else Unit)
          (lookup true dir name fs' >>= λ found. some (added, found))
  looked_up m true fs' en =
      Returns.bind (lookup-Looked dir name fs' n (opened_still true fs' en) en.mapped l)
        λ found h. returns (Looked-IsFound fs' found en h)
  looked_up m false fs' en =
      Returns.bind (lookup-Looked dir name fs' n (opened_still false fs' en) en.mapped l)
        λ found h. returns tt

-- `lookup` after `dir_add` of the same name, under the conditions of `dir_add-Entered`: neither fails, and if `dir_add` returned true, an
-- entry is found, with the sector that was given.
pub lookup-dir_add :
    (dir : Dir) (name : List ℕ) (sector : ℕ) (fs : FileSystem) (n : ℕ) (garbage : DirEntry)
    {i : Inode}
    → find_inode fs.open_inodes dir.inode ≡ some i
    → IsMapped fs.dev i.disk
    → inode_length i.disk ≡ 20 * n
    → i.deny_write_cnt ≡ 0
    → sector < 2 ^ 32
    → length garbage ≡ 20
    → Returns
        (λ (added, found). if added then IsFound sector found else Unit)
        (is_looked_up true garbage dir name sector fs)
lookup-dir_add dir name sector fs n garbage o m l w small g =
    Returns.bind (dir_add-Entered dir name sector fs n garbage o m l w small g)
      λ (added, fs') en. looked_up dir name sector fs n o l m added fs' en
