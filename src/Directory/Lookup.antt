-- ===== src/Directory/Lookup.antt =====
-- The searches of directory.c over the entries of a directory.
use cs162hwproj.Prelude.{
  ℕ, zero, suc, ◌+◌, ◌-◌, ◌*◌, ◌<◌, ◌≤◌, ◌≡◌, refl, ◌⊎◌, true, false, inl, inr, Option, none, some,
  List, [], arith, min, ltb, ◌==◌, Bool-cases, length, ◌>>=◌,
}
use cs162hwproj.Prelude.Returns.{Returns, returns}
use cs162hwproj.Device.{Block}
use cs162hwproj.Inode.{InodeDisk, Inode, inode_length, read_at}
use cs162hwproj.Inode.Bytes.{bytes, length-bytes, IsMapped}
use cs162hwproj.Inode.Read.{read_at-bytes}
use cs162hwproj.InodeTable.{FileSystem, find_inode}
use cs162hwproj.Directory.{DirEntry, Dir, in_use, matches, lookup_loop, free_loop, lookup}
use cs162hwproj.Directory.Slots.{slot}

module _ (dev : Block) (d : InodeDisk) (n : ℕ) where
  -- What `lookup` returns in a directory of `n` entries: one in use with the name, or none as there is none.
  abbrev pub Looked : List ℕ → Option (DirEntry × ℕ) → Type 0
  Looked name none = (k : ℕ) → k < n → matches name (slot dev d k) ≡ false
  Looked name (some (e, ofs)) =
      (k : ℕ) × (k < n) × (ofs ≡ 20 * k) × (e ≡ slot dev d k) × (matches name e ≡ true)

  -- Where the search for a free entry stops: at one, or behind the last.
  pub record Freed (found : DirEntry × ℕ) : Type 0 where
    pub index : ℕ
    pub place : found.1 ≡ 20 * index
    pub whole : length found.0 ≡ 20
    pub free :
        ((index < n) × (in_use (slot dev d index) ≡ false))
        ⊎ ((index ≡ n) × ((k : ℕ) → k < n → in_use (slot dev d k) ≡ true))

module _ {dev : Block} {d : InodeDisk} (m : IsMapped dev d) (n : ℕ)
    (l : inode_length d ≡ 20 * n) where
  read_at-slot :
      (k ofs : ℕ) → ofs ≡ 20 * k → k < n → read_at true dev d 20 ofs ≡ some (slot dev d k)
  read_at-slot k ofs e p =
      let c : min 20 (inode_length d - 20 * k) ≡ 20 = omega arith in
      rw (e, read_at-bytes m 20 (20 * k), c) refl

  read_at-end : (k ofs : ℕ) → ofs ≡ 20 * k → n ≤ k → read_at true dev d 20 ofs ≡ some []
  unfolding bytes
  read_at-end k ofs e p =
      let c : min 20 (inode_length d - 20 * k) ≡ 0 = omega arith in
      rw (e, read_at-bytes m 20 (20 * k), c) refl

  lookup_loop-Looked :
      (fuel k ofs : ℕ) (name : List ℕ)
      → ofs ≡ 20 * k
      → k ≤ n
      → n < k + fuel
      → ((j : ℕ) → j < k → j < n → matches name (slot dev d j) ≡ false)
      → Returns (Looked dev d n name) (lookup_loop true dev d fuel name ofs)
  unfolding lookup_loop
  lookup_loop-Looked zero k ofs name e q f h = absurd (omega arith)
  lookup_loop-Looked (suc fuel) k ofs name e q f h = elim (Bool-cases (ltb k n)) [
    | inr t ↦ rw (read_at-end k ofs e (ground arith)) (returns (λ j p. h j (ground arith) p))
    | inl t ↦
        let p : k < n = ground arith in
        let whole : (length (slot dev d k) == 20) ≡ true =
          ground (arith, length-bytes dev d (20 * k) 20) in
        rw (read_at-slot k ofs e p, ◌>>=◌, whole)
          (elim (Bool-cases (matches name (slot dev d k))) [
            | inl y ↦ rw y (returns (k, p, e, refl, y))
            | inr y ↦ rw y (
                lookup_loop-Looked fuel (k + 1) (ofs + 20) name (omega arith) (omega arith)
                  (omega arith)
                  (λ j u v. elim (Bool-cases (j == k)) [
                    | inl z ↦ let g : j ≡ k = ground arith in rw g y
                    | inr z ↦ h j (ground arith) v
                  ]))
          ])
  ]

  -- The search of `dir_add`, with `n + 1` rounds left for the entries behind.
  pub free_loop-Freed :
      (fuel k ofs : ℕ) (old : DirEntry)
      → ofs ≡ 20 * k
      → k ≤ n
      → n < k + fuel
      → length old ≡ 20
      → ((j : ℕ) → j < k → in_use (slot dev d j) ≡ true)
      → Returns (Freed dev d n) (free_loop true dev d fuel old ofs)
  unfolding free_loop
  free_loop-Freed zero k ofs old e q f w h = absurd (omega arith)
  free_loop-Freed (suc fuel) k ofs old e q f w h = elim (Bool-cases (ltb k n)) [
    | inr t ↦ rw (read_at-end k ofs e (ground arith)) (
        returns (record {
          index = k;
          place = e;
          whole = w;
          free = inr (ground arith, λ j p. h j (ground arith));
        }))
    | inl t ↦
        let p : k < n = ground arith in
        let whole : (length (slot dev d k) == 20) ≡ true =
          ground (arith, length-bytes dev d (20 * k) 20) in
        rw (read_at-slot k ofs e p, ◌>>=◌, whole)
          (elim (Bool-cases (in_use (slot dev d k))) [
            | inl y ↦ rw y (
                free_loop-Freed fuel (k + 1) (ofs + 20) (slot dev d k) (omega arith) (omega arith)
                  (omega arith) (length-bytes dev d (20 * k) 20)
                  (λ j u. elim (Bool-cases (j == k)) [
                    | inl z ↦ let g : j ≡ k = ground arith in rw g y
                    | inr z ↦ h j (ground arith)
                  ]))
            | inr y ↦ rw y (
                returns (record {
                  index = k;
                  place = e;
                  whole = length-bytes dev d (20 * k) 20;
                  free = inl (p, y);
                }))
          ])
  ]

-- `lookup`, in an open directory of `n` entries whose sectors lie on the device and with memory for the bounce
-- buffer, ends without a failure: with the entry of an index that is in use and has the name, or with none if
-- there is no such entry.
pub lookup-Looked :
    (dir : Dir) (name : List ℕ) (fs : FileSystem) (n : ℕ) {i : Inode}
    → find_inode fs.open_inodes dir.inode ≡ some i
    → IsMapped fs.dev i.disk
    → inode_length i.disk ≡ 20 * n
    → Returns (Looked fs.dev i.disk n name) (lookup true dir name fs)
unfolding lookup
lookup-Looked dir name fs n {i} o m l = rw o (
    lookup_loop-Looked m n l (inode_length i.disk + 1) 0 0 name (omega arith) (omega arith)
      (omega arith) (λ j u v. absurd (omega arith)))
