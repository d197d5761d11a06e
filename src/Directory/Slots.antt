-- ===== src/Directory/Slots.antt =====
-- The entries of a directory of directory.c, as pieces of the bytes of its file.
use cs162hwproj.Prelude.{
  ℕ, zero, suc, ◌+◌, ◌-◌, ◌*◌, ◌<◌, ◌≤◌, ◌^◌, ◌≡◌, refl, ◌≢◌, ◌∙◌, true, false, ◌&&◌, inl, inr,
  List, [], ◌∷◌, ◌++◌, arith, ltb, leb, ◌==◌, if◌then◌else◌, Bool-cases, get_or, splice, length,
  length-append, length-splice, get_or-splice,
}
use cs162hwproj.Device.{Block}
use cs162hwproj.FreeMap.{elem_bytes}
use cs162hwproj.Inode.{InodeDisk, inode_length}
use cs162hwproj.Inode.Bytes.{byte_at, bytes}
use cs162hwproj.Inode.Write.{Written}
use cs162hwproj.Directory.{DirEntry, in_use, inode_sector, same_name, fill_entry}

-- The entry with an index.
abbrev pub slot : Block → InodeDisk → ℕ → DirEntry
slot dev d k = bytes dev d (20 * k) 20

bytes-same :
    (dev dev' : Block) (d : InodeDisk) (n offset : ℕ)
    → ((pos : ℕ) → offset ≤ pos → pos < offset + n → byte_at dev' d pos ≡ byte_at dev d pos)
    → bytes dev' d offset n ≡ bytes dev d offset n
unfolding bytes
bytes-same dev dev' d zero offset h = refl
bytes-same dev dev' d (suc n) offset h =
    let head = h offset (omega arith) (omega arith) in
    let tail =
      bytes-same dev dev' d n (offset + 1) (λ pos p q. h pos (omega arith) (omega arith)) in
    cc

bytes-list :
    (dev : Block) (d : InodeDisk) (xs : List ℕ) (offset : ℕ)
    → ((pos : ℕ)
        → offset ≤ pos
        → pos < offset + length xs
        → byte_at dev d pos ≡ get_or xs (pos - offset) 0)
    → bytes dev d offset (length xs) ≡ xs
unfolding bytes
bytes-list dev d [] offset h = refl
bytes-list dev d (x ∷ xs) offset h =
    let first : offset - offset ≡ 0 = omega arith in
    let head : byte_at dev d offset ≡ x = rw first at (h offset (omega arith) (omega arith)) in
    let tail = bytes-list dev d xs (offset + 1) (λ pos p q.
      let e : pos - offset ≡ suc (pos - (offset + 1)) = omega arith in
      rw e at (h pos (omega arith) (omega arith))) in
    cc

-- Writing a whole entry changes that one only.
module _ {dev dev' : Block} {d : InodeDisk} {k : ℕ} {e : DirEntry} (n : ℕ)
    (l : inode_length d ≡ 20 * n) (w : Written dev d (20 * k) 20 e dev') where
  pub slot_written : k < n → length e ≡ 20 → slot dev' d k ≡ e
  slot_written p q =
      let r = bytes-list dev' d e (20 * k) (λ pos u v.
        let t : (leb (20 * k) pos && ltb pos (20 * k + 20)) ≡ true = ground arith in
        rw t at (w.bytes pos (omega arith))) in
      rw q at r

  pub slot_kept : (j : ℕ) → j < n → j ≢ k → slot dev' d j ≡ slot dev d j
  slot_kept j p q = bytes-same dev dev' d 20 (20 * j) (λ pos u v.
      let t : (leb (20 * k) pos && ltb pos (20 * k + 20)) ≡ false = ground arith in
      rw t at (w.bytes pos (omega arith)))

-- Writing nothing changes no entry.
pub slot_unwritten :
    {dev dev' : Block} {d : InodeDisk} {offset : ℕ} {e : DirEntry} (n : ℕ)
    (l : inode_length d ≡ 20 * n) (w : Written dev d offset 0 e dev') (j : ℕ)
    → j < n
    → slot dev' d j ≡ slot dev d j
slot_unwritten {dev} {dev'} {d} {offset} n l w j p = bytes-same dev dev' d 20 (20 * j) (λ pos u v.
    let t : (leb offset pos && ltb pos (offset + 0)) ≡ false = ground arith in
    rw t at (w.bytes pos (omega arith)))

-- The characters of a name.
abbrev pub IsName : List ℕ → Type 0
IsName [] = Unit
IsName (c ∷ cs) = (c ≢ 0) × IsName cs

same_name-splice :
    (name : List ℕ) (e : DirEntry) (i : ℕ)
    → ((j : ℕ) → j ≤ length name → get_or e (i + j) 0 ≡ get_or (name ++ (0 ∷ [])) j 0)
    → same_name name e i ≡ true
same_name-splice [] e i h =
    let z : i + 0 ≡ i = omega arith in
    let g : get_or e i 0 ≡ 0 = rw z at (h 0 (omega arith)) in rw g refl
same_name-splice (c ∷ cs) e i h =
    let z : i + 0 ≡ i = omega arith in
    let g : get_or e i 0 ≡ c = rw z at (h 0 (omega arith)) in
    let r =
      same_name-splice cs e (i + 1)
        (λ j p. let s : i + suc j ≡ i + 1 + j = omega arith in rw s at (h (suc j) (omega arith))) in
    ground arith

module _ (name : List ℕ) (sector : ℕ) (e : DirEntry) (whole : length e ≡ 20)
    (short : length name ≤ 14) where
  named : length (name ++ (0 ∷ [])) ≡ length name + 1
  named = length-append name (0 ∷ [])

  pub length-fill_entry : length (fill_entry name sector e) ≡ 20
  unfolding fill_entry
  length-fill_entry =
      length-splice (splice (splice e 19 (1 ∷ [])) 4 (name ++ (0 ∷ []))) 0 (elem_bytes sector)
      ∙ length-splice (splice e 19 (1 ∷ [])) 4 (name ++ (0 ∷ []))
      ∙ length-splice e 19 (1 ∷ [])
      ∙ whole

  byte_of-fill_entry :
      (j : ℕ)
      → get_or (fill_entry name sector e) j 0 ≡ (
          if ltb j 4
          then get_or (elem_bytes sector) j 0
          else if ltb j (5 + length name)
          then get_or (name ++ (0 ∷ [])) (j - 4) 0
          else if j == 19
          then 1
          else get_or e j 0)
  unfolding fill_entry
  byte_of-fill_entry j =
      let a = length-splice e 19 (1 ∷ []) in
      let b = length-splice (splice e 19 (1 ∷ [])) 4 (name ++ (0 ∷ [])) in
      let n = named in
      rw
        (
          get_or-splice (splice (splice e 19 (1 ∷ [])) 4 (name ++ (0 ∷ []))) 0 (elem_bytes sector) j
              0 (omega arith),
          get_or-splice (splice e 19 (1 ∷ [])) 4 (name ++ (0 ∷ [])) j 0 (omega arith),
          get_or-splice e 19 (1 ∷ []) j 0 (omega arith),
          named,
        )
        (elim (Bool-cases (ltb j 4)) [
          | inl y ↦ let z : j - 0 ≡ j = omega arith in rw (y, z) (ground arith)
          | inr k ↦ elim (Bool-cases (ltb j (5 + length name))) [
            | inl y ↦
                let t : (leb 4 j && ltb j (4 + (length name + 1))) ≡ true = ground arith in
                rw (k, y, t) (ground arith)
            | inr m ↦
                let t : (leb 4 j && ltb j (4 + (length name + 1))) ≡ false = ground arith in
                rw (k, m, t) (ground arith)
          ]
        ])

  pub in_use-fill_entry : in_use (fill_entry name sector e) ≡ true
  in_use-fill_entry =
      let b = byte_of-fill_entry 19 in
      let f : ltb 19 (5 + length name) ≡ false = ground arith in rw (b, f) refl

  pub inode_sector-fill_entry : sector < 2 ^ 32 → inode_sector (fill_entry name sector e) ≡ sector
  inode_sector-fill_entry small =
      rw (byte_of-fill_entry 0, byte_of-fill_entry 1, byte_of-fill_entry 2, byte_of-fill_entry 3)
        (omega arith)

  pub same_name-fill_entry : same_name name (fill_entry name sector e) 4 ≡ true
  same_name-fill_entry = same_name-splice name (fill_entry name sector e) 4 (λ j p.
      let f : ltb (4 + j) 4 ≡ false = ground arith in
      let g : ltb (4 + j) (5 + length name) ≡ true = ground arith in
      let z : 4 + j - 4 ≡ j = omega arith in rw (byte_of-fill_entry (4 + j), f, g, z) refl)
