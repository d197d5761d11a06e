-- ===== src/FreeMap/Sectors.antt =====
-- The sectors that free-map.c gives out.
use mathlib.Core.Path.{subst}
use cs162hwproj.Prelude.{
  ℕ, ◌+◌, ◌*◌, ◌≤◌, ◌<◌, ◌≡◌, refl, ◌∙◌, eq_of_some, ◌-◌, Bool, true, false, not, Option, none,
  some, List, [], ◌∷◌, arith, ◌==◌, if◌then◌else◌, inl, inr, Bool-cases, ◌>>=◌, take, length,
  length-take, leb, min,
}
use cs162hwproj.Prelude.Returns
use cs162hwproj.Prelude.Returns.{Returns, returns}
use cs162hwproj.Bitmap.{Bitmap, bitmap_error, set_multiple, all_set, byte_cnt, elem_cnt}
use cs162hwproj.Bitmap.Bit.{bit_at, IsValid}
use cs162hwproj.Bitmap.Range.{Sets, set_multiple-Sets}
use cs162hwproj.Bitmap.Scan
use cs162hwproj.Bitmap.Scan.{
  Group, Flipped, found, absent, Holds, contains-Holds, scan_and_flip-Flipped,
}
use cs162hwproj.Device.{Block}
use cs162hwproj.Inode.{Inode, inode_length, write_at}
use cs162hwproj.Inode.Bytes.{IsMapped}
use cs162hwproj.Inode.Write.{Written, write_at-Written}
use cs162hwproj.FreeMap.{
  FreeMap, elems_bytes, bitmap_write, save, free_map_allocate, free_map_release,
}

-- The sectors of the map's own file, if it is open, lie on the device.
abbrev pub IsFile : Block → Option Inode → Type 0
IsFile dev none = Unit
IsFile dev (some inode) = IsMapped dev inode.disk

length-elems_bytes : (ws : List ℕ) → length (elems_bytes ws) ≡ 4 * length ws
length-elems_bytes [] = refl
length-elems_bytes (w ∷ ws) = omega (arith, length-elems_bytes ws)

abbrev pub map_bytes : Bitmap → List ℕ
map_bytes b = elems_bytes (take (elem_cnt b.bit_cnt) b.bits)

-- What writing the map did: nothing where its file is not open; else the device's file has as many of the map's bytes
-- as the file takes, none if writes are denied, and the result says whether these are all.
pub record Saved (dev : Block) (map : Bitmap) (file : Option Inode) (saved : Bool) (dev' : Block)
    : Type 0 where
  pub closed : file ≡ none → (saved ≡ true) × (dev' ≡ dev)
  pub denied :
      (inode : Inode)
      → file ≡ some inode
      → (inode.deny_write_cnt == 0) ≡ false
      → (saved ≡ (0 == byte_cnt map.bit_cnt)) × (dev' ≡ dev)
  pub written :
      (inode : Inode)
      → file ≡ some inode
      → (inode.deny_write_cnt == 0) ≡ true
      → (saved ≡ leb (byte_cnt map.bit_cnt) (inode_length inode.disk))
        × Written dev inode.disk 0
            (min (byte_cnt map.bit_cnt) (inode_length inode.disk))
            (map_bytes map)
            dev'

-- What a call for `cnt` sectors does: the first `cnt` free sectors in a row are now in use, no other sector changes, and
-- the map is saved; or there are none, or the map could not be saved, and no sector changes.
pub data Allocated (dev : Block) (f : FreeMap) (cnt : ℕ) : Option ℕ × FreeMap × Block → Type 0 where
  given :
      {sector : ℕ} {g : FreeMap} {dev' : Block}
      → Group f.map cnt false sector
      → ((k : ℕ) → k < sector → ¬ Group f.map cnt false k)
      → Sets f.map sector (sector + cnt) true g.map
      → Saved dev g.map f.file true dev'
      → g.file ≡ f.file
      → Allocated dev f cnt (some sector, g, dev')
  no_group : ((k : ℕ) → ¬ Group f.map cnt false k) → Allocated dev f cnt (none, f, dev)
  unsaved :
      {sector : ℕ} {map : Bitmap} {g : FreeMap} {dev' : Block}
      → Group f.map cnt false sector
      → ((k : ℕ) → k < sector → ¬ Group f.map cnt false k)
      → Sets f.map sector (sector + cnt) true map
      → Saved dev map f.file false dev'
      → IsValid g.map
      → g.map.bit_cnt ≡ f.map.bit_cnt
      → ((j : ℕ) → bit_at g.map j ≡ bit_at f.map j)
      → g.file ≡ f.file
      → Allocated dev f cnt (none, g, dev')

save-Saved :
    (dev : Block) (b : Bitmap) (file : Option Inode)
    → IsValid b
    → IsFile dev file
    → Returns (λ (saved, dev'). Saved dev b file saved dev') (save true dev b file)
unfolding save bitmap_write write_at
save-Saved dev b none v m =
    returns (record { closed = λ e. (refl, refl); denied = λ i e. cc; written = λ i e. cc })
save-Saved dev b (some inode) v m = elim (Bool-cases (inode.deny_write_cnt == 0)) [
  | inl open_ ↦
      Returns.bind
        (write_at-Written inode (map_bytes b) (byte_cnt b.bit_cnt) 0 m (room v) (ground arith))
        λ (n, dev') (count, w). returns (record {
          closed = λ e. cc;
          denied = λ i e k.
              let g : inode ≡ i = eq_of_some e in
              let k' : (inode.deny_write_cnt == 0) ≡ false = rw g k in absurd (both open_ k');
          written = λ i e k.
              let g : inode ≡ i = eq_of_some e in
              rw (← g) (
                all_written n dev' count,
                subst
                    (λ l. Written dev inode.disk 0 (min (byte_cnt b.bit_cnt) l) (map_bytes b) dev')
                    whole w,
              );
        })
  | inr denied ↦ rw denied (
      returns (record {
        closed = λ e. cc;
        denied = λ i e k. (refl, refl);
        written = λ i e k.
            let g : inode ≡ i = eq_of_some e in
            let k' : (inode.deny_write_cnt == 0) ≡ true = rw g k in absurd (both k' denied);
      }))
]
  where
    whole : inode_length inode.disk - 0 ≡ inode_length inode.disk
    whole = omega arith

    both : {t : Bool} → t ≡ true → t ≡ false → ⊥
    both p q = cc

    room : IsValid b → byte_cnt b.bit_cnt ≤ length (map_bytes b)
    room v =
        unfold byte_cnt elem_cnt in
        omega (
          arith,
          length-elems_bytes (take (elem_cnt b.bit_cnt) b.bits),
          length-take (elem_cnt b.bit_cnt) b.bits,
        )

    all_written :
        (n : ℕ) (dev' : Block)
        → n ≡ 0 + min (byte_cnt b.bit_cnt) (inode_length inode.disk - 0)
        → (n == byte_cnt b.bit_cnt) ≡ leb (byte_cnt b.bit_cnt) (inode_length inode.disk)
    all_written n dev' e = ground arith

-- A group that was set and is cleared again.
Sets-back :
    {a b c : Bitmap} {lo hi : ℕ}
    → Sets a lo hi true b
    → Sets b lo hi false c
    → ((j : ℕ) → lo ≤ j → j < hi → bit_at a j ≡ false)
    → (j : ℕ) → bit_at c j ≡ bit_at a j
Sets-back s t free j = ground (arith, s.bits j, t.bits j, free j)

module _ (dev : Block) (f : FreeMap) (cnt : ℕ) (v : IsValid f.map) (m : IsFile dev f.file) where
  -- What follows the writing of the map.
  allocate_found :
      {sector : ℕ} (map : Bitmap)
      → Group f.map cnt false sector
      → ((k : ℕ) → k < sector → ¬ Group f.map cnt false k)
      → Sets f.map sector (sector + cnt) true map
      → (saved : Bool) (dev' : Block) → Saved dev map f.file saved dev'
      → Returns (Allocated dev f cnt) (
          if saved
          then some (some sector, record f { map = map }, dev')
          else (set_multiple map sector cnt false >>= λ back.
              some (none, record f { map = back }, dev')))
  allocate_found {sector} map g first s true dev' w = returns (given g first s w refl)
  allocate_found {sector} map g first s false dev' w =
      Returns.bind
        (set_multiple-Sets sector cnt false s.valid (let i = g.inside in omega (arith, s.size)))
        λ back t.
          returns (unsaved g first s w t.valid (t.size ∙ s.size) (Sets-back s t g.equal) refl)

  -- `free_map_allocate` for `cnt` sectors, on a valid map whose file, if it is open, has its sectors on a
  -- device that can be written, and with the memory for writing it: it fails no assertion. If there are no `cnt` free
  -- sectors in a row, it gives none and changes nothing. Otherwise it writes the map with the first such sectors in
  -- use to the file, if it is open and allows writes; if the file took the whole map, or is not open, it gives these
  -- sectors, and exactly they are now in use as well; if not, it gives none, and the same sectors are in use as before.
  pub free_map_allocate-Allocated : Returns (Allocated dev f cnt) (free_map_allocate true dev f cnt)
  unfolding free_map_allocate
  free_map_allocate-Allocated =
      Returns.bind (scan_and_flip-Flipped v 0 (omega arith))
        λ (sector, map) flipped. answer sector map flipped
    where
      answer :
          (sector : ℕ) (map : Bitmap)
          → Flipped f.map 0 cnt false sector map
          → Returns (Allocated dev f cnt) (
              if sector == bitmap_error
              then some (none, record f { map = map }, dev)
              else (save true dev map f.file >>= λ (saved, dev').
                  if saved
                  then some (some sector, record f { map = map }, dev')
                  else (set_multiple map sector cnt false >>= λ back.
                      some (none, record f { map = back }, dev'))))
      answer sector map (Scan.absent e same all) =
          rw (e, same) (returns (no_group (λ k. all k (omega arith))))
      answer sector map (found p g first s) =
          let ne : (sector == bitmap_error) ≡ false = ground (arith, g.inside, v.small) in
          rw ne (
            Returns.bind (save-Saved dev map f.file s.valid m) λ (saved, dev') w.
              allocate_found map g (λ k h. first k (omega arith) h) s saved dev' w)

-- `free_map_release` of `cnt` sectors that are all in use, on a valid map whose file is open and has its
-- sectors on a device that can be written, and with the memory for writing it: it fails no assertion,
-- and then exactly these sectors are free as well.
pub free_map_release-Sets :
    (dev : Block) (f : FreeMap) (inode : Inode) (sector cnt : ℕ)
    → IsValid f.map
    → f.file ≡ some inode
    → IsMapped dev inode.disk
    → Group f.map cnt true sector
    → Returns
        (λ (g, dev'). Sets f.map sector (sector + cnt) false g.map × (g.file ≡ f.file))
        (free_map_release true dev f sector cnt)
unfolding free_map_release all_set save
free_map_release-Sets dev f inode sector cnt v open_ m g =
    Returns.bind (Returns.bind (contains-Holds false v sector cnt g.inside) λ c r. all_taken c r)
      λ taken e.
        rw (e, open_)
          (Returns.bind (set_multiple-Sets sector cnt false v g.inside) λ map s.
            Returns.bind (save-Saved dev map (some inode) s.valid m) λ saved _. returns (s, refl))
  where
    all_taken :
        (c : Bool)
        → Holds f.map sector (sector + cnt) false c
        → Returns (λ taken. taken ≡ true) (some (not c))
    all_taken true r = absurd (let (j, p, q, e) = r.found refl in ground (arith, g.equal j))
    all_taken false r = returns refl
