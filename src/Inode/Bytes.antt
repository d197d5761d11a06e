-- ===== src/Inode/Bytes.antt =====
-- The bytes of a file of inode.c, by their position, and the sectors that hold them.
use cs162hwproj.Prelude.{
  ℕ, zero, suc, ◌+◌, ◌*◌, ◌/◌, ◌%◌, ◌≤◌, ◌<◌, ◌≡◌, refl, ap, ◌∙◌, List, [], ◌∷◌, ◌++◌, arith, take,
  drop, length, get_or,
}
use cs162hwproj.Device.{Block, IsDevice}
use cs162hwproj.Inode.{InodeDisk, inode_length, bytes_to_sectors, byte_to_sector}

abbrev pub byte_at : Block → InodeDisk → ℕ → ℕ
byte_at dev d pos = get_or (dev.sector (d.start + pos / 512)) (pos % 512) 0

-- `n` bytes from `offset` on.
unfoldable pub bytes : Block → InodeDisk → (offset n : ℕ) → List ℕ
bytes dev d offset zero = []
bytes dev d offset (suc n) = byte_at dev d offset ∷ bytes dev d (offset + 1) n

-- The sectors of the file lie on the device.
pub record IsMapped (dev : Block) (d : InodeDisk) : Type 0 where
  pub device : IsDevice dev
  pub fits : d.start + bytes_to_sectors (inode_length d) ≤ dev.size

module _ (dev : Block) (d : InodeDisk) where
  pub length-bytes : (offset n : ℕ) → length (bytes dev d offset n) ≡ n
  unfolding bytes
  length-bytes offset zero = refl
  length-bytes offset (suc n) = ap suc (length-bytes (offset + 1) n)

  pub bytes-append :
      (offset n m : ℕ)
      → bytes dev d offset n ++ bytes dev d (offset + n) m ≡ bytes dev d offset (n + m)
  unfolding bytes
  bytes-append offset zero m =
      let e : offset + 0 ≡ offset = omega arith in let f : 0 + m ≡ m = omega arith in rw (e, f) refl
  bytes-append offset (suc n) m =
      let e : offset + suc n ≡ offset + 1 + n = omega arith in
      let f : suc n + m ≡ suc (n + m) = omega arith in rw (e, f, bytes-append (offset + 1) n m) refl

  pub get_or-bytes :
      (offset n k : ℕ) → k < n → get_or (bytes dev d offset n) k 0 ≡ byte_at dev d (offset + k)
  unfolding bytes
  get_or-bytes offset zero k h = absurd (omega arith)
  get_or-bytes offset (suc n) zero h =
      let e : offset ≡ offset + 0 = omega arith in ap (byte_at dev d) e
  get_or-bytes offset (suc n) (suc k) h =
      let e : offset + 1 + k ≡ offset + suc k = omega arith in
      get_or-bytes (offset + 1) n k (omega arith) ∙ ap (byte_at dev d) e

drop-step : (xs : List ℕ) (j : ℕ) → j < length xs → drop j xs ≡ get_or xs j 0 ∷ drop (suc j) xs
drop-step [] j h = absurd (omega arith)
drop-step (x ∷ xs) zero h = refl
drop-step (x ∷ xs) (suc j) h = drop-step xs j (omega arith)

module _ {dev : Block} {d : InodeDisk} (m : IsMapped dev d) where
  -- Part of a sector is a run of the file's bytes.
  sector_part :
      (n j s : ℕ)
      → j + n ≤ 512
      → take n (drop j (dev.sector (d.start + s))) ≡ bytes dev d (s * 512 + j) n
  unfolding bytes
  sector_part zero j s h = refl
  sector_part (suc n) j s h =
      let e : (s * 512 + j) / 512 ≡ s = omega arith in
      let f : (s * 512 + j) % 512 ≡ j = omega arith in
      let g : s * 512 + j + 1 ≡ s * 512 + suc j = omega arith in
      rw
        (
          drop-step (dev.sector (d.start + s)) j (omega (arith, m.device.whole (d.start + s))),
          e,
          f,
          g,
        )
        (ap (λ l. get_or (dev.sector (d.start + s)) j 0 ∷ l)
          (sector_part n (suc j) s (omega arith)))

  pub chunk-bytes :
      (n offset : ℕ)
      → offset % 512 + n ≤ 512
      → take n (drop (offset % 512) (dev.sector (d.start + offset / 512))) ≡ bytes dev d offset n
  chunk-bytes n offset h =
      let e : offset / 512 * 512 + offset % 512 ≡ offset = omega arith in
      sector_part n (offset % 512) (offset / 512) h ∙ ap (λ o. bytes dev d o n) e

  -- A position inside the file lies in a sector of the device, and its number does not wrap.
  pub position-mapped :
      (pos : ℕ)
      → pos < inode_length d
      → (byte_to_sector d pos ≡ d.start + pos / 512) × (d.start + pos / 512 < dev.size)
  position-mapped pos h = ground (arith, m.fits, m.device.small)

pub take_all : (xs : List ℕ) (n : ℕ) → n ≡ length xs → take n xs ≡ xs
take_all [] zero h = refl
take_all [] (suc n) h = refl
take_all (x ∷ xs) zero h = absurd (omega arith)
take_all (x ∷ xs) (suc n) h = ap (λ l. x ∷ l) (take_all xs n (omega arith))
