-- ===== src/Inode/Write.antt =====
-- `inode_write_at` of inode.c: which bytes of the device change, and to what.
use cs162hwproj.Prelude.{
  ℕ, zero, suc, ◌+◌, ◌-◌, ◌/◌, ◌%◌, ◌≤◌, ◌<◌, ◌≡◌, refl, ◌∙◌, true, false, ◌&&◌, ◌||◌, List, arith,
  min, take, drop, replicate, length, get_or, splice, ltb, leb, ◌==◌, if◌then◌else◌, inl, inr, ◌⊎◌,
  Bool-cases, length-splice, get_or-splice, length-take, length-drop, length-replicate, get_or-take,
  get_or-drop,
}
use cs162hwproj.Prelude.Returns
use cs162hwproj.Prelude.Returns.{Returns, returns}
use cs162hwproj.Device.{Block, block_read-some, block_write-some, IsDevice-write}
use cs162hwproj.Inode.{
  InodeDisk, Inode, inode_length, bytes_to_sectors, chunk_size, bounced, write_loop, write_at,
}
use cs162hwproj.Inode.Bytes.{byte_at, IsMapped, position-mapped}
use cs162hwproj.Inode.Read.{chunk_facts, chunk_zero}

-- `dev'` is `dev` with the `n` bytes of `buffer` at `offset` of the file, and nothing else changed.
pub record Written (dev : Block) (d : InodeDisk) (offset n : ℕ) (buffer : List ℕ) (dev' : Block)
    : Type 0 where
  pub mapped : IsMapped dev' d
  pub size : dev'.size ≡ dev.size
  pub bytes :
      (pos : ℕ)
      → pos < inode_length d
      → byte_at dev' d pos ≡ (
          if leb offset pos && ltb pos (offset + n)
          then get_or buffer (pos - offset) 0
          else byte_at dev d pos)
  pub others :
      (s : ℕ)
      → (s < d.start) ⊎ (d.start + bytes_to_sectors (inode_length d) ≤ s)
      → dev'.sector s ≡ dev.sector s

abbrev pub with_sector : Block → ℕ → List ℕ → Block
with_sector dev s bs = record dev { sector = λ t. if t == s then bs else dev.sector t }

Written-refl :
    {dev : Block} {d : InodeDisk} {n : ℕ} (offset : ℕ) (buffer : List ℕ)
    → IsMapped dev d
    → n ≡ 0
    → Written dev d offset n buffer dev
Written-refl offset buffer m h = record {
  mapped = m;
  size = refl;
  bytes = λ pos p. ground arith;
  others = λ s o. refl;
}

-- What one round writes: the sector of `offset` with `c` bytes of the buffer in it.
record Patched (old : List ℕ) (ofs c : ℕ) (buffer bs : List ℕ) : Type 0 where
  whole : length bs ≡ 512
  content :
      (k : ℕ)
      → k < 512
      → get_or bs k 0
        ≡ (if leb ofs k && ltb k (ofs + c) then get_or buffer (k - ofs) 0 else get_or old k 0)

module _ {dev : Block} {d : InodeDisk} (m : IsMapped dev d) (offset c : ℕ)
    {buffer bs : List ℕ} where
  Written-sector :
      offset % 512 + c ≤ 512
      → offset + c ≤ inode_length d
      → 0 < c
      → Patched (dev.sector (d.start + offset / 512)) (offset % 512) c buffer bs
      → Written dev d offset c buffer (with_sector dev (d.start + offset / 512) bs)
  Written-sector h l pos_c p = record {
    mapped = record { device = IsDevice-write m.device _ inside bs p.whole; fits = m.fits };
    size = refl;
    bytes = λ pos q. elim (Bool-cases (pos / 512 == offset / 512)) [
      | inl e ↦
          let same : pos / 512 ≡ offset / 512 = ground (arith, e) in
          let shift : pos % 512 - offset % 512 ≡ pos - offset = omega arith in
          ground (arith, p.content (pos % 512))
      | inr ne ↦ ground (arith, ne)
    ];
    others = λ s o. ground arith;
  }
    where
      inside : d.start + offset / 512 < dev.size
      inside = (position-mapped m offset (omega arith)).1

Written-trans :
    {dev₁ dev₂ dev₃ : Block} {d : InodeDisk} {offset c n k : ℕ} {buffer : List ℕ}
    → c ≤ k
    → Written dev₁ d offset c buffer dev₂
    → Written dev₂ d (offset + c) n (drop c buffer) dev₃
    → k ≡ c + n
    → Written dev₁ d offset k buffer dev₃
Written-trans {offset} {c} {buffer} h w v e = record {
  mapped = v.mapped;
  size = v.size ∙ w.size;
  bytes = λ pos q.
      let shift : leb (offset + c) pos ≡ true → c + (pos - (offset + c)) ≡ pos - offset =
        λ t. ground arith in
      ground (arith, v.bytes pos, w.bytes pos, get_or-drop c buffer (pos - (offset + c)) 0);
  others = λ s o. v.others s o ∙ w.others s o;
}

no_gap :
    (r c k : ℕ)
    → (ltb 0 r || ltb c (512 - r)) ≡ false
    → k < 512
    → (leb r k && ltb k (r + c)) ≡ false
    → ⊥
no_gap r c k h q w = ground arith

module _ {dev : Block} {d : InodeDisk} (m : IsMapped dev d) (size offset : ℕ) (buffer : List ℕ)
    (room : size ≤ length buffer) where
  Patched-full :
      (old : List ℕ)
      → offset % 512 ≡ 0
      → chunk_size d size offset ≡ 512
      → Patched old
          (offset % 512)
          (chunk_size d size offset)
          buffer
          (take (chunk_size d size offset) buffer)
  Patched-full old z f = record {
    whole = omega (arith, length-take (chunk_size d size offset) buffer);
    content = λ k h.
        let e : k - offset % 512 ≡ k = omega arith in
        ground (arith, get_or-take (chunk_size d size offset) buffer k 0);
  }

  Patched-splice :
      (old base : List ℕ) (c : ℕ)
      → length base ≡ 512
      → offset % 512 + c ≤ 512
      → c ≤ length buffer
      → ((k : ℕ)
          → k < 512
          → (leb (offset % 512) k && ltb k (offset % 512 + c)) ≡ false
          → get_or base k 0 ≡ get_or old k 0)
      → Patched old (offset % 512) c buffer (splice base (offset % 512) (take c buffer))
  Patched-splice old base c whole h l keep = record {
    whole = length-splice base (offset % 512) (take c buffer) ∙ whole;
    content = λ k q. ground (
      arith,
      get_or-splice base (offset % 512) (take c buffer) k 0,
      length-take c buffer,
      keep k q,
      get_or-take c buffer (k - offset % 512) 0,
    );
  }

  bounced-Patched :
      (chunk_size d size offset == 0) ≡ false
      → Returns
          (Patched
            (dev.sector (d.start + offset / 512))
            (offset % 512)
            (chunk_size d size offset)
            buffer)
          (bounced dev d size offset buffer)
  unfolding bounced
  bounced-Patched more =
      let c = chunk_size d size offset in
      let old = dev.sector (d.start + offset / 512) in
      let (at, inside) = position-mapped m offset (ground (arith, more)) in
      let (_, fits) = chunk_facts (inode_length d) size offset in
      elim (Bool-cases (ltb 0 (offset % 512) || ltb c (512 - offset % 512))) [
        | inl partial ↦
            rw (partial, at, block_read-some m.device (d.start + offset / 512) inside)
              (returns
                (Patched-splice old old c (m.device.whole _) fits (omega arith) (λ k q w. refl)))
        | inr whole ↦ rw whole (
            returns (
              Patched-splice old (replicate 512 0) c (length-replicate {A = ℕ} 512 0) fits
                (omega arith) (λ k q w. absurd (no_gap (offset % 512) c k whole q w))))
      ]

abbrev pub Wrote : Block → InodeDisk → (offset n written : ℕ) → List ℕ → ℕ × Block → Type 0
Wrote dev d offset n written buffer (w, dev') =
    (w ≡ written + n) × Written dev d offset n buffer dev'

module _ {d : InodeDisk} where
  -- One round that writes something, through the bounce buffer or not.
  write_round :
      (fuel size offset written : ℕ) {dev : Block} (buffer : List ℕ) (Q : ℕ × Block → Type 0)
      → IsMapped dev d
      → size ≤ length buffer
      → (chunk_size d size offset == 0) ≡ false
      → (let c = chunk_size d size offset in
          (dev' : Block)
          → Written dev d offset c buffer dev'
          → Returns Q
              (write_loop fuel true dev' d (drop c buffer) (size - c) (offset + c) (written + c)))
      → Returns Q (write_loop (suc fuel) true dev d buffer size offset written)
  unfolding write_loop
  write_round fuel size offset written {dev} buffer Q m room more next =
      let c = chunk_size d size offset in
      let old = dev.sector (d.start + offset / 512) in
      let nonzero : (size == 0) ≡ false = ground (arith, more) in
      let (at, inside) = position-mapped m offset (ground (arith, more)) in
      let (_, fits) = chunk_facts (inode_length d) size offset in
      let done = λ (bs : List ℕ) (p : Patched old (offset % 512) c buffer bs).
        next (with_sector dev (d.start + offset / 512) bs)
          (Written-sector m offset c fits (ground (arith, more)) (ground (arith, more)) p) in
      rw (nonzero, more, at)
        (elim (Bool-cases ((offset % 512 == 0) && (c == 512))) [
          | inl full ↦
              rw (full, block_write-some m.device (d.start + offset / 512) inside (take c buffer))
                (done (take c buffer) (
                  Patched-full m size offset buffer room old (ground (arith, full))
                    (ground (arith, full))))
          | inr part ↦ rw part (
              Returns.bind (bounced-Patched m size offset buffer room more) λ bs p.
                rw (block_write-some m.device (d.start + offset / 512) inside bs) (done bs p))
        ])

  write_loop-Written :
      (fuel size offset written : ℕ) {dev : Block} (buffer : List ℕ)
      → IsMapped dev d
      → size ≤ length buffer
      → size < fuel
      → Returns
          (Wrote dev d offset (min size (inode_length d - offset)) written buffer)
          (write_loop fuel true dev d buffer size offset written)
  unfolding write_loop
  write_loop-Written zero size offset written buffer m room h = absurd (omega arith)
  write_loop-Written (suc fuel) size offset written {dev} buffer m room h =
      elim (Bool-cases (chunk_size d size offset == 0)) [
        | inl stop ↦
            let e : min size (inode_length d - offset) ≡ 0 =
              chunk_zero (inode_length d) size offset (ground arith) in
            let same = Written-refl {dev = dev} offset buffer m e in
            rw stop (elim (Bool-cases (size == 0)) [
              | inl z ↦ rw z (returns (omega arith, same))
              | inr z ↦ rw z (returns (omega arith, same))
            ])
        | inr more ↦
            let c = chunk_size d size offset in
            write_round fuel size offset written buffer _ m room more λ dev' w.
              Returns.mono
                (write_loop-Written fuel (size - c) (offset + c) (written + c) (drop c buffer)
                  w.mapped (omega (arith, length-drop c buffer)) (ground (arith, more)))
                λ (k, dev₂) (e, v).
                  let (sum, _) = chunk_facts (inode_length d) size offset in
                  (omega arith, Written-trans (omega arith) w v (omega arith))
      ]

-- `inode_write_at`, on an inode that does not deny writes, whose sectors lie on a device that can
-- be written, with a buffer of at least `size` bytes and its bounce buffer allocated: it fails no
-- assertion; it returns as many bytes as of `size` fit before the end of the file; these bytes of
-- the buffer stand in the file from `offset` on, every other byte of the file and every sector
-- outside the file is as it was.
pub write_at-Written :
    {dev : Block} (inode : Inode) (buffer : List ℕ) (size offset : ℕ)
    → IsMapped dev inode.disk
    → size ≤ length buffer
    → inode.deny_write_cnt ≡ 0
    → Returns
        (Wrote dev inode.disk offset (min size (inode_length inode.disk - offset)) 0 buffer)
        (write_at true dev inode buffer size offset)
unfolding write_at
write_at-Written inode buffer size offset m room open_ =
    rw open_ (write_loop-Written (size + 1) size offset 0 buffer m room (omega arith))
