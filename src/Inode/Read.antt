-- ===== src/Inode/Read.antt =====
-- `inode_read_at` of inode.c against the bytes of the file.
use cs162hwproj.Prelude.{
  ℕ, zero, suc, ◌+◌, ◌-◌, ◌/◌, ◌%◌, ◌≤◌, ◌<◌, ◌≡◌, refl, sym, ap, ◌∙◌, true, false, ◌&&◌, some,
  List, [], ◌++◌, arith, min, take, drop, length, ◌==◌, inl, inr, Bool-cases,
}
use mathlib.Core.List.{append_assoc, append-nil}
use cs162hwproj.Device.{Block, block_read-some}
use cs162hwproj.Inode.{InodeDisk, inode_length, chunk_size, read_loop, read_at}
use cs162hwproj.Inode.Bytes.{bytes, bytes-append, IsMapped, chunk-bytes, position-mapped, take_all}

-- Arithmetic of one round, over the length of the file.
pub chunk_facts :
    (l size offset : ℕ)
    → let c = min size (min (l - offset) (512 - offset % 512)) in
      (c + min (size - c) (l - (offset + c)) ≡ min size (l - offset)) × (offset % 512 + c ≤ 512)
chunk_facts l size offset = omega arith

pub chunk_zero :
    (l size offset : ℕ)
    → min size (min (l - offset) (512 - offset % 512)) ≡ 0
    → min size (l - offset) ≡ 0
chunk_zero l size offset h = omega arith

module _ {dev : Block} {d : InodeDisk} (m : IsMapped dev d) where
  -- One round that copies something, through the bounce buffer or not.
  read_round :
      (fuel size offset : ℕ) (out : List ℕ)
      → (chunk_size d size offset == 0) ≡ false
      → read_loop (suc fuel) true dev d size offset out ≡ (
          let c = chunk_size d size offset in
          read_loop fuel true dev d (size - c) (offset + c) (out ++ bytes dev d offset c))
  unfolding read_loop
  read_round fuel size offset out more =
      let c = chunk_size d size offset in
      let nonzero : (size == 0) ≡ false = ground (arith, more) in
      let (at, inside) = position-mapped m offset (ground (arith, more)) in
      let part = chunk-bytes m c offset (chunk_facts (inode_length d) size offset).1 in
      rw (nonzero, more, at, block_read-some m.device (d.start + offset / 512) inside)
        (elim (Bool-cases ((offset % 512 == 0) && (c == 512))) [
          | inl full ↦ rw full (
              let sec = dev.sector (d.start + offset / 512) in
              let z : 0 ≡ offset % 512 = ground (arith, full) in
              let w : c ≡ length sec =
                ground (arith, full, m.device.whole (d.start + offset / 512)) in
              ap (λ bs. read_loop fuel true dev d (size - c) (offset + c) (out ++ bs))
                (sym (take_all sec c w) ∙ ap (λ k. take c (drop k sec)) z ∙ part))
          | inr bounced ↦ rw (bounced, part) refl
        ])

  read_loop-bytes :
      (fuel size offset : ℕ) (out : List ℕ)
      → size < fuel
      → read_loop fuel true dev d size offset out
        ≡ some (out ++ bytes dev d offset (min size (inode_length d - offset)))
  unfolding read_loop bytes
  read_loop-bytes zero size offset out h = absurd (omega arith)
  read_loop-bytes (suc fuel) size offset out h = elim (Bool-cases (chunk_size d size offset == 0)) [
    | inl stop ↦
        let e : min size (inode_length d - offset) ≡ 0 =
          chunk_zero (inode_length d) size offset (ground arith) in
        rw (e, append-nil, stop) (elim (Bool-cases (size == 0)) [ inl z ↦ rw z | inr z ↦ rw z ])
    | inr more ↦
        let c = chunk_size d size offset in
        read_round fuel size offset out more
        ∙ read_loop-bytes fuel (size - c) (offset + c) (out ++ bytes dev d offset c)
            (ground (arith, more))
        ∙ ap some (
            append_assoc out _ _
            ∙ ap (λ l. out ++ l)
                (bytes-append dev d offset c _
                  ∙ ap (bytes dev d offset) (chunk_facts (inode_length d) size offset).0))
  ]

  -- `inode_read_at`, on an inode whose sectors lie on the device and with its bounce buffer
  -- allocated, fails no assertion and returns the bytes of the file from `offset` on, as many of
  -- `size` as there are before its end.
  pub read_at-bytes :
      (size offset : ℕ)
      → read_at true dev d size offset
        ≡ some (bytes dev d offset (min size (inode_length d - offset)))
  unfolding read_at
  read_at-bytes size offset = read_loop-bytes (size + 1) size offset [] (omega arith)
