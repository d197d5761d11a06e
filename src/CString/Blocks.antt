-- ===== src/CString/Blocks.antt =====
-- `memcpy` and `memmove` of string.c: what stands in memory behind them.
use cs162hwproj.Prelude.{
  ℕ, zero, suc, ◌+◌, ◌-◌, ◌≤◌, ◌≡◌, ◌≢◌, refl, ◌∙◌, true, not, ◌&&◌, ◌⊎◌, inl, inr, arith, ltb, leb,
  ◌==◌, if◌then◌else◌, Bool-cases,
}
use cs162hwproj.Prelude.Returns.{Returns, returns}
use cs162hwproj.CString.{Memory, put, copy_up, copy_down, memcpy, memmove}

-- The `size` bytes at `dst` are those that stood at `src`, and all others are as they were.
abbrev pub Moved : Memory → (dst src size : ℕ) → Memory → Type 0
Moved mem dst src size mem' =
    (a : ℕ) → mem' a ≡ (if leb dst a && ltb a (dst + size) then mem (src + (a - dst)) else mem a)

-- A block that is copied upwards is read before it is written, or apart from what is written.
abbrev pub IsReadFirst : (dst src size : ℕ) → Type 0
IsReadFirst dst src size = (dst ≤ src) ⊎ (src + size ≤ dst)

copy_up-Moved :
    (size dst src : ℕ) (mem : Memory)
    → IsReadFirst dst src size
    → Moved mem dst src size (copy_up size dst src mem).1
unfolding copy_up
copy_up-Moved zero dst src mem h a = ground arith
copy_up-Moved (suc size) dst src mem h a =
    let ih =
      copy_up-Moved size (dst + 1) (src + 1) (put mem dst (mem src))
        (elim h [ inl p ↦ inl (omega arith) | inr p ↦ inr (omega arith) ]) a in
    elim (Bool-cases (leb (dst + 1) a)) [
      | inl above ↦
          let e : src + 1 + (a - (dst + 1)) ≡ src + (a - dst) = ground arith in
          ih ∙ rw e (ground arith)
      | inr below ↦ elim (Bool-cases (a == dst)) [
        | inl own ↦ let e : src + (a - dst) ≡ src = ground arith in ih ∙ rw e (ground arith)
        | inr other ↦ ih ∙ ground arith
      ]
    ]

copy_down-Moved :
    (size dst src : ℕ) (mem : Memory)
    → src ≤ dst
    → Moved mem dst src size (copy_down size (dst + size) (src + size) mem).1
unfolding copy_down
copy_down-Moved zero dst src mem h a = ground arith
copy_down-Moved (suc size) dst src mem h a =
    let d : dst + suc size - 1 ≡ dst + size = omega arith in
    let e : src + suc size - 1 ≡ src + size = omega arith in
    let ih = copy_down-Moved size dst src (put mem (dst + size) (mem (src + size))) h a in
    rw (copy_down, d, e)
      (ih ∙ elim (Bool-cases (a == dst + size)) [
        | inl own ↦ let f : src + (a - dst) ≡ src + size = ground arith in rw f (ground arith)
        | inr other ↦ ground arith
      ])

copy_up-pointer : (size dst src : ℕ) (mem : Memory) → (copy_up size dst src mem).0 ≡ dst + size
unfolding copy_up
copy_up-pointer zero dst src mem = omega arith
copy_up-pointer (suc size) dst src mem =
    omega (arith, copy_up-pointer size (dst + 1) (src + 1) (put mem dst (mem src)))

copy_down-pointer :
    (size dst src : ℕ) (mem : Memory) → (copy_down size (dst + size) (src + size) mem).0 ≡ dst
unfolding copy_down
copy_down-pointer zero dst src mem = omega arith
copy_down-pointer (suc size) dst src mem =
    let d : dst + suc size - 1 ≡ dst + size = omega arith in
    let e : src + suc size - 1 ≡ src + size = omega arith in
    rw (copy_down, d, e) (copy_down-pointer size dst src (put mem (dst + size) (mem (src + size))))

-- `memcpy` between addresses that are not null, of blocks that do not overlap or of which the source
-- starts at the higher address, moves the block, changes no other byte and returns the destination.
pub memcpy-Moved :
    (dst src size : ℕ) (mem : Memory)
    → dst ≢ 0
    → src ≢ 0
    → IsReadFirst dst src size
    → Returns (λ (r, mem'). (r ≡ dst) × Moved mem dst src size mem') (memcpy dst src size mem)
unfolding memcpy
memcpy-Moved dst src size mem p q h =
    let a : not (dst == 0) ≡ true = ground arith in
    let b : not (src == 0) ≡ true = ground arith in
    rw (a, b) (returns (refl, copy_up-Moved size dst src mem h))

-- `memmove` between addresses that are not null moves the block and changes no other byte, however the
-- source and the destination overlap. It returns the destination when that is not below the source,
-- and the address behind the destination when it is below.
pub memmove-Moved :
    (dst src size : ℕ) (mem : Memory)
    → dst ≢ 0
    → src ≢ 0
    → Returns
        (λ (r, mem'). (r ≡ (if ltb dst src then dst + size else dst)) × Moved mem dst src size mem')
        (memmove dst src size mem)
unfolding memmove
memmove-Moved dst src size mem p q =
    let a : not (dst == 0) ≡ true = ground arith in
    let b : not (src == 0) ≡ true = ground arith in
    rw (a, b)
      (elim (Bool-cases (ltb dst src)) [
        | inl up ↦ rw up (
            returns (
              copy_up-pointer size dst src mem,
              copy_up-Moved size dst src mem (inl (ground arith)),
            ))
        | inr down ↦ rw down (
            returns
              (copy_down-pointer size dst src mem, copy_down-Moved size dst src mem (ground arith)))
      ])
