-- ===== src/Bitmap/Scan.antt =====
-- The searches of bitmap.c: counting, containment, and the first group of equal bits.
use cs162hwproj.Prelude.{
  ℕ, zero, suc, ◌+◌, ◌-◌, ◌≤◌, ◌<◌, ◌≡◌, refl, ap, ◌∙◌, Bool, true, false, not, some, arith, leb,
  ◌==◌, same, if◌then◌else◌, inl, inr, ◌⊎◌, Bool-cases, ◌>>=◌, le→leb, leb→le, sym,
}
use cs162hwproj.Prelude.Returns
use cs162hwproj.Prelude.Returns.{Returns, returns}
use cs162hwproj.Bitmap.{
  Bitmap, bitmap_error, add_size, count_loop, count, contains_loop, contains, scan_loop, scan,
  set_multiple, scan_and_flip,
}
use cs162hwproj.Bitmap.Bit.{bit_at, IsValid, test-bit_at}
use cs162hwproj.Bitmap.Range.{Sets, assert_range-pass, set_multiple-Sets}

-- The number of the `n` bits from `lo` on that are `value`.
pub tally : Bitmap → ℕ → Bool → ℕ → ℕ
tally b lo value zero = 0
tally b lo value (suc n) = (if same (bit_at b lo) value then 1 else 0) + tally b (lo + 1) value n

module _ {b : Bitmap} (value : Bool) (v : IsValid b) where
  count_loop-tally :
      (n i start acc : ℕ)
      → start + (i + n) ≤ b.bit_cnt
      → count_loop n i start value b acc ≡ some (acc + tally b (start + i) value n)
  unfolding count_loop tally
  count_loop-tally zero i start acc h = ap some (omega arith)
  count_loop-tally (suc n) i start acc h =
      let e : add_size start i ≡ start + i = omega arith in
      let f : start + (i + 1) ≡ start + i + 1 = omega arith in
      rw
        (
          e,
          test-bit_at (start + i) v (omega arith),
          count_loop-tally n (i + 1) start
              (if same (bit_at b (start + i)) value then acc + 1 else acc) (omega arith),
          f,
        )
        (ap some (ground arith))

  -- On a valid bitmap and a range inside it, `bitmap_count` fails no assertion and returns the
  -- number of the range's bits that are `value`.
  pub count-tally :
      (start cnt : ℕ)
      → start + cnt ≤ b.bit_cnt
      → count b start cnt value ≡ some (tally b start value cnt)
  unfolding count
  count-tally start cnt h =
      let f : start + 0 ≡ start = omega arith in
      rw (assert_range-pass start cnt v h, count_loop-tally cnt 0 start 0 (omega arith), f)
        (ap some (omega arith))

pub tally_split : (b : Bitmap) (lo n : ℕ) → tally b lo true n + tally b lo false n ≡ n
unfolding tally
tally_split b lo zero = refl
tally_split b lo (suc n) = ground (arith, tally_split b (lo + 1) n)

-- What `c` says of the bits from `lo` up to `hi`.
pub record Holds (b : Bitmap) (lo hi : ℕ) (value c : Bool) : Type 0 where
  pub found : c ≡ true → (j : ℕ) × (lo ≤ j) × (j < hi) × (bit_at b j ≡ value)
  pub absent : c ≡ false → (j : ℕ) → lo ≤ j → j < hi → bit_at b j ≡ not value

module _ {b : Bitmap} (value : Bool) (v : IsValid b) where
  contains_loop-Holds :
      (n i start : ℕ)
      → start + (i + n) ≤ b.bit_cnt
      → Returns (Holds b (start + i) (start + i + n) value) (contains_loop n i start value b)
  unfolding contains_loop
  contains_loop-Holds zero i start h =
      returns (record { found = λ e. cc; absent = λ e j p q. absurd (omega arith) })
  contains_loop-Holds (suc n) i start h =
      let e : add_size start i ≡ start + i = omega arith in
      rw (e, test-bit_at (start + i) v (omega arith))
        (elim (Bool-cases (same (bit_at b (start + i)) value)) [
          | inl hit ↦ rw hit (
              returns (record {
                found = λ _. (start + i, omega arith, omega arith, ground arith);
                absent = λ f. cc;
              }))
          | inr miss ↦ rw miss (
              Returns.mono (contains_loop-Holds n (i + 1) start (omega arith)) λ c r. record {
                found = λ f. let (j, p, q, eq) = r.found f in (j, omega arith, omega arith, eq);
                absent = λ f j p q. elim (Bool-cases (j == start + i)) [
                  | inl same_j ↦ ground arith
                  | inr other ↦ r.absent f j (ground arith) (omega arith)
                ];
              })
        ])

  -- On a valid bitmap and a range inside it, `bitmap_contains` fails no assertion. If it returns
  -- true, a bit of the range is `value`; if it returns false, all of them are `not value`.
  pub contains-Holds :
      (start cnt : ℕ)
      → start + cnt ≤ b.bit_cnt
      → Returns (Holds b start (start + cnt) value) (contains b start cnt value)
  unfolding contains
  contains-Holds start cnt h = rw (assert_range-pass start cnt v h) (
      Returns.mono (contains_loop-Holds cnt 0 start (omega arith)) λ c r. record {
        found = λ f. let (j, p, q, eq) = r.found f in (j, omega arith, omega arith, eq);
        absent = λ f j p q. r.absent f j (omega arith) (omega arith);
      })

-- The `cnt` bits from `i` on lie in the bitmap and are all `value`.
pub record Group (b : Bitmap) (cnt : ℕ) (value : Bool) (i : ℕ) : Type 0 where
  pub inside : i + cnt ≤ b.bit_cnt
  pub equal : (j : ℕ) → i ≤ j → j < i + cnt → bit_at b j ≡ value

-- The answer `idx` of a search for a group from `start` on: the first group, or none at all.
pub data Scanned (b : Bitmap) (start cnt : ℕ) (value : Bool) (idx : ℕ) : Type 0 where
  found :
      start ≤ idx
      → Group b cnt value idx
      → ((k : ℕ) → start ≤ k → k < idx → ¬ Group b cnt value k)
      → Scanned b start cnt value idx
  absent :
      idx ≡ bitmap_error
      → ((k : ℕ) → start ≤ k → ¬ Group b cnt value k)
      → Scanned b start cnt value idx

not-not : (x : Bool) → not (not x) ≡ x
not-not true = refl
not-not false = refl

not-ne : (x : Bool) → x ≡ not x → ⊥
not-ne true e = cc
not-ne false e = cc

module _ {b : Bitmap} {cnt : ℕ} {value : Bool} (v : IsValid b) where
  -- One more start that is not a group's leaves the answer as it is.
  Scanned-step :
      {start idx : ℕ}
      → ¬ Group b cnt value start
      → Scanned b (start + 1) cnt value idx
      → Scanned b start cnt value idx
  Scanned-step {start} no_group (found p g first) = found (omega arith) g λ k q r h.
      elim (Bool-cases (k == start)) [
        | inl e ↦ no_group (let e' : k ≡ start = ground arith in rw (← e') h)
        | inr e ↦ first k (ground arith) r h
      ]
  Scanned-step {start} no_group (absent e all) = absent e λ k q h. elim (Bool-cases (k == start)) [
    | inl e ↦ no_group (let e' : k ≡ start = ground arith in rw (← e') h)
    | inr e ↦ all k (ground arith) h
  ]

  scan_loop-Scanned :
      (n i : ℕ)
      → i + n ≡ b.bit_cnt - cnt + 1
      → cnt ≤ b.bit_cnt
      → Returns (Scanned b i cnt value) (scan_loop n i cnt value b)
  unfolding scan_loop
  scan_loop-Scanned zero i e h = returns (absent refl λ k p g. absurd (omega (arith, g.inside)))
  scan_loop-Scanned (suc n) i e h =
      Returns.bind (contains-Holds (not value) v i cnt (omega arith)) λ c r. elim (Bool-cases c) [
        | inl hit ↦ rw hit (
            Returns.mono (scan_loop-Scanned n (i + 1) (omega arith) h) λ idx s.
              Scanned-step
                (λ g. let (j, p, q, f) = r.found hit in not-ne value (sym (g.equal j p q) ∙ f)) s)
        | inr miss ↦ rw miss (
            returns (
              found (omega arith)
                (record {
                  inside = omega arith;
                  equal = λ j p q. r.absent miss j p q ∙ not-not value;
                })
                λ k p q g. absurd (omega arith)))
      ]

  -- On a valid bitmap, with `start` at most its size, `bitmap_scan` fails no assertion. It returns
  -- the index of the first group of `cnt` bits equal to `value` at or after `start`, or, if there
  -- is no such group, `BITMAP_ERROR`.
  pub scan-Scanned :
      (start : ℕ) → start ≤ b.bit_cnt → Returns (Scanned b start cnt value) (scan b start cnt value)
  unfolding scan
  scan-Scanned start h = rw (le→leb start b.bit_cnt h) (elim (Bool-cases (leb cnt b.bit_cnt)) [
    | inl fits ↦ rw fits (
        late
          (elim (Bool-cases (leb start (b.bit_cnt - cnt))) [
            | inl p ↦ inl (ground arith)
            | inr p ↦ inr (ground arith)
          ])
          (leb→le cnt b.bit_cnt fits))
    | inr big ↦ rw big (returns (absent refl λ k p g. absurd (ground (arith, g.inside))))
  ])
    where
      late :
          (start ≤ b.bit_cnt - cnt) ⊎ (b.bit_cnt - cnt < start)
          → cnt ≤ b.bit_cnt
          → Returns
              (Scanned b start cnt value)
              (scan_loop (b.bit_cnt - cnt + 1 - start) start cnt value b)
      late (inl p) fits = scan_loop-Scanned _ start (omega arith) fits
      late (inr p) fits =
          let e : b.bit_cnt - cnt + 1 - start ≡ 0 = omega arith in
          rw (e, scan_loop) (returns (absent refl λ k q g. absurd (omega (arith, g.inside))))

-- What `bitmap_scan_and_flip` did: either the first group is now all `not value`, or there is none
-- and nothing changed.
pub data Flipped (b : Bitmap) (start cnt : ℕ) (value : Bool) (idx : ℕ) (b' : Bitmap) : Type 0 where
  found :
      start ≤ idx
      → Group b cnt value idx
      → ((k : ℕ) → start ≤ k → k < idx → ¬ Group b cnt value k)
      → Sets b idx (idx + cnt) (not value) b'
      → Flipped b start cnt value idx b'
  absent :
      idx ≡ bitmap_error
      → b' ≡ b
      → ((k : ℕ) → start ≤ k → ¬ Group b cnt value k)
      → Flipped b start cnt value idx b'

module _ {b : Bitmap} {cnt : ℕ} {value : Bool} (v : IsValid b) where
  -- On a valid bitmap, with `start` at most its size, `bitmap_scan_and_flip` fails no assertion.
  -- Either it returns the index of the first group of `cnt` bits equal to `value` at or after
  -- `start`, and exactly the bits of that group are now `not value`; or no such group exists, it
  -- returns `BITMAP_ERROR`, and the bitmap is as it was. For a `cnt` of 0 the first group is the one at `start`.
  pub scan_and_flip-Flipped :
      (start : ℕ)
      → start ≤ b.bit_cnt
      → Returns (λ (idx, b'). Flipped b start cnt value idx b') (scan_and_flip b start cnt value)
  unfolding scan_and_flip
  scan_and_flip-Flipped start h = Returns.bind (scan-Scanned v start h) answer
    where
      answer :
          (idx : ℕ)
          → Scanned b start cnt value idx
          → Returns
              (λ (idx, b'). Flipped b start cnt value idx b')
              (if idx == bitmap_error
                then some (idx, b)
                else (set_multiple b idx cnt (not value) >>= λ b'. some (idx, b')))
      answer idx (absent e all) = rw e (returns (absent refl refl all))
      answer idx (found p g first) =
          let ne : (idx == bitmap_error) ≡ false = ground (arith, g.inside, v.small) in
          rw ne (
            Returns.bind (set_multiple-Sets idx cnt (not value) v g.inside)
              λ b' s. returns (found p g first s))
