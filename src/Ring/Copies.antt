-- ===== src/Ring/Copies.antt =====
-- What the copies of RingCopy.hpp do to the ring and to the port buffers.
use jack_router.Common.{
  ℕ, zero, suc, ◌+◌, ◌*◌, ◌/◌, ◌%◌, ◌^◌, ◌≤◌, ◌<◌, ◌≡◌, refl, arith, some, ◌==◌, if◌then◌else◌,
}
use jack_router.Common.Array.{
  Array, Sample, update, load-some, store-some, Filled, Filled-none, Filled-suc, Filled-pair,
}
use jack_router.Ring.{slot, write_from, read_from, consume_from}

-- In range the index arithmetic of `uint32_t` does not wrap.
slot_left : (offset i : ℕ) → (offset + i + 1) * 2 < 2 ^ 32 → slot offset i 0 ≡ (offset + i) * 2
slot_left offset i h = omega arith

slot_right : (offset i : ℕ) → (offset + i + 1) * 2 < 2 ^ 32 → slot offset i 1 ≡ (offset + i) * 2 + 1
slot_right offset i h = omega arith

-- Two channels as one run of samples, left first, from frame `i` on.
abbrev pub interleave : Array → Array → ℕ → ℕ → Sample
interleave l r i k = if k % 2 == 0 then l.cell (i + k / 2) else r.cell (i + k / 2)

interleave_left : (l r : Array) (i : ℕ) → l.cell i ≡ interleave l r i 0
interleave_left l r i = ground arith

interleave_right : (l r : Array) (i : ℕ) → r.cell i ≡ interleave l r i 1
interleave_right l r i = ground arith

interleave_next : (l r : Array) (i j : ℕ) → interleave l r (i + 1) j ≡ interleave l r i (j + 2)
interleave_next l r i j = ground arith

pub write_from-Filled :
    (ring : Array) (offset : ℕ) (l r : Array) (n i : ℕ)
    → (offset + i + n) * 2 ≤ ring.size
    → ring.size < 2 ^ 32
    → i + n ≤ l.size
    → i + n ≤ r.size
    → (out : Array) × (write_from ring offset l r n i ≡ some out)
      × Filled ring ((offset + i) * 2) (n * 2) (interleave l r i) out
unfolding write_from
write_from-Filled ring offset l r zero i hr hs hl hr' = (ring, refl, Filled-none ring _ _)
write_from-Filled ring offset l r (suc n) i h small hl hr =
    let d = (offset + i) * 2 in
    let ring' : Array = record ring {
      cell = update (update ring.cell d (l.cell i)) (d + 1) (r.cell i);
    } in
    let (out, e, f) =
      write_from-Filled ring' offset l r n (i + 1) (omega arith) small (omega arith)
        (omega arith) in
    (
      out,
      rw
          (
            load-some l i (omega arith),
            slot_left offset i (omega arith),
            store-some ring d (l.cell i) (omega arith),
            load-some r i (omega arith),
            slot_right offset i (omega arith),
            store-some (record ring { cell = update ring.cell d (l.cell i) }) (d + 1) (r.cell i)
                (omega arith),
          )
          e,
      Filled-pair (omega arith) (omega arith) (interleave_left l r i) (interleave_right l r i)
          (interleave_next l r i) f,
    )

-- What a copy of `n` frames out of the ring puts into the two port buffers, from index `i` on.
pub record Delivered (ring : Array) (offset i n : ℕ) (l r l' r' : Array) : Type 0 where
  pub left : Filled l i n (λ j. ring.cell ((offset + i + j) * 2)) l'
  pub right : Filled r i n (λ j. ring.cell ((offset + i + j) * 2 + 1)) r'

ahead_left :
    (cell : ℕ → Sample) (o i j : ℕ) → cell ((o + (i + 1) + j) * 2) ≡ cell ((o + i + (j + 1)) * 2)
ahead_left cell o i j = ground arith

ahead_right :
    (cell : ℕ → Sample) (o i j : ℕ)
    → cell ((o + (i + 1) + j) * 2 + 1) ≡ cell ((o + i + (j + 1)) * 2 + 1)
ahead_right cell o i j = ground arith

at_left : (cell : ℕ → Sample) (o i : ℕ) → cell ((o + i) * 2) ≡ cell ((o + i + 0) * 2)
at_left cell o i = ground arith

at_right : (cell : ℕ → Sample) (o i : ℕ) → cell ((o + i) * 2 + 1) ≡ cell ((o + i + 0) * 2 + 1)
at_right cell o i = ground arith

pub read_from-Delivered :
    (ring : Array) (offset : ℕ) (l r : Array) (n i : ℕ)
    → (offset + i + n) * 2 ≤ ring.size
    → ring.size < 2 ^ 32
    → i + n ≤ l.size
    → i + n ≤ r.size
    → (l' r' : Array) × (read_from ring offset l r n i ≡ some (l', r'))
      × Delivered ring offset i n l r l' r'
unfolding read_from
read_from-Delivered ring offset l r zero i h small hl hr =
    (l, r, refl, record { left = Filled-none l i _; right = Filled-none r i _ })
read_from-Delivered ring offset l r (suc n) i h small hl hr =
    let d = (offset + i) * 2 in
    let (l', r', e, f) =
      read_from-Delivered ring offset (record l { cell = update l.cell i (ring.cell d) })
        (record r { cell = update r.cell i (ring.cell (d + 1)) }) n (i + 1) (omega arith) small
        (omega arith) (omega arith) in
    (
      l',
      r',
      rw
          (
            slot_left offset i (omega arith),
            load-some ring d (omega arith),
            store-some l i (ring.cell d) (omega arith),
            slot_right offset i (omega arith),
            load-some ring (d + 1) (omega arith),
            store-some r i (ring.cell (d + 1)) (omega arith),
          )
          e,
      record {
        left = Filled-suc (at_left ring.cell offset i) (ahead_left ring.cell offset i) f.left;
        right = Filled-suc (at_right ring.cell offset i) (ahead_right ring.cell offset i) f.right;
      },
    )

-- The frame just zeroed is not read again.
kept_left :
    (cell : ℕ → Sample) (o i j : ℕ)
    → update (update cell ((o + i) * 2) 0) ((o + i) * 2 + 1) 0 ((o + (i + 1) + j) * 2)
      ≡ cell ((o + i + (j + 1)) * 2)
kept_left cell o i j = ground (arith, ahead_left cell o i j)

kept_right :
    (cell : ℕ → Sample) (o i j : ℕ)
    → update (update cell ((o + i) * 2) 0) ((o + i) * 2 + 1) 0 ((o + (i + 1) + j) * 2 + 1)
      ≡ cell ((o + i + (j + 1)) * 2 + 1)
kept_right cell o i j = ground (arith, ahead_right cell o i j)

pub consume_from-Delivered :
    (ring : Array) (offset : ℕ) (l r : Array) (n i : ℕ)
    → (offset + i + n) * 2 ≤ ring.size
    → ring.size < 2 ^ 32
    → i + n ≤ l.size
    → i + n ≤ r.size
    → (ring' l' r' : Array) × (consume_from ring offset l r n i ≡ some (ring', l', r'))
      × Filled ring ((offset + i) * 2) (n * 2) (λ _. 0) ring'
      × Delivered ring offset i n l r l' r'
unfolding consume_from
consume_from-Delivered ring offset l r zero i h small hl hr = (
  ring,
  l,
  r,
  refl,
  Filled-none ring _ _,
  record { left = Filled-none l i _; right = Filled-none r i _ },
)
consume_from-Delivered ring offset l r (suc n) i h small hl hr =
    let d = (offset + i) * 2 in
    let first : Array = record ring { cell = update ring.cell d 0 } in
    let both : Array = record ring { cell = update (update ring.cell d 0) (d + 1) 0 } in
    let (ring', l', r', e, z, f) =
      consume_from-Delivered both offset (record l { cell = update l.cell i (ring.cell d) })
        (record r { cell = update r.cell i (ring.cell (d + 1)) }) n (i + 1) (omega arith) small
        (omega arith) (omega arith) in
    (
      ring',
      l',
      r',
      rw
          (
            slot_left offset i (omega arith),
            load-some ring d (omega arith),
            store-some l i (ring.cell d) (omega arith),
            slot_right offset i (omega arith),
            load-some ring (d + 1) (omega arith),
            store-some r i (ring.cell (d + 1)) (omega arith),
            store-some ring d 0 (omega arith),
            store-some first (d + 1) 0 (omega arith),
          )
          e,
      Filled-pair (omega arith) (omega arith) refl refl (λ j. refl) z,
      record {
        left = Filled-suc (at_left ring.cell offset i) (kept_left ring.cell offset i) f.left;
        right = Filled-suc (at_right ring.cell offset i) (kept_right ring.cell offset i) f.right;
      },
    )
