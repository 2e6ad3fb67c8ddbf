-- ===== src/Ring/RoundTrip.antt =====
-- What goes through the ring comes out again: RingCopy.hpp, both ways.
use jack_router.Common.{
  ℕ, ◌+◌, ◌-◌, ◌*◌, ◌^◌, ◌≤◌, ◌<◌, ◌≡◌, arith, inl, inr, ltb, ltb→lt, Bool-cases, some,
  if◌then◌else◌,
}
use jack_router.Common.Array.{Array, Filled, within}
use jack_router.Ring.{
  ring_write_stereo_interleaved, ring_read_stereo_interleaved, ring_consume_stereo_interleaved,
}
use jack_router.Ring.Copies.{
  interleave, Delivered, write_from-Filled, read_from-Delivered, consume_from-Delivered,
}

-- The caller's promise: the frames lie inside the ring and inside both port buffers.
pub record Fits (ring l r : Array) (offset n : ℕ) : Type 0 where
  pub in_ring : (offset + n) * 2 ≤ ring.size
  pub small : ring.size < 2 ^ 32
  pub in_left : n ≤ l.size
  pub in_right : n ≤ r.size

pub write_Filled :
    (ring : Array) (offset : ℕ) (l r : Array) (n : ℕ)
    → Fits ring l r offset n
    → (out : Array) × (ring_write_stereo_interleaved ring offset l r n ≡ some out)
      × Filled ring (offset * 2) (n * 2) (interleave l r 0) out
unfolding ring_write_stereo_interleaved
write_Filled ring offset l r n f =
    let (out, e, g) =
      write_from-Filled ring offset l r n 0 (omega arith) f.small (omega arith) (omega arith) in
    let z : offset + 0 ≡ offset = omega arith in (out, e, rw z at g)

pub read_Delivered :
    (ring : Array) (offset : ℕ) (l r : Array) (n : ℕ)
    → Fits ring l r offset n
    → (l' r' : Array) × (ring_read_stereo_interleaved ring offset l r n ≡ some (l', r'))
      × Delivered ring offset 0 n l r l' r'
unfolding ring_read_stereo_interleaved
read_Delivered ring offset l r n f =
    read_from-Delivered ring offset l r n 0 (omega arith) f.small (omega arith) (omega arith)

pub consume_Delivered :
    (ring : Array) (offset : ℕ) (l r : Array) (n : ℕ)
    → Fits ring l r offset n
    → (ring' l' r' : Array) × (ring_consume_stereo_interleaved ring offset l r n
        ≡ some (ring', l', r'))
      × Filled ring (offset * 2) (n * 2) (λ _. 0) ring'
      × Delivered ring offset 0 n l r l' r'
unfolding ring_consume_stereo_interleaved
consume_Delivered ring offset l r n f =
    let (ring', l', r', e, z, d) =
      consume_from-Delivered ring offset l r n 0 (omega arith) f.small (omega arith)
        (omega arith) in
    let k : offset + 0 ≡ offset = omega arith in (ring', l', r', e, rw k at z, d)

-- `b` has the first `n` cells of `a`, and the others of `old`.
abbrev pub Begins : ℕ → Array → Array → Array → Type 0
Begins n a old b = (j : ℕ) → b.cell j ≡ (if ltb j n then a.cell j else old.cell j)

delivered_left :
    (cell value : ℕ → ℕ) (l r : Array) (offset n j : ℕ)
    → ((k : ℕ)
        → cell k
          ≡ (if within (offset * 2) (n * 2) k then interleave l r 0 (k - offset * 2) else value k))
    → j < n
    → cell ((offset + 0 + j) * 2) ≡ l.cell j
delivered_left cell value l r offset n j h lt = ground (arith, h ((offset + 0 + j) * 2))

delivered_right :
    (cell value : ℕ → ℕ) (l r : Array) (offset n j : ℕ)
    → ((k : ℕ)
        → cell k
          ≡ (if within (offset * 2) (n * 2) k then interleave l r 0 (k - offset * 2) else value k))
    → j < n
    → cell ((offset + 0 + j) * 2 + 1) ≡ r.cell j
delivered_right cell value l r offset n j h lt = ground (arith, h ((offset + 0 + j) * 2 + 1))

begins :
    (a old b : Array) (n : ℕ) (value : ℕ → ℕ)
    → Filled old 0 n value b
    → ((j : ℕ) → j < n → value j ≡ a.cell j)
    → Begins n a old b
begins a old b n value f same j = elim (Bool-cases (ltb j n)) [
  | inl lt ↦ ground (arith, f.cells j, same j (ltb→lt j n lt))
  | inr ge ↦ ground (arith, f.cells j)
]

-- What the daemon writes into the ring and then consumes comes back in both channels.
pub consume-write :
    (ring l r l₀ r₀ : Array) (offset n : ℕ)
    → Fits ring l r offset n
    → n ≤ l₀.size
    → n ≤ r₀.size
    → (ring' ring'' l' r' : Array) × (ring_write_stereo_interleaved ring offset l r n ≡ some ring')
      × (ring_consume_stereo_interleaved ring' offset l₀ r₀ n ≡ some (ring'', l', r'))
      × Begins n l l₀ l'
      × Begins n r r₀ r'
      × ((k : ℕ) → ring''.cell k ≡ (if within (offset * 2) (n * 2) k then 0 else ring.cell k))
consume-write ring l r l₀ r₀ offset n f hl hr =
    let (ring', e, w) = write_Filled ring offset l r n f in
    let (ring'', l', r', e', z, d) = consume_Delivered ring' offset l₀ r₀ n (record {
      in_ring = omega (arith, w.same_size, f.in_ring);
      small = omega (arith, w.same_size, f.small);
      in_left = hl;
      in_right = hr;
    }) in
    (
      ring',
      ring'',
      l',
      r',
      e,
      e',
      begins l l₀ l' n _ d.left
          (λ j lt. delivered_left ring'.cell ring.cell l r offset n j w.cells lt),
      begins r r₀ r' n _ d.right
          (λ j lt. delivered_right ring'.cell ring.cell l r offset n j w.cells lt),
      (λ k. ground (arith, z.cells k, w.cells k)),
    )
