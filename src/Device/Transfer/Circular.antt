-- ===== src/Device/Transfer/Circular.antt =====
-- The copies in two parts are one copy round the ring.
use jack_router.Common.{
  ℕ, ◌+◌, ◌-◌, ◌*◌, ◌%◌, ◌≤◌, ◌<◌, ◌≡◌, arith, true, false, ◌&&◌, ltb, lt→ltb, u32, if◌then◌else◌,
  some, inl, inr, Bool-cases,
}
use jack_router.Common.Array.{Array, Filled, within, memcpy-Filled}
use jack_router.Device.Transfer.{spans, copy_out, copy_in, samples}

spans_wrap :
    (t n : ℕ)
    → n ≤ 4096
    → ltb 4096 (t % 4096 + n) ≡ true
    → spans 4096 t n
      ≡ record { offset = t % 4096; first = 4096 - t % 4096; second = t % 4096 + n - 4096 }
spans_wrap t n h w = ground arith

spans_fit :
    (t n : ℕ)
    → n ≤ 4096
    → ltb 4096 (t % 4096 + n) ≡ false
    → spans 4096 t n ≡ record { offset = t % 4096; first = n; second = 0 }
spans_fit t n h w = ground arith

samples_small : (a : ℕ) → a ≤ 4096 → samples a ≡ a * 2
samples_small a h = omega arith

double_small : (o : ℕ) → o ≤ 4096 → u32 (o * 2) ≡ o * 2
double_small o h = omega arith

-- A ring of 4096 stereo frames, a buffer with room for `n` frames of it, and a time.
pub record IsTransfer (ring buffer : Array) (n : ℕ) : Type 0 where
  pub ring_size : ring.size ≡ 8192
  pub frames_fit : n ≤ 4096
  pub buffer_fits : n * 2 ≤ buffer.size

-- What one part, and both parts, put into the buffer.
copy_out_one :
    (ring out : Array) (o a : ℕ)
    → o + a ≤ 4096
    → ring.size ≡ 8192
    → a * 2 ≤ out.size
    → (out' : Array) × (copy_out ring out (record { offset = o; first = a; second = 0 })
        ≡ some out')
      × Filled out 0 (a * 2) (λ k. ring.cell (o * 2 + k)) out'
unfolding copy_out
copy_out_one ring out o a h z b =
    let (out', e, f) = memcpy-Filled out 0 ring (o * 2) (a * 2) (omega arith) (omega arith) in
    (out', rw (samples_small a (omega arith), double_small o (omega arith), e), f)

copy_out_two :
    (ring out : Array) (o a b : ℕ)
    → o + a ≡ 4096
    → b ≤ 4096
    → 0 < b
    → ring.size ≡ 8192
    → a * 2 + b * 2 ≤ out.size
    → (out' : Array) × (copy_out ring out (record { offset = o; first = a; second = b })
        ≡ some out')
      × ((k : ℕ)
          → out'.cell k ≡ (
              if within (a * 2) (b * 2) k
              then ring.cell (k - a * 2)
              else if within 0 (a * 2) k
              then ring.cell (o * 2 + k)
              else out.cell k))
unfolding copy_out
copy_out_two ring out o a b h hb pos z size =
    let (out₁, e₁, f₁) = memcpy-Filled out 0 ring (o * 2) (a * 2) (omega arith) (omega arith) in
    let (out₂, e₂, f₂) =
      memcpy-Filled out₁ (a * 2) ring 0 (b * 2) (omega (arith, f₁.same_size)) (omega arith) in
    (
      out₂,
      rw
          (
            samples_small a (omega arith),
            double_small o (omega arith),
            e₁,
            lt→ltb 0 b pos,
            samples_small b hb,
          )
          e₂,
      λ k. ground (arith, f₂.cells k, f₁.cells k),
    )

-- Reading `n` frames from time `t` on delivers the samples round the ring, in order: the `k`th is the
-- ring's sample number `2 t + k`, modulo 8192; what lies behind the `n` frames is left alone.
pub copy_out_circular :
    (ring out : Array) (t n : ℕ)
    → IsTransfer ring out n
    → (out' : Array) × (copy_out ring out (spans 4096 t n) ≡ some out')
      × ((k : ℕ)
          → out'.cell k ≡ (if ltb k (n * 2) then ring.cell ((t * 2 + k) % 8192) else out.cell k))
unfolding copy_out
copy_out_circular ring out t n v = elim (Bool-cases (ltb 4096 (t % 4096 + n))) [
  | inl wraps ↦
      let (out', e, f) =
        copy_out_two ring out (t % 4096) (4096 - t % 4096) (t % 4096 + n - 4096) (omega arith)
          (omega (arith, v.frames_fit)) (ground arith) v.ring_size
          (ground (arith, v.buffer_fits)) in
      (out', rw (spans_wrap t n v.frames_fit wraps) e, λ k. ground (arith, f k))
  | inr fits ↦
      let (out', e, f) =
        copy_out_one ring out (t % 4096) n (ground arith) v.ring_size v.buffer_fits in
      (out', rw (spans_fit t n v.frames_fit fits) e, λ k. ground (arith, f.cells k))
]

copy_in_one :
    (ring buffer : Array) (o a : ℕ)
    → o + a ≤ 4096
    → ring.size ≡ 8192
    → a * 2 ≤ buffer.size
    → (ring' : Array) × (copy_in ring buffer (record { offset = o; first = a; second = 0 })
        ≡ some ring')
      × Filled ring (o * 2) (a * 2) (λ k. buffer.cell (0 + k)) ring'
unfolding copy_in
copy_in_one ring buffer o a h z b =
    let (ring', e, f) = memcpy-Filled ring (o * 2) buffer 0 (a * 2) (omega arith) (omega arith) in
    (ring', rw (samples_small a (omega arith), double_small o (omega arith), e), f)

copy_in_two :
    (ring buffer : Array) (o a b : ℕ)
    → o + a ≡ 4096
    → b ≤ 4096
    → 0 < b
    → ring.size ≡ 8192
    → a * 2 + b * 2 ≤ buffer.size
    → (ring' : Array) × (copy_in ring buffer (record { offset = o; first = a; second = b })
        ≡ some ring')
      × (ring'.size ≡ ring.size)
      × ((k : ℕ)
          → ring'.cell k ≡ (
              if within 0 (b * 2) k
              then buffer.cell (a * 2 + k)
              else if within (o * 2) (a * 2) k
              then buffer.cell (k - o * 2)
              else ring.cell k))
unfolding copy_in
copy_in_two ring buffer o a b h hb pos z size =
    let (ring₁, e₁, f₁) = memcpy-Filled ring (o * 2) buffer 0 (a * 2) (omega arith) (omega arith) in
    let (ring₂, e₂, f₂) =
      memcpy-Filled ring₁ 0 buffer (a * 2) (b * 2) (omega (arith, f₁.same_size)) (omega arith) in
    (
      ring₂,
      rw
          (
            samples_small a (omega arith),
            double_small o (omega arith),
            e₁,
            lt→ltb 0 b pos,
            samples_small b hb,
          )
          e₂,
      omega (arith, f₁.same_size, f₂.same_size),
      λ k. ground (arith, f₂.cells k, f₁.cells k),
    )

-- How far a cell of the ring lies behind the one of time `t`, going round.
abbrev pub behind : ℕ → ℕ → ℕ
behind t k = (k + 8192 - t * 2 % 8192) % 8192

-- Writing `n` frames at time `t` puts the buffer round the ring: a cell of the ring that lies `j`
-- samples behind time `t` gets the buffer's sample `j` if `j < 2 n`, and keeps its own otherwise.
pub copy_in_circular :
    (ring buffer : Array) (t n : ℕ)
    → IsTransfer ring buffer n
    → (ring' : Array) × (copy_in ring buffer (spans 4096 t n) ≡ some ring')
      × (ring'.size ≡ ring.size)
      × ((k : ℕ)
          → ring'.cell k ≡ (
              if ltb k 8192 && ltb (behind t k) (n * 2)
              then buffer.cell (behind t k)
              else ring.cell k))
unfolding copy_in
copy_in_circular ring buffer t n v = elim (Bool-cases (ltb 4096 (t % 4096 + n))) [
  | inl wraps ↦
      let (ring', e, z, f) =
        copy_in_two ring buffer (t % 4096) (4096 - t % 4096) (t % 4096 + n - 4096) (omega arith)
          (omega (arith, v.frames_fit)) (ground arith) v.ring_size
          (ground (arith, v.buffer_fits)) in
      (ring', rw (spans_wrap t n v.frames_fit wraps) e, z, λ k. ground (arith, f k))
  | inr fits ↦
      let (ring', e, f) =
        copy_in_one ring buffer (t % 4096) n (ground arith) v.ring_size v.buffer_fits in
      (ring', rw (spans_fit t n v.frames_fit fits) e, f.same_size, λ k. ground (arith, f.cells k))
]
