-- ===== src/Common/Array.antt =====
-- C arrays of samples: a size, and the cells. A sample is its 32-bit pattern, and is only moved,
-- never computed with; the pattern of 0.0f is 0.
use Prim.Native.Nat.{ℕ, zero, suc, ◌+◌, ◌-◌, ◌≤◌, ◌<◌}
use mathlib.Core.Path.{◌≡◌, refl, ◌∙◌}
use mathlib.Core.Bool.{Bool, ◌&&◌}
use mathlib.Core.Option.{Option, none, some}
use native.Mathlib.Omega.{arith}
use jack_router.Common.Tests.{ltb, leb, ◌==◌, if◌then◌else◌}
use jack_router.Common.Maybe.{◌>>=◌}

abbrev pub Sample : Type 0
Sample = ℕ

abbrev pub update {ℓ} : {A : Type ℓ} → (ℕ → A) → ℕ → A → ℕ → A
update f i v j = if i == j then v else f j

pub record Array : Type 0 where
  pub size : ℕ
  pub cell : ℕ → Sample

-- Out of bounds, reads and writes fault.
unfoldable pub load : Array → ℕ → Option Sample
load a i = if ltb i a.size then some (a.cell i) else none

unfoldable pub store : Array → ℕ → Sample → Option Array
store a i v = if ltb i a.size then some (record a { cell = update a.cell i v }) else none

-- `memcpy` of `n` samples, from `src[s]` on to `dst[d]` on.
unfoldable pub memcpy : Array → ℕ → Array → ℕ → ℕ → Option Array
unfolding load store
memcpy dst d src s zero = some dst
memcpy dst d src s (suc n) = do
  v ← load src s
  dst' ← store dst d v
  memcpy dst' (d + 1) src (s + 1) n

-- `bzero` of `n` samples, from `dst[d]` on.
unfoldable pub bzero : Array → ℕ → ℕ → Option Array
unfolding store
bzero dst d zero = some dst
bzero dst d (suc n) = do dst' ← store dst d 0; bzero dst' (d + 1) n

abbrev pub within : ℕ → ℕ → ℕ → Bool
within d n k = leb d k && ltb k (d + n)

-- What an array holds after `n` cells from `d` on were filled, the rest kept.
pub record Filled (dst : Array) (d n : ℕ) (value : ℕ → Sample) (out : Array) : Type 0 where
  pub same_size : out.size ≡ dst.size
  pub cells : (k : ℕ) → out.cell k ≡ (if within d n k then value (k - d) else dst.cell k)

pub load-some : (a : Array) (i : ℕ) → i < a.size → load a i ≡ some (a.cell i)
unfolding load
load-some a i h = ground arith

pub store-some :
    (a : Array) (i : ℕ) (v : Sample)
    → i < a.size
    → store a i v ≡ some (record a { cell = update a.cell i v })
unfolding store
store-some a i v h = ground arith

pub store-out_of_bounds : (a : Array) (i : ℕ) (v : Sample) → a.size ≤ i → store a i v ≡ none
unfolding store
store-out_of_bounds a i v h = ground arith

pub Filled-none : (dst : Array) (d : ℕ) (value : ℕ → Sample) → Filled dst d 0 value dst
Filled-none dst d value = record { same_size = refl; cells = λ k. ground arith }

filled_cell :
    (dst : Array) (d n k : ℕ) (v : Sample) (value later : ℕ → Sample)
    → v ≡ value 0
    → later (k - (d + 1)) ≡ value (k - (d + 1) + 1)
    → (if within (d + 1) n k then later (k - (d + 1)) else update dst.cell d v k)
      ≡ (if within d (suc n) k then value (k - d) else dst.cell k)
filled_cell dst d n k v value later e g = ground arith

-- One more cell in front: how each of the loops below goes round.
pub Filled-suc :
    {dst out : Array} {d n : ℕ} {v : Sample} {value later : ℕ → Sample}
    → v ≡ value 0
    → ((j : ℕ) → later j ≡ value (j + 1))
    → Filled (record dst { cell = update dst.cell d v }) (d + 1) n later out
    → Filled dst d (suc n) value out
Filled-suc {dst} {out} {d} {n} {v} {value} {later} e g f = record {
  same_size = f.same_size;
  cells = λ k. f.cells k ∙ filled_cell dst d n k v value later e (g (k - (d + 1)));
}

pair_cell :
    (dst : Array) (d n k a b : ℕ) (value later : ℕ → Sample)
    → a ≡ value 0
    → b ≡ value 1
    → later (k - (d + 2)) ≡ value (k - (d + 2) + 2)
    → (if within (d + 2) n k then later (k - (d + 2)) else update (update dst.cell d a) (d + 1) b k)
      ≡ (if within d (n + 2) k then value (k - d) else dst.cell k)
pair_cell dst d n k a b value later e f g = ground arith

-- Two more cells in front, a stereo frame.
pub Filled-pair :
    {dst out : Array} {d n d' n' a b : ℕ} {value later : ℕ → Sample}
    → d' ≡ d + 2
    → n' ≡ n + 2
    → a ≡ value 0
    → b ≡ value 1
    → ((j : ℕ) → later j ≡ value (j + 2))
    → Filled (record dst { cell = update (update dst.cell d a) (d + 1) b }) d' n later out
    → Filled dst d n' value out
Filled-pair {dst} {out} {d} {n} {d'} {n'} {a} {b} {value} {later} ed en e0 e1 g f = record {
  same_size = f.same_size;
  cells =
      λ k. rw en (f.cells k ∙ rw ed (pair_cell dst d n k a b value later e0 e1 (g (k - (d + 2)))));
}

first_cell : (src : Array) (s : ℕ) → src.cell s ≡ src.cell (s + 0)
first_cell src s = ground arith

next_cell : (src : Array) (s j : ℕ) → src.cell (s + 1 + j) ≡ src.cell (s + (j + 1))
next_cell src s j = ground arith

-- `memcpy` between ranges that lie inside the arrays succeeds, and copies exactly that range.
pub memcpy-Filled :
    (dst : Array) (d : ℕ) (src : Array) (s n : ℕ)
    → d + n ≤ dst.size
    → s + n ≤ src.size
    → (out : Array) × (memcpy dst d src s n ≡ some out) × Filled dst d n (λ k. src.cell (s + k)) out
unfolding memcpy
memcpy-Filled dst d src s zero hd hs = (dst, refl, Filled-none dst d _)
memcpy-Filled dst d src s (suc n) hd hs =
    let dst' : Array = record dst { cell = update dst.cell d (src.cell s) } in
    let (out, e, f) = memcpy-Filled dst' (d + 1) src (s + 1) n (omega arith) (omega arith) in
    (
      out,
      rw (load-some src s (omega arith), store-some dst d (src.cell s) (omega arith)) e,
      Filled-suc (first_cell src s) (next_cell src s) f,
    )

-- `bzero` of a range inside the array succeeds, and zeroes exactly that range.
pub bzero-Filled :
    (dst : Array) (d n : ℕ)
    → d + n ≤ dst.size
    → (out : Array) × (bzero dst d n ≡ some out) × Filled dst d n (λ _. 0) out
unfolding bzero
bzero-Filled dst d zero h = (dst, refl, Filled-none dst d _)
bzero-Filled dst d (suc n) h =
    let dst' : Array = record dst { cell = update dst.cell d 0 } in
    let (out, e, f) = bzero-Filled dst' (d + 1) n (omega arith) in
    (out, rw (store-some dst d 0 (omega arith)) e, Filled-suc refl (λ j. refl) f)
