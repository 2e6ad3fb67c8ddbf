-- ===== src/Daemon/Transport.antt =====
-- sendToCoreAudio and receiveFromCoreAudio: which frames of the rings a period writes and empties.
use native.Mathlib.Nat.{mul-le-mul_left}
use jack_router.Common.{
  ℕ, zero, suc, ◌+◌, ◌-◌, ◌*◌, ◌%◌, ◌^◌, ◌≤◌, ◌<◌, ◌≡◌, refl, ◌∙◌, arith, inl, inr, Bool-cases, ltb,
  ltb→lt, u64, some,
}
use jack_router.Common.Array.{Array, Filled, update}
use jack_router.Shm.{Shm}
use jack_router.Ring.{send_offset, recv_offset}
use jack_router.Ring.Copies.{interleave, Delivered}
use jack_router.Ring.RoundTrip.{Fits, write_Filled, consume_Delivered}
use jack_router.Client.{Daemon, Period}
use jack_router.Daemon.{projector, send_to_core_audio, receive_from_core_audio}

-- A cursor that stands at the start of one of the periods into which the ring divides.
pub record Aligned (nframes cursor : ℕ) : Type 0 where
  pub periods : ℕ
  pub number : ℕ
  pub whole : nframes * periods ≡ 4096
  pub place : cursor % 4096 ≡ nframes * number
  pub before : number < periods

next_place : (n q per : ℕ) → n * per ≡ 4096 → q < per → n * q + n ≤ 4096
next_place n q per w h = let k : n * suc q ≤ n * per = mul-le-mul_left n h in omega (arith, k, w)

pub Aligned-room : (n cursor : ℕ) → Aligned n cursor → cursor % 4096 + n ≤ 4096
Aligned-room n cursor a =
    let k = next_place n a.number a.periods a.whole a.before in omega (arith, k, a.place)

recv_room :
    (n cursor q per : ℕ)
    → n * per ≡ 4096
    → cursor % 4096 ≡ n * q
    → q < per
    → u64 (cursor + 2 ^ 64 - u64 n) % 4096 + n ≤ 4096
recv_room n cursor zero per w e h = let k = next_place n 0 per w h in omega (arith, k, e)
recv_room n cursor (suc q) per w e h =
    let k = next_place n (suc q) per w h in
    let s : n * suc q ≡ n * q + n = omega arith in omega (arith, k, e, s)

-- The frames of the slot one period back do not go round the end of the ring either.
pub Aligned-recv :
    (n cursor : ℕ) → Aligned n cursor → u64 (cursor + 2 ^ 64 - u64 n) % 4096 + n ≤ 4096
Aligned-recv n cursor a = recv_room n cursor a.number a.periods a.whole a.place a.before

next_in_ring :
    (n cursor q per : ℕ)
    → n * per ≡ 4096
    → cursor % 4096 ≡ n * q
    → suc q < per
    → u64 (cursor + n) % 4096 ≡ n * suc q
next_in_ring zero cursor q per w e h = omega (arith, w)
next_in_ring (suc n) cursor q per w e h =
    let k = next_place (suc n) (suc q) per w h in
    let s : suc n * suc q ≡ suc n * q + suc n = omega arith in omega (arith, k, s, e)

next_round :
    (n cursor q per : ℕ)
    → n * per ≡ 4096
    → cursor % 4096 ≡ n * q
    → suc q ≡ per
    → u64 (cursor + n) % 4096 ≡ 0
next_round n cursor q per w e h =
    let s : n * suc q ≡ n * q + n = omega arith in
    let t : n * suc q ≡ 4096 = rw h w in omega (arith, s, t, e)

-- The next period starts where the ring's next part does.
pub Aligned-next : (n cursor : ℕ) → Aligned n cursor → Aligned n (u64 (cursor + n))
Aligned-next n cursor a = elim (Bool-cases (ltb (suc a.number) a.periods)) [
  | inl lt ↦ record {
    periods = a.periods;
    number = suc a.number;
    whole = a.whole;
    place = next_in_ring n cursor a.number a.periods a.whole a.place (ltb→lt _ _ lt);
    before = ltb→lt _ _ lt;
  }
  | inr ge ↦ record {
    periods = a.periods;
    number = 0;
    whole = a.whole;
    place =
        next_round n cursor a.number a.periods a.whole a.place (ground (arith, a.before))
        ∙ omega arith;
    before = omega (arith, a.before);
  }
]

send_offset_lem : (d : Daemon) → send_offset (projector d) ≡ d.frame_number % 4096
unfolding send_offset
send_offset_lem d = omega arith

recv_offset_lem :
    (d : Daemon) (n : ℕ)
    → recv_offset (projector d) n ≡ u64 (d.frame_number + 2 ^ 64 - u64 n) % 4096
unfolding recv_offset
recv_offset_lem d n = omega arith

fits :
    (ring l r : Array) (offset n : ℕ)
    → offset + n ≤ 4096
    → ring.size ≡ 8192
    → n ≤ l.size
    → n ≤ r.size
    → Fits ring l r offset n
fits ring l r offset n h s hl hr = record {
  in_ring = omega arith;
  small = omega arith;
  in_left = hl;
  in_right = hr;
}

-- Both downstream rings get the period at the cursor, and nothing else changes.
pub send_Filled :
    (p : Period) (d : Daemon) (m : Shm)
    → Aligned p.nframes d.frame_number
    → (m.buf_down 0).size ≡ 8192
    → (m.buf_down 1).size ≡ 8192
    → ((i : ℕ) → p.nframes ≤ (p.audio_in i).size)
    → (ring₀ ring₁ : Array) × (send_to_core_audio p d m
        ≡ some (record m { buf_down = update (update m.buf_down 0 ring₀) 1 ring₁ }))
      × Filled
          (m.buf_down 0)
          (d.frame_number % 4096 * 2)
          (p.nframes * 2)
          (interleave (p.audio_in 0) (p.audio_in 1) 0)
          ring₀
      × Filled
          (m.buf_down 1)
          (d.frame_number % 4096 * 2)
          (p.nframes * 2)
          (interleave (p.audio_in 2) (p.audio_in 3) 0)
          ring₁
unfolding send_to_core_audio
send_Filled p d m a s₀ s₁ ports =
    let room = Aligned-room p.nframes d.frame_number a in
    let (ring₀, e₀, f₀) =
      write_Filled (m.buf_down 0) (d.frame_number % 4096) (p.audio_in 0) (p.audio_in 1) p.nframes
        (fits _ _ _ _ _ room s₀ (ports 0) (ports 1)) in
    let (ring₁, e₁, f₁) =
      write_Filled (m.buf_down 1) (d.frame_number % 4096) (p.audio_in 2) (p.audio_in 3) p.nframes
        (fits _ _ _ _ _ room s₁ (ports 2) (ports 3)) in
    (ring₀, ring₁, rw (send_offset_lem d, e₀, e₁) refl, f₀, f₁)

-- The frame of the upstream ring that a period reads: one period behind the cursor.
abbrev pub behind_cursor : ℕ → ℕ → ℕ
behind_cursor n cursor = u64 (cursor + 2 ^ 64 - u64 n) % 4096

-- The period behind the cursor of the upstream ring goes to the output ports, and is silenced.
pub receive_Delivered :
    (p : Period) (d : Daemon) (m : Shm) (l r : Array)
    → Aligned p.nframes d.frame_number
    → (m.buf_up 0).size ≡ 8192
    → p.nframes ≤ l.size
    → p.nframes ≤ r.size
    → let offset = behind_cursor p.nframes d.frame_number in
      (ring l' r' : Array) × (receive_from_core_audio p d m (l, r)
        ≡ some (record m { buf_up = update m.buf_up 0 ring }, l', r'))
      × Filled (m.buf_up 0) (offset * 2) (p.nframes * 2) (λ _. 0) ring
      × Delivered (m.buf_up 0) offset 0 p.nframes l r l' r'
unfolding receive_from_core_audio
receive_Delivered p d m l r a s hl hr =
    let room = Aligned-recv p.nframes d.frame_number a in
    let (ring, l', r', e, z, f) =
      consume_Delivered (m.buf_up 0) (behind_cursor p.nframes d.frame_number) l r p.nframes
        (fits _ _ _ _ _ room s hl hr) in
    (ring, l', r', rw (recv_offset_lem d p.nframes, e) refl, z, f)
