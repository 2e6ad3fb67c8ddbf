-- ===== src/Daemon/Cycle.antt =====
-- process_callback as a whole: one period of the JACK client.
use mathlib.Core.Path.{subst}
use jack_router.Common.{
  ℕ, ◌+◌, ◌*◌, ◌%◌, ◌≤◌, ◌≡◌, refl, ◌∙◌, arith, true, ◌==◌, if◌then◌else◌, u64, Option, some,
}
use jack_router.Common.Array.{Array, Filled, update}
use jack_router.Shm.{Shm, drv_status_started}
use jack_router.Ring.Copies.{interleave, Delivered}
use jack_router.Client.{Daemon, Period, join_workgroup}
use jack_router.Health.{Trace, snapshot, check_progress, trace_health, note_margin}
use jack_router.Daemon.{Processed, process_callback, run_period, move_samples, reanchor}
use jack_router.Daemon.Prepared.{
  cursor, cursor_active, same_cursor, join_workgroup-Keeps, IsPrepared, prepared,
}
use jack_router.Daemon.Transport.{
  Aligned, Aligned-next, behind_cursor, send_Filled, receive_Delivered,
}

-- A period of an opened session: the driver runs, a snapshot is accepted in the end, and JACK's
-- buffers have room for its frames, whose number divides the ring.
pub record IsReady (p : Period) (d : Daemon) (m : Shm) (l r : Array) : Type 0 where
  pub head : ℕ
  pub accepts : snapshot p.observations ≡ some head
  pub aligned : Aligned p.nframes (cursor d)
  pub down₀ : (m.buf_down 0).size ≡ 8192
  pub down₁ : (m.buf_down 1).size ≡ 8192
  pub up₀ : (m.buf_up 0).size ≡ 8192
  pub ports : (i : ℕ) → p.nframes ≤ (p.audio_in i).size
  pub left : p.nframes ≤ l.size
  pub right : p.nframes ≤ r.size

-- What a period at frame `t` has done to the rings, the output ports and the cursor; `down` and `up`
-- are the rings that it found.
pub record IsMoved (p : Period) (t : ℕ) (down up : ℕ → Array) (l r : Array) (o : Processed)
    : Type 0 where
  pub sent₀ :
      Filled
        (down 0)
        (t % 4096 * 2)
        (p.nframes * 2)
        (interleave (p.audio_in 0) (p.audio_in 1) 0)
        (o.shm.buf_down 0)
  pub sent₁ :
      Filled
        (down 1)
        (t % 4096 * 2)
        (p.nframes * 2)
        (interleave (p.audio_in 2) (p.audio_in 3) 0)
        (o.shm.buf_down 1)
  pub consumed :
      Filled (up 0) (behind_cursor p.nframes t * 2) (p.nframes * 2) (λ _. 0) (o.shm.buf_up 0)
  pub received : Delivered (up 0) (behind_cursor p.nframes t) 0 p.nframes l r o.out.0 o.out.1
  pub frame_number : o.daemon.frame_number ≡ u64 (t + p.nframes)
  pub active : o.daemon.is_active ≡ true
  pub next_aligned : Aligned p.nframes o.daemon.frame_number

same_move :
    {p : Period} {t t' : ℕ} {down down' up up' : ℕ → Array} {l r : Array} {o : Processed}
    → t ≡ t'
    → down ≡ down'
    → up ≡ up'
    → IsMoved p t down up l r o
    → IsMoved p t' down' up' l r o
same_move {p} {t} {t'} {down} {down'} {up} {up'} {l} {r} {o} e f g v =
    let at_up : IsMoved p t down up' l r o = subst (λ u. IsMoved p t down u l r o) g v in
    let at_down : IsMoved p t down' up' l r o = subst (λ w. IsMoved p t w up' l r o) f at_up in
    subst (λ c. IsMoved p c down' up' l r o) e at_down

move_cycle :
    (p : Period) (trace : Option Trace) (d : Daemon) (m : Shm) (l r : Array)
    → Aligned p.nframes d.frame_number
    → IsReady p d m l r
    → d.is_active ≡ true
    → (o : Processed) × (move_samples p trace d m (l, r) ≡ some o)
      × IsMoved p d.frame_number m.buf_down m.buf_up l r o
unfolding move_samples
move_cycle p trace d m l r a v active =
    let (ring₀, ring₁, es, f₀, f₁) = send_Filled p d m a v.down₀ v.down₁ v.ports in
    let sent : Shm = record m { buf_down = update (update m.buf_down 0 ring₀) 1 ring₁ } in
    let (ring, l', r', er, z, g) = receive_Delivered p d sent l r a v.up₀ v.left v.right in
    (
      record {
        daemon = record d { frame_number = u64 (d.frame_number + p.nframes) };
        shm = record sent { buf_up = update sent.buf_up 0 ring };
        out = (l', r');
        trace = trace;
      },
      rw (es, er) refl,
      record {
        sent₀ = f₀;
        sent₁ = f₁;
        consumed = z;
        received = g;
        frame_number = refl;
        active = active;
        next_aligned = Aligned-next p.nframes d.frame_number a;
      },
    )

-- What a period needs, the region apart, and with other rings in it.
still-IsReady :
    {p : Period} {d c : Daemon} {m m' : Shm} {l r : Array}
    → cursor c ≡ cursor d
    → m'.buf_down ≡ m.buf_down
    → m'.buf_up ≡ m.buf_up
    → IsReady p d m l r
    → IsReady p c m' l r
still-IsReady e f g v = record {
  head = v.head;
  accepts = v.accepts;
  aligned = rw e v.aligned;
  down₀ = rw f v.down₀;
  down₁ = rw f v.down₁;
  up₀ = rw g v.up₀;
  ports = v.ports;
  left = v.left;
  right = v.right;
}

prepared_cycle :
    (p : Period) (trace : Option Trace) (d c : Daemon) (m m' : Shm) (l r : Array)
    → IsReady p d m l r
    → IsPrepared d m c m'
    → (o : Processed) × (move_samples p trace c m' (l, r) ≡ some o)
      × IsMoved p (cursor d) m.buf_down m.buf_up l r o
prepared_cycle p trace d c m m' l r v i =
    let a : Aligned p.nframes c.frame_number = rw i.at_cursor v.aligned in
    let same = cursor_active c i.is_active ∙ i.at_cursor in
    let (o, e, f) =
      move_cycle p trace c m' l r a (still-IsReady same i.same_down i.same_up v) i.is_active in
    (o, e, same_move i.at_cursor i.same_down i.same_up f)

run_cycle :
    (p : Period) (d : Daemon) (m : Shm) (l r : Array)
    → IsReady p d m l r
    → (o : Processed) × (run_period p d m (l, r) ≡ some o)
      × IsMoved p (cursor d) m.buf_down m.buf_up l r o
unfolding run_period check_progress
run_cycle p d m l r v =
    rw v.accepts (
      prepared_cycle p (trace_health (note_margin v.head d)).1 d _ m _ l r v
        (prepared p v.head d m))

reanchor_same :
    (p : Period) (d : Daemon) (m : Shm)
    → ((reanchor p d m).buf_down ≡ m.buf_down) × ((reanchor p d m).buf_up ≡ m.buf_up)
unfolding reanchor
reanchor_same p d m = (ground arith, ground arith)

while_started :
    {status : ℕ} {run : Option Processed} {o : Processed} (rest : Option Processed)
    → status ≡ drv_status_started
    → run ≡ some o
    → (if status == drv_status_started then run else rest) ≡ some o
while_started rest e f = rw e f

-- While the driver runs, process_callback never faults: it puts the period's input into both
-- downstream rings at the cursor, hands the upstream frames one period behind the cursor to the
-- output ports and silences them in the ring, and moves the cursor on to the next period, where the
-- next call finds it aligned.
pub process_callback_cycle :
    (p : Period) (d : Daemon) (m : Shm) (l r : Array)
    → m.driver_status ≡ drv_status_started
    → IsReady p d m l r
    → (o : Processed) × (process_callback p d m (l, r) ≡ some o)
      × IsMoved p (cursor d) m.buf_down m.buf_up l r o
unfolding process_callback
process_callback_cycle p d m l r started v =
    let joined = join_workgroup p d in
    let seen : Daemon = record joined { last_driver_status = m.driver_status } in
    let beating : Shm = record m { daemon_alive = u64 (m.daemon_alive + 1) } in
    let (down, up) = reanchor_same p joined beating in
    let same : cursor seen ≡ cursor d = same_cursor (join_workgroup-Keeps p d) in
    let (o, e, f) =
      run_cycle p seen (reanchor p joined beating) l r (still-IsReady same down up v) in
    (o, while_started _ started e, same_move same down up f)
