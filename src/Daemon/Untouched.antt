-- ===== src/Daemon/Untouched.antt =====
-- The registers that the transfer of samples leaves alone.
use jack_router.Common.{ℕ, ◌+◌, ◌≡◌, refl, ◌∙◌, u64, Option, none, some, Always, ◌>>=◌}
use jack_router.Common.Array.{Array, update}
use jack_router.Shm.{Shm}
use jack_router.Client.{Daemon, Period}
use jack_router.Health.{Trace}
use jack_router.Daemon.{Processed, move_samples, send_to_core_audio, receive_from_core_audio}

-- The registers that the samples leave alone.
pub record SameClock (m m' : Shm) : Type 0 where
  pub same_number : m'.number_time_stamps ≡ m.number_time_stamps
  pub same_host_time : m'.zero_host_time ≡ m.zero_host_time
  pub same_seed : m'.seed ≡ m.seed
  pub same_sync : m'.sync_mode ≡ m.sync_mode
  pub same_alive : m'.daemon_alive ≡ m.daemon_alive

trans_clock : {a b c : Shm} → SameClock a b → SameClock b c → SameClock a c
trans_clock x y = record {
  same_number = y.same_number ∙ x.same_number;
  same_host_time = y.same_host_time ∙ x.same_host_time;
  same_seed = y.same_seed ∙ x.same_seed;
  same_sync = y.same_sync ∙ x.same_sync;
  same_alive = y.same_alive ∙ x.same_alive;
}

moved_clock :
    (m : Shm) (down up : ℕ → Array) → SameClock m (record m { buf_down = down; buf_up = up })
moved_clock m down up = record {
  same_number = refl;
  same_host_time = refl;
  same_seed = refl;
  same_sync = refl;
  same_alive = refl;
}

sent_clock :
    (m : Shm) (first second : Option Array) (put : Array → Array → ℕ → Array)
    → Always (SameClock m) (first >>= λ a. second >>= λ b. some (record m { buf_down = put a b }))
sent_clock m none second put = tt
sent_clock m (some a) none put = tt
sent_clock m (some a) (some b) put = moved_clock m _ m.buf_up

received_clock :
    (m : Shm) (got : Option (Array × Array × Array)) (put : Array → ℕ → Array)
    → Always
        (λ (x : Shm × Array × Array). SameClock m x.0)
        (got >>= λ a. some ((record m { buf_up = put a.0 }, a.1, a.2)))
received_clock m none put = tt
received_clock m (some a) put = moved_clock m m.buf_down _

send_clock : (p : Period) (d : Daemon) (m : Shm) → Always (SameClock m) (send_to_core_audio p d m)
unfolding send_to_core_audio
send_clock p d m = sent_clock m _ _ (λ a b. update (update m.buf_down 0 a) 1 b)

receive_clock :
    (p : Period) (d : Daemon) (m : Shm) (out : Array × Array)
    → Always (λ (x : Shm × Array × Array). SameClock m x.0) (receive_from_core_audio p d m out)
unfolding receive_from_core_audio
receive_clock p d m (l, r) = received_clock m _ (λ a. update m.buf_up 0 a)

last_clock :
    (p : Period) (trace : Option Trace) (d : Daemon) (m sent : Shm)
    (received : Option (Shm × Array × Array))
    → SameClock m sent
    → Always (λ (x : Shm × Array × Array). SameClock sent x.0) received
    → Always
        (λ (o : Processed). SameClock m o.shm)
        (received >>= λ (x, l, r). some (record {
          daemon = record d { frame_number = u64 (d.frame_number + p.nframes) };
          shm = x;
          out = (l, r);
          trace = trace;
        }))
last_clock p trace d m sent none h k = tt
last_clock p trace d m sent (some x) h k = trans_clock h k

pub move_clock :
    (p : Period) (trace : Option Trace) (d : Daemon) (m : Shm) (out : Array × Array)
    → Always (λ (o : Processed). SameClock m o.shm) (move_samples p trace d m out)
unfolding move_samples
move_clock p trace d m out = go (send_to_core_audio p d m) (send_clock p d m)
  where
    go :
        (sending : Option Shm)
        → Always (SameClock m) sending
        → Always
            (λ (o : Processed). SameClock m o.shm)
            (sending >>= λ sent. receive_from_core_audio p d sent out >>= λ (x, l, r).
              some (record {
                daemon = record d { frame_number = u64 (d.frame_number + p.nframes) };
                shm = x;
                out = (l, r);
                trace = trace;
              }))
    go none h = tt
    go (some sent) h =
        last_clock p trace d m sent (receive_from_core_audio p d sent out) h
          (receive_clock p d sent out)
