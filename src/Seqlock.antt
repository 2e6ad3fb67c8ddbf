-- ===== src/Seqlock.antt =====
-- The anchor of the HAL is published under a seqlock: the stores of SA_Device::BeginIOOperation,
-- interleaved in any order with the loads of JackBridge::check_progress. Every load and store is one
-- step on one memory: the order in which the hardware makes relaxed stores visible is not modelled.
pub mod Publication
pub mod Snapshot
use jack_router.Common.{
  ℕ, ◌+◌, ◌%◌, ◌^◌, ◌<◌, ◌≡◌, ◌≢◌, Bool, true, false, ◌||◌, not, ◌==◌, odd, if◌then◌else◌, u64,
}
use jack_router.Common.Array.{update}
use jack_router.Shm.{Shm}
use jack_router.Device.Cycle.{Anchor}

-- The next store of the writer, whose local `seq` is the number.
pub data Writer : Type 0 where
  idle : Writer
  begin : Anchor → Writer
  host_time sample_time read_head write_head n_frames sample_rate finish : Anchor → ℕ → Writer

-- One load or store of the writer. From `idle` nothing happens by itself.
unfoldable pub writer_step : Writer → Shm → Writer × Shm
writer_step idle m = (idle, m)
writer_step (begin a) m =
    let seq = u64 (m.hal_anchor_seq + 1) in (host_time a seq, record m { hal_anchor_seq = seq })
writer_step (host_time a seq) m =
    (sample_time a seq, record m { hal_anchor_host_time = a.host_time })
writer_step (sample_time a seq) m =
    (read_head a seq, record m { hal_anchor_sample_time = a.sample_time })
writer_step (read_head a seq) m = (write_head a seq, record m { hal_input_read_head = a.read_head })
writer_step (write_head a seq) m =
    (n_frames a seq, record m { hal_output_write_head = a.write_head })
writer_step (n_frames a seq) m = (sample_rate a seq, record m { hal_n_frames = a.n_frames })
writer_step (sample_rate a seq) m = (finish a seq, record m { hal_sample_rate = a.sample_rate })
writer_step (finish a seq) m = (idle, record m { hal_anchor_seq = u64 (seq + 1) })

-- The reader before its first, second and third load, and with a snapshot accepted.
pub data Reader : Type 0 where
  first : Reader
  second : ℕ → Reader
  third : ℕ → ℕ → Reader
  accepted : ℕ → ℕ → Reader

-- `while ((s1 & 1) || s1 != s2)`
abbrev pub retries : ℕ → ℕ → Bool
retries s1 s2 = odd s1 || not (s1 == s2)

unfoldable pub reader_step : Reader → Shm → Reader
reader_step first m = second m.hal_anchor_seq
reader_step (second s1) m = third s1 m.hal_input_read_head
reader_step (third s1 head) m = if retries s1 m.hal_anchor_seq then first else accepted s1 head
reader_step (accepted s1 head) m = accepted s1 head

-- `heads` remembers the read head of each publication, under the sequence number that ended it.
pub record System : Type 0 where
  pub shm : Shm
  pub writer : Writer
  pub reader : Reader
  pub heads : ℕ → ℕ

abbrev pub remember : Writer → (ℕ → ℕ) → ℕ → ℕ
remember (finish a seq) heads = update heads (u64 (seq + 1)) a.read_head
remember idle heads = heads
remember w heads = heads

-- The HAL begins a cycle whenever it likes, within 2 ^ 63 cycles; writer and reader move in turn as
-- the scheduler pleases, and the daemon begins a new snapshot whenever it likes.
pub data Step : System → System → Type 0 where
  cycle :
      (s : System) (a : Anchor)
      → s.writer ≡ idle
      → s.shm.hal_anchor_seq + 2 < 2 ^ 64
      → Step s (record s { writer = begin a })
  writes :
      (s : System)
      → Step s (record s {
        shm = (writer_step s.writer s.shm).1;
        writer = (writer_step s.writer s.shm).0;
        heads = remember s.writer s.heads;
      })
  reads : (s : System) → Step s (record s { reader = reader_step s.reader s.shm })
  polls : (s : System) → Step s (record s { reader = first })

-- A region with no publication in progress.
abbrev pub start : Shm → System
start m = record { shm = m; writer = idle; reader = first; heads = λ _. m.hal_input_read_head }

pub data Reach (m : Shm) : System → Type 0 where
  here : Reach m (start m)
  next : {s t : System} → Reach m s → Step s t → Reach m t
