-- ===== src/Seqlock/Snapshot.antt =====
-- A snapshot that the reader accepts is consistent.
use mathlib.Core.Path.{subst}
use jack_router.Common.{ℕ, ◌+◌, ◌%◌, ◌^◌, ◌≤◌, ◌<◌, ◌≡◌, ◌⊎◌, inl, inr, refl, arith}
use jack_router.Shm.{Shm}
use jack_router.Seqlock.{
  Writer, idle, begin, host_time, sample_time, read_head, write_head, n_frames, sample_rate, finish,
  writer_step, Reader, first, second, third, accepted, reader_step, System, remember, Step, cycle,
  writes, reads, polls, Reach, here, next,
}

-- The number and the head in the region, and the heads remembered.
module _ (seq head : ℕ) (heads : ℕ → ℕ) where
  -- No publication has stored anything yet: the number is even, and the head belongs to it.
  abbrev Quiet : Type 0
  Quiet = (seq % 2 ≡ 0) × (head ≡ heads seq)

  -- A publication has stored its odd number.
  abbrev Busy : ℕ → Type 0
  Busy n = (seq ≡ n) × (n % 2 ≡ 1) × (n + 1 < 2 ^ 64)

  abbrev WriterOk : Writer → Type 0
  WriterOk idle = Quiet
  WriterOk (begin a) = Quiet × (seq + 2 < 2 ^ 64)
  WriterOk (host_time a n) = Busy n
  WriterOk (sample_time a n) = Busy n
  WriterOk (read_head a n) = Busy n
  WriterOk (write_head a n) = Busy n × (head ≡ a.read_head)
  WriterOk (n_frames a n) = Busy n × (head ≡ a.read_head)
  WriterOk (sample_rate a n) = Busy n × (head ≡ a.read_head)
  WriterOk (finish a n) = Busy n × (head ≡ a.read_head)

-- What the reader has loaded is right, or it will not be accepted.
module _ (seq : ℕ) (heads : ℕ → ℕ) where
  abbrev ReaderOk : Reader → Type 0
  ReaderOk first = Unit {0}
  ReaderOk (second s1) = s1 ≤ seq
  ReaderOk (third s1 h) = (s1 ≤ seq) × ((s1 % 2 ≡ 1) ⊎ (s1 < seq) ⊎ (h ≡ heads s1))
  ReaderOk (accepted s1 h) = (s1 ≤ seq) × (h ≡ heads s1)

-- Later numbers are higher, and what is remembered of earlier ones stays.
ReaderOk-mono :
    (r : Reader) (seq seq' : ℕ) (heads heads' : ℕ → ℕ)
    → seq ≤ seq'
    → ((k : ℕ) → k ≤ seq → heads' k ≡ heads k)
    → ReaderOk seq heads r
    → ReaderOk seq' heads' r
ReaderOk-mono first seq seq' heads heads' le same v = tt
ReaderOk-mono (second s1) seq seq' heads heads' le same v = omega arith
ReaderOk-mono (third s1 h) seq seq' heads heads' le same v = ground (arith, same s1)
ReaderOk-mono (accepted s1 h) seq seq' heads heads' le same v = ground (arith, same s1)

odd_or_quiet :
    (w : Writer) (seq head : ℕ) (heads : ℕ → ℕ)
    → WriterOk seq head heads w
    → (seq % 2 ≡ 1) ⊎ (head ≡ heads seq)
odd_or_quiet idle seq head heads o = inr o.1
odd_or_quiet (begin a) seq head heads o = inr (o.0.1)
odd_or_quiet _ seq head heads o = inl (omega arith)

reader_step-ok :
    (w : Writer) (r : Reader) (m : Shm) (heads : ℕ → ℕ)
    → WriterOk m.hal_anchor_seq m.hal_input_read_head heads w
    → ReaderOk m.hal_anchor_seq heads r
    → ReaderOk m.hal_anchor_seq heads (reader_step r m)
unfolding reader_step
reader_step-ok w first m heads o v = omega arith
reader_step-ok w (second s1) m heads o v =
    ground (arith, odd_or_quiet w m.hal_anchor_seq m.hal_input_read_head heads o)
reader_step-ok w (third s1 h) m heads o v = ground arith
reader_step-ok w (accepted s1 h) m heads o v = v

writer_step-ok :
    (w : Writer) (r : Reader) (m : Shm) (heads : ℕ → ℕ)
    → WriterOk m.hal_anchor_seq m.hal_input_read_head heads w
    → ReaderOk m.hal_anchor_seq heads r
    → let (w', m') = writer_step w m in
      WriterOk m'.hal_anchor_seq m'.hal_input_read_head (remember w heads) w'
      × ReaderOk m'.hal_anchor_seq (remember w heads) r
unfolding writer_step
writer_step-ok idle r m heads o v = (o, v)
writer_step-ok (begin a) r m heads o v =
    (omega arith, ReaderOk-mono r m.hal_anchor_seq _ heads heads (omega arith) (λ k h. refl) v)
writer_step-ok (host_time a n) r m heads o v = (o, v)
writer_step-ok (sample_time a n) r m heads o v = (o, v)
writer_step-ok (read_head a n) r m heads o v =
    ((o, refl), ReaderOk-mono r m.hal_anchor_seq _ heads heads (omega arith) (λ k h. refl) v)
writer_step-ok (write_head a n) r m heads o v = (o, v)
writer_step-ok (n_frames a n) r m heads o v = (o, v)
writer_step-ok (sample_rate a n) r m heads o v = (o, v)
writer_step-ok (finish a n) r m heads o v = (
  (omega arith, ground arith),
  ReaderOk-mono r m.hal_anchor_seq _ heads _ (omega arith) (λ k h. ground arith) v,
)

record Inv (s : System) : Type 0 where
  writer_ok : WriterOk s.shm.hal_anchor_seq s.shm.hal_input_read_head s.heads s.writer
  reader_ok : ReaderOk s.shm.hal_anchor_seq s.heads s.reader

Step-Inv : {s t : System} → Step s t → Inv s → Inv t
Step-Inv (cycle s a e h) v =
    let q = subst (WriterOk s.shm.hal_anchor_seq s.shm.hal_input_read_head s.heads) e v.writer_ok in
    record { writer_ok = (q, h); reader_ok = v.reader_ok }
Step-Inv (writes s) v =
    let (o, r) = writer_step-ok s.writer s.reader s.shm s.heads v.writer_ok v.reader_ok in
    record { writer_ok = o; reader_ok = r }
Step-Inv (reads s) v = record {
  writer_ok = v.writer_ok;
  reader_ok = reader_step-ok s.writer s.reader s.shm s.heads v.writer_ok v.reader_ok;
}
Step-Inv (polls s) v = record { writer_ok = v.writer_ok; reader_ok = tt }

Reach-Inv : {m : Shm} {s : System} → m.hal_anchor_seq % 2 ≡ 0 → Reach m s → Inv s
Reach-Inv even here = record { writer_ok = (even, refl); reader_ok = tt }
Reach-Inv even (next r st) = Step-Inv st (Reach-Inv even r)

-- In every reachable state, whatever the interleaving: a snapshot that the daemon has accepted carries
-- the read head of the publication that ended with the number it read, never one of a publication in
-- progress.
pub accepted_head :
    {m : Shm} {s : System} (number head : ℕ)
    → m.hal_anchor_seq % 2 ≡ 0
    → Reach m s
    → s.reader ≡ accepted number head
    → head ≡ s.heads number
accepted_head {s = s} number head even r e =
    (subst (ReaderOk s.shm.hal_anchor_seq s.heads) e (Reach-Inv even r).reader_ok).1
