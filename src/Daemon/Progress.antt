-- ===== src/Daemon/Progress.antt =====
-- The health trace of check_progress: what it reports over time.
use jack_router.Common.{ℕ, suc, ◌+◌, ◌≡◌, arith, u32, Option, none, some, List, [], ◌∷◌}
use jack_router.Client.{Daemon}
use jack_router.Health.{Trace, xrun_callback, note_margin, trace_health}

-- What happens to the counters: an xrun of JACK, or a period, which finds the cursor and the anchor
-- at some place.
pub data Event : Type 0 where
  xrun : Event
  checks : ℕ → ℕ → Event

-- The xruns of a line that the trace may print.
abbrev pub reported : Option Trace → ℕ
reported none = 0
reported (some t) = t.xruns

abbrev pub occurred : List Event → ℕ
occurred [] = 0
occurred (xrun ∷ es) = suc (occurred es)
occurred (checks frame head ∷ es) = occurred es

-- The trace of a period whose snapshot is `head`.
pub health : ℕ → ℕ → Daemon → Daemon × Option Trace
unfolding note_margin trace_health
health frame head d = trace_health (note_margin head (record d { frame_number = frame }))

-- The daemon after the events, and all the xruns that its lines reported.
pub observe : Daemon → List Event → Daemon × ℕ
unfolding xrun_callback health
observe d [] = (d, 0)
observe d (xrun ∷ es) = observe (xrun_callback d) es
observe d (checks frame head ∷ es) =
    let (d', t) = health frame head d in let (d'', n) = observe d' es in (d'', reported t + n)

health_xruns :
    (frame head : ℕ) (d : Daemon)
    → let (d', t) = health frame head d in reported t + d'.xrun_count ≡ d.xrun_count
unfolding health
health_xruns frame head d = ground arith

-- No xrun is lost or reported twice: over any run of xruns and periods, those in the lines printed and
-- those still to be printed are those at the beginning and those that occurred, modulo 2 ^ 32.
pub observe_xruns :
    (d : Daemon) (es : List Event)
    → let (d', n) = observe d es in u32 (n + d'.xrun_count) ≡ u32 (d.xrun_count + occurred es)
unfolding observe xrun_callback
observe_xruns d [] = ground arith
observe_xruns d (xrun ∷ es) = omega (arith, observe_xruns (xrun_callback d) es)
observe_xruns d (checks frame head ∷ es) =
    let (d', t) = health frame head d in
    omega (arith, observe_xruns d' es, health_xruns frame head d)
