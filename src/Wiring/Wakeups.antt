-- ===== src/Wiring/Wakeups.antt =====
-- How a slave port that registers while the daemon runs comes to be wired: `main` and the
-- port-registration callback, with the flag `g_wire_dirty` and the signal SIGUSR1 between them.
use jack_router.Common.{
  ℕ, ◌+◌, ◌≡◌, ◌⊎◌, arith, Bool, true, false, ◌||◌, if◌then◌else◌, List, [], ◌∷◌, ◌++◌,
}
use jack_router.Common.Text.{Name, codes, begins}

-- The test of `_port_registration_callback`, on a port's short name.
unfoldable pub is_slave : Name → Bool
is_slave name = begins (codes "from_slave_") name || begins (codes "to_slave_") name

-- `main`: in sigwait, with SIGUSR1 taken, about to call jack_get_ports, connecting, or past the loop.
pub data Pc : Type 0 where
  waiting woken looking connecting stopped : Pc

-- The callback: not running, about to set the flag, about to send the signal.
pub data Callback : Type 0 where
  idle notified marked : Callback

-- `queue` holds the registrations that JACK has not called back for, and `unseen` counts the slave
-- ports that have registered since `auto_wire` last asked for the ports.
pub record Main : Type 0 where
  pub pc : Pc
  pub dirty : Bool
  pub pending : Bool
  pub callback : Callback
  pub queue : List Name
  pub unseen : ℕ

-- A port registers, at any time.
unfoldable pub register : Name → Main → Main
unfolding is_slave
register name s = record s {
  queue = s.queue ++ name ∷ [];
  unseen = if is_slave name then s.unseen + 1 else s.unseen;
}

-- `_port_registration_callback`: JACK calls it for one registration, it stores the flag, and it sends
-- the signal, which stays pending once.
unfoldable pub call_back : Main → Main
unfolding is_slave
call_back s = elim s.callback [
  | idle ↦ elim s.queue [
    | [] ↦ s
    | name ∷ queue ↦ record s { queue = queue; callback = if is_slave name then notified else idle }
  ]
  | notified ↦ record s { dirty = true; callback = marked }
  | marked ↦ record s { pending = true; callback = idle }
]

-- `main`: sigwait returns a pending SIGUSR1; the flag is exchanged for false; and `auto_wire` runs if
-- it was set.
unfoldable pub proceed : Main → Main
proceed s = elim s.pc [
  | waiting ↦ if s.pending then record s { pending = false; pc = woken } else s
  | woken ↦ record s { dirty = false; pc = if s.dirty then looking else waiting }
  | looking ↦ record s { unseen = 0; pc = connecting }
  | connecting ↦ record s { pc = waiting }
  | stopped ↦ s
]

-- sigwait returns SIGINT or SIGTERM.
abbrev pub is_waiting : Pc → Bool
is_waiting waiting = true
is_waiting pc = false

unfoldable pub stop : Main → Main
stop s = if is_waiting s.pc then record s { pc = stopped } else s

pub data Event (s : Main) : Main → Type 0 where
  registers : (name : Name) → Event s (register name s)
  calls_back : Event s (call_back s)
  proceeds : Event s (proceed s)
  stops : Event s (stop s)

-- After activate, with some slave ports there already, `main` runs `auto_wire` once before its loop.
abbrev pub start : ℕ → Main
start unseen = record {
  pc = looking;
  dirty = false;
  pending = false;
  callback = idle;
  queue = [];
  unseen = unseen;
}

pub data Reach (unseen : ℕ) : Main → Type 0 where
  begins_at : Reach unseen (start unseen)
  later : {s t : Main} → Reach unseen s → Event s t → Reach unseen t

abbrev has_slave : List Name → Bool
has_slave [] = false
has_slave (name ∷ queue) = is_slave name || has_slave queue

has_slave-append :
    (queue : List Name) (name : Name)
    → has_slave (queue ++ name ∷ []) ≡ has_slave queue || is_slave name
has_slave-append [] name = ground arith
has_slave-append (n ∷ queue) name = ground (arith, has_slave-append queue name)

-- A slave port that has not been seen is on its way to be.
abbrev pub Coming : Main → Type 0
Coming s =
    (s.unseen ≡ 0)
    ⊎ (has_slave s.queue ≡ true)
    ⊎ (s.callback ≡ notified)
    ⊎ ((s.dirty ≡ true) × ((s.callback ≡ marked) ⊎ (s.pending ≡ true) ⊎ (s.pc ≡ woken)))
    ⊎ (s.pc ≡ looking)
    ⊎ (s.pc ≡ stopped)

register-Coming : (name : Name) (s : Main) → Coming s → Coming (register name s)
unfolding register
register-Coming name s h = ground (arith, has_slave-append s.queue name)

call_back-Coming : (s : Main) → Coming s → Coming (call_back s)
unfolding call_back
call_back-Coming s h = ground arith

proceed-Coming : (s : Main) → Coming s → Coming (proceed s)
unfolding proceed
proceed-Coming s h = ground arith

stop-Coming : (s : Main) → Coming s → Coming (stop s)
unfolding stop
stop-Coming s h = ground arith

Event-Coming : {s t : Main} → Coming s → Event s t → Coming t
Event-Coming {s} h (registers name) = register-Coming name s h
Event-Coming {s} h calls_back = call_back-Coming s h
Event-Coming {s} h proceeds = proceed-Coming s h
Event-Coming {s} h stops = stop-Coming s h

pub Reach-Coming : {unseen : ℕ} {s : Main} → Reach unseen s → Coming s
Reach-Coming begins_at = ground arith
Reach-Coming (later r step) = Event-Coming (Reach-Coming r) step

-- No registration is lost: whatever the order in which ports register, the callback runs and `main`
-- proceeds, when `main` sleeps with no signal pending and the callback has nothing left to do, then
-- `auto_wire` has asked for the ports since the last slave port registered.
pub settled_seen :
    {unseen : ℕ} {s : Main}
    → Reach unseen s
    → s.pc ≡ waiting
    → s.pending ≡ false
    → s.callback ≡ idle
    → s.queue ≡ []
    → s.unseen ≡ 0
settled_seen r pc pending callback queue = let c = Reach-Coming r in ground arith
