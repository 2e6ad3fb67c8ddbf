-- ===== src/Midi/Forwarding.antt =====
-- What the MIDI bridge forwards, and how many ports it can have.
use jack_router.Common.{
  ℕ, zero, suc, ◌+◌, ◌≤◌, ◌<◌, ◌≡◌, ◌⊎◌, refl, arith, inl, inr, Bool, true, false, Bool-cases, none,
  some, List, [], ◌∷◌, ◌++◌,
}
use jack_router.Midi.{
  Message, MidiPorts, send_events, to_core_midi, drain, from_core_midi, process_midi_message,
}
use jack_router.Wiring.{max_port_num}

-- A result for each port from `n` on.
abbrev pub per_port : ℕ → ℕ → (ℕ → List Message) → List (List Message)
per_port zero n f = []
per_port (suc count) n f = f n ∷ per_port count (n + 1) f

sends :
    (count n : ℕ) (events : ℕ → List Message)
    → n + count ≤ max_port_num
    → to_core_midi count n events ≡ some (per_port count n (λ i. send_events (events i)))
unfolding to_core_midi
sends zero n events h = refl
sends (suc count) n events h = ground (arith, sends count (n + 1) events)

receives :
    (reserve : List Message → Message → Bool) (count n : ℕ) (queues : ℕ → List Message)
    → n + count ≤ max_port_num
    → from_core_midi reserve count n queues
      ≡ some (per_port count n (λ i. drain reserve [] (queues i)))
unfolding from_core_midi
receives reserve zero n queues h = refl
receives reserve (suc count) n queues h = ground (arith, receives reserve count (n + 1) queues)

too_many_sent :
    (count n : ℕ) (events : ℕ → List Message)
    → max_port_num < n + count
    → n ≤ max_port_num
    → to_core_midi count n events ≡ none
unfolding to_core_midi
too_many_sent zero n events h b = absurd (omega (arith, h, b))
too_many_sent (suc count) n events h b = ground (arith, too_many_sent count (n + 1) events)

too_many_received :
    (reserve : List Message → Message → Bool) (count n : ℕ) (queues : ℕ → List Message)
    → max_port_num < n + count
    → n ≤ max_port_num
    → from_core_midi reserve count n queues ≡ none
unfolding from_core_midi
too_many_received reserve zero n queues h b = absurd (omega (arith, h, b))
too_many_received reserve (suc count) n queues h b =
    ground (arith, too_many_received reserve count (n + 1) queues)

le_or_lt : (a b : ℕ) → (a ≤ b) ⊎ (b < a)
le_or_lt a b = ground arith

-- What reaches CoreMIDI of the events of a JACK port: those that are not empty, in their order.
pub data Forwarded : List Message → List Message → Type 0 where
  no_event : Forwarded [] []
  empty_event : {ms sent : List Message} → Forwarded ms sent → Forwarded ([] ∷ ms) sent
  event :
      {b : ℕ} {m : Message} {ms sent : List Message}
      → Forwarded ms sent
      → Forwarded ((b ∷ m) ∷ ms) ((b ∷ m) ∷ sent)

-- What a queue adds to what is in a port's buffer: its messages up to the first empty one, in their
-- order, each where the buffer has room for it.
pub data Drained (reserve : List Message → Message → Bool)
    : List Message → List Message → List Message → Type 0 where
  no_message : {buffer : List Message} → Drained reserve [] buffer buffer
  empty_message : {ms buffer : List Message} → Drained reserve ([] ∷ ms) buffer buffer
  has_room :
      {b : ℕ} {m : Message} {ms buffer after : List Message}
      → reserve buffer (b ∷ m) ≡ true
      → Drained reserve ms (buffer ++ (b ∷ m) ∷ []) after
      → Drained reserve ((b ∷ m) ∷ ms) buffer after
  no_room :
      {b : ℕ} {m : Message} {ms buffer after : List Message}
      → reserve buffer (b ∷ m) ≡ false
      → Drained reserve ms buffer after
      → Drained reserve ((b ∷ m) ∷ ms) buffer after

send_events-Forwarded : (events : List Message) → Forwarded events (send_events events)
unfolding send_events
send_events-Forwarded [] = no_event
send_events-Forwarded ([] ∷ ms) = empty_event (send_events-Forwarded ms)
send_events-Forwarded ((b ∷ m) ∷ ms) = event (send_events-Forwarded ms)

drain-Drained :
    (reserve : List Message → Message → Bool) (buffer queue : List Message)
    → Drained reserve queue buffer (drain reserve buffer queue)
unfolding drain
drain-Drained reserve buffer [] = no_message
drain-Drained reserve buffer ([] ∷ ms) = empty_message
drain-Drained reserve buffer ((b ∷ m) ∷ ms) = elim (Bool-cases (reserve buffer (b ∷ m))) [
  | inl e ↦ has_room e (rw e (drain-Drained reserve (buffer ++ (b ∷ m) ∷ []) ms))
  | inr e ↦ no_room e (rw e (drain-Drained reserve buffer ms))
]

-- With no more ports than JackClient has room for, a period sends to each CoreMIDI port the events of
-- its JACK port that are not empty, in their order, and empties the queue of each CoreMIDI port into
-- the buffer of its JACK port, up to the first empty message and as far as there is room. With more
-- ports in either direction it reads past the array of ports.
pub process_midi_message_cases :
    (p : MidiPorts) (reserve : List Message → Message → Bool) (events queues : ℕ → List Message)
    → ((p.n_out_ports ≤ max_port_num)
        × (p.n_in_ports ≤ max_port_num)
        × (sent : ℕ → List Message) × (got : ℕ → List Message) × (process_midi_message p reserve
              events queues
            ≡ some (per_port p.n_out_ports 0 sent, per_port p.n_in_ports 0 got))
        × ((n : ℕ) → Forwarded (events n) (sent n))
        × ((n : ℕ) → Drained reserve (queues n) [] (got n)))
      ⊎ (((max_port_num < p.n_out_ports) ⊎ (max_port_num < p.n_in_ports))
          × (process_midi_message p reserve events queues ≡ none))
unfolding process_midi_message
process_midi_message_cases p reserve events queues = elim (le_or_lt p.n_out_ports max_port_num) [
  | inr many ↦
      inr (
        inl many,
        rw (too_many_sent p.n_out_ports 0 events (omega (arith, many)) (omega arith)) refl,
      )
  | inl few ↦ elim (le_or_lt p.n_in_ports max_port_num) [
    | inr many ↦ inr (
      inr many,
      rw
          (
            sends p.n_out_ports 0 events (omega (arith, few)),
            too_many_received reserve p.n_in_ports 0 queues (omega (arith, many)) (omega arith),
          )
          refl,
    )
    | inl few' ↦ inl (
      few,
      few',
      λ n. send_events (events n),
      λ n. drain reserve [] (queues n),
      rw
          (
            sends p.n_out_ports 0 events (omega (arith, few)),
            receives reserve p.n_in_ports 0 queues (omega (arith, few')),
          )
          refl,
      λ n. send_events-Forwarded (events n),
      λ n. drain-Drained reserve [] (queues n),
    )
  ]
]
