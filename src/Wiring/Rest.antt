-- ===== src/Wiring/Rest.antt =====
-- The daemon comes to rest: once no more ports register, the callback and `main` run out of things to
-- do, and every slave port has been seen by then.
use jack_router.Common.{
  ℕ, zero, suc, ◌+◌, ◌*◌, ◌<◌, ◌≤◌, ◌≡◌, ◌⊎◌, inl, inr, refl, sym, ap, ◌∙◌, arith, Bool, true,
  false, ◌&&◌, not, if◌then◌else◌, List, [],
}
use mathlib.Core.Path.{subst}
use jack_router.Common.Size.{length}
use jack_router.Common.Text.{Name}
use jack_router.Wiring.Wakeups.{
  Pc, waiting, woken, looking, connecting, stopped, Callback, idle, notified, marked, Main,
  call_back, proceed, calls_back, proceeds, Reach, later, Coming, Reach-Coming,
}

abbrev pc_weight : Pc → ℕ
pc_weight waiting = 0
pc_weight woken = 3
pc_weight looking = 2
pc_weight connecting = 1
pc_weight stopped = 0

abbrev callback_weight : Callback → ℕ
callback_weight idle = 0
callback_weight notified = 6
callback_weight marked = 5

-- How much there is left to do at most.
abbrev pub work : Main → ℕ
work s =
    7 * length s.queue + callback_weight s.callback + (if s.pending then 4 else 0) + pc_weight s.pc

abbrev is_stopped : Pc → Bool
is_stopped stopped = true
is_stopped pc = false

abbrev pub is_quiet : Callback → List Name → Bool
is_quiet idle [] = true
is_quiet c queue = false

abbrev pub is_asleep : Pc → Bool → Bool
is_asleep waiting pending = not pending
is_asleep stopped pending = true
is_asleep pc pending = false

-- Nothing is left to do.
abbrev pub is_settled : Main → Bool
is_settled s = is_quiet s.callback s.queue && is_asleep s.pc s.pending

-- One move of the callback and one of `main`.
unfoldable pub round : Main → Main
unfolding call_back proceed
round s = proceed (call_back s)

unfoldable pub settle : ℕ → Main → Main
unfolding round
settle zero s = s
settle (suc fuel) s = settle fuel (round s)

call_back_less :
    (s : Main)
    → (work (call_back s) < work s) ⊎ ((is_quiet s.callback s.queue ≡ true) × (call_back s ≡ s))
unfolding call_back
call_back_less s = ground arith

proceed_less :
    (s : Main) → (work (proceed s) < work s) ⊎ ((is_asleep s.pc s.pending ≡ true) × (proceed s ≡ s))
unfolding proceed
proceed_less s = ground arith

round_less : (s : Main) → (work (round s) < work s) ⊎ ((is_settled s ≡ true) × (round s ≡ s))
unfolding round
round_less s = elim (call_back_less s) [
  | inl less ↦ elim (proceed_less (call_back s)) [
    | inl less' ↦ inl (omega (arith, less, less'))
    | inr (asleep, same) ↦ inl (subst (λ t. work t < work s) (sym same) less)
  ]
  | inr (quiet, same) ↦ elim (proceed_less s) [
    | inl less ↦ inl (subst (λ t. work (proceed t) < work s) (sym same) less)
    | inr (asleep, same') ↦ inr (rw (quiet, asleep) refl, ap proceed same ∙ same')
  ]
]

settle_same : (fuel : ℕ) (s : Main) → round s ≡ s → settle fuel s ≡ s
unfolding settle
settle_same zero s h = refl
settle_same (suc fuel) s h = rw (h, settle_same fuel s h) refl

no_work : (s : Main) → work s ≡ 0 → is_settled s ≡ true
no_work s h = ground arith

settle_settled : (fuel : ℕ) (s : Main) → work s ≤ fuel → is_settled (settle fuel s) ≡ true
unfolding settle
settle_settled zero s h = no_work s (omega (arith, h))
settle_settled (suc fuel) s h = elim (round_less s) [
  | inl less ↦ settle_settled fuel (round s) (omega (arith, less, h))
  | inr (settled, same) ↦
      subst (λ t. is_settled t ≡ true) (sym (ap (settle fuel) same ∙ settle_same fuel s same))
        settled
]

settle-Reach : {unseen : ℕ} (fuel : ℕ) (s : Main) → Reach unseen s → Reach unseen (settle fuel s)
unfolding settle round
settle-Reach zero s r = r
settle-Reach (suc fuel) s r = settle-Reach fuel (round s) (later (later r calls_back) proceeds)

settled_Coming : (s : Main) → Coming s → is_settled s ≡ true → (s.unseen ≡ 0) ⊎ (s.pc ≡ stopped)
settled_Coming s c h = ground arith

-- Once no more ports register, the daemon comes to rest: as many rounds of the callback and of `main`
-- as there is work lead, from any state that it can be in, to one that it can be in where neither has
-- anything left to do, and there every slave port has been seen, or `main` has left its loop.
pub settle_rests :
    {unseen : ℕ} {s : Main}
    → Reach unseen s
    → let t = settle (work s) s in
      Reach unseen t × (is_settled t ≡ true) × ((t.unseen ≡ 0) ⊎ (t.pc ≡ stopped))
settle_rests {s} r =
    let settled = settle_settled (work s) s (omega arith) in
    let reached = settle-Reach (work s) s r in
    (reached, settled, settled_Coming (settle (work s) s) (Reach-Coming reached) settled)
