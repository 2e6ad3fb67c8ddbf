-- ===== src/Wiring/Graph.antt =====
-- `auto_wire` on JACK's graph, through jack_connect.
use jack_router.Common.{
  ℕ, ◌≡◌, refl, arith, Bool, true, false, ◌==◌, if◌then◌else◌, Option, List, [], ◌∷◌, ◌++◌, ◌⊎◌,
  inl, inr,
}
use jack_router.Common.Text.{Name}
use jack_router.Wiring.{Pair, from_slave, to_slave, pairs}

-- `EEXIST` of errno.h
abbrev pub eexist : ℕ
eexist = 17

-- The JACK server: its graph, and jack_connect with its return code. The laws are what it documents:
-- a pair that is connected gives EEXIST and nothing else does, a success connects the pair, and a call
-- disconnects nothing.
pub record Jack : Type 1 where
  pub Graph : Type 0
  pub connected : Graph → Pair → Bool
  pub connect : Pair → Graph → ℕ × Graph
  pub exists : (p : Pair) (g : Graph) → connected g p ≡ true → connect p g ≡ (eexist, g)
  pub existed : (p : Pair) (g : Graph) → (connect p g).0 ≡ eexist → connected g p ≡ true
  pub connects : (p : Pair) (g : Graph) → (connect p g).0 ≡ 0 → connected (connect p g).1 p ≡ true
  pub keeps : (p q : Pair) (g : Graph) → connected g q ≡ true → connected (connect p g).1 q ≡ true

-- The lines of the log.
pub data Line : Type 0 where
  wired : Pair → Line
  failed : Pair → ℕ → Line

abbrev report : Pair → ℕ → List Line
report p rc = if rc == 0 then wired p ∷ [] else if rc == eexist then [] else failed p rc ∷ []

module _ (J : Jack) where
  open J use {Graph, connected, connect}

  unfoldable pub wire : List Pair → Graph → List Line × Graph
  wire [] g = ([], g)
  wire (p ∷ ps) g =
      let (rc, g') = connect p g in let (lines, g'') = wire ps g' in (report p rc ++ lines, g'')

  -- The ports are those that jack_get_ports answers to the one call and to the other.
  unfoldable pub auto_wire :
      Option (List Name) → Option (List Name) → List Name → List Name → Graph → List Line × Graph
  unfolding wire pairs
  auto_wire outputs inputs audio_in audio_out g =
      let (lines, g') = wire (pairs from_slave outputs audio_in) g in
      let (lines', g'') = wire (pairs to_slave inputs audio_out) g' in (lines ++ lines', g'')

  abbrev pub no_failure : List Line → Bool
  no_failure [] = true
  no_failure (wired p ∷ ls) = no_failure ls
  no_failure (failed p rc ∷ ls) = false

  abbrev pub AllConnected : Graph → List Pair → Type 0
  AllConnected g [] = Unit {0}
  AllConnected g (p ∷ ps) = (connected g p ≡ true) × AllConnected g ps

  wire_keeps :
      (ps : List Pair) (q : Pair) (g : Graph)
      → connected g q ≡ true
      → connected (wire ps g).1 q ≡ true
  unfolding wire
  wire_keeps [] q g h = h
  wire_keeps (p ∷ ps) q g h = wire_keeps ps q (connect p g).1 (J.keeps p q g h)

  all_keeps : (qs ps : List Pair) (g : Graph) → AllConnected g qs → AllConnected (wire ps g).1 qs
  all_keeps [] ps g h = tt
  all_keeps (q ∷ qs) ps g (h, hs) = (wire_keeps ps q g h, all_keeps qs ps g hs)

  first_succeeds :
      (p : Pair) (rc : ℕ) (ls : List Line)
      → no_failure (report p rc ++ ls) ≡ true
      → ((rc ≡ 0) ⊎ (rc ≡ eexist)) × (no_failure ls ≡ true)
  first_succeeds p rc ls h = ground arith

  connects_first :
      (p : Pair) (g : Graph)
      → ((connect p g).0 ≡ 0) ⊎ ((connect p g).0 ≡ eexist)
      → connected (connect p g).1 p ≡ true
  connects_first p g (inl h) = J.connects p g h
  connects_first p g (inr h) = J.keeps p p g (J.existed p g h)

  wire_all :
      (ps : List Pair) (g : Graph) → no_failure (wire ps g).0 ≡ true → AllConnected (wire ps g).1 ps
  unfolding wire
  wire_all [] g h = tt
  wire_all (p ∷ ps) g h =
      let (rc, rest) = first_succeeds p (connect p g).0 (wire ps (connect p g).1).0 h in
      (wire_keeps ps p (connect p g).1 (connects_first p g rc), wire_all ps (connect p g).1 rest)

  -- With every pair connected there is nothing to do.
  wire_connected : (ps : List Pair) (g : Graph) → AllConnected g ps → wire ps g ≡ ([], g)
  unfolding wire
  wire_connected [] g h = refl
  wire_connected (p ∷ ps) g (h, hs) = rw (J.exists p g h, wire_connected ps g hs) refl

  -- Both directions, in the order of `auto_wire`, with no failure between them.
  no_failure_append :
      (ls ls' : List Line)
      → no_failure (ls ++ ls') ≡ true
      → (no_failure ls ≡ true) × (no_failure ls' ≡ true)
  no_failure_append [] ls' h = (refl, h)
  no_failure_append (wired p ∷ ls) ls' h = no_failure_append ls ls' h
  no_failure_append (failed p rc ∷ ls) ls' h = cc

  again :
      (ps qs : List Pair) (g : Graph)
      → AllConnected g ps
      → AllConnected g qs
      → ◌≡◌ {A = List Line × Graph}
          ((wire ps g).0 ++ (wire qs (wire ps g).1).0, (wire qs (wire ps g).1).1)
          ([], g)
  again ps qs g all_ps all_qs = rw (wire_connected ps g all_ps, wire_connected qs g all_qs) refl

  -- Wiring is idempotent: after a run in which no connection failed, every pair that was asked for
  -- is connected, and another run over the same ports changes nothing and logs nothing.
  pub auto_wire_again :
      (outputs inputs : Option (List Name)) (audio_in audio_out : List Name) (g : Graph)
      → no_failure (auto_wire outputs inputs audio_in audio_out g).0 ≡ true
      → let g' = (auto_wire outputs inputs audio_in audio_out g).1 in
        AllConnected g' (pairs from_slave outputs audio_in)
        × AllConnected g' (pairs to_slave inputs audio_out)
        × (auto_wire outputs inputs audio_in audio_out g' ≡ ([], g'))
  unfolding auto_wire
  auto_wire_again outputs inputs audio_in audio_out g h =
      let ps = pairs from_slave outputs audio_in in
      let qs = pairs to_slave inputs audio_out in
      let g₁ = (wire ps g).1 in
      let (ok, ok') = no_failure_append (wire ps g).0 (wire qs g₁).0 h in
      let all_ps = all_keeps ps qs g₁ (wire_all ps g ok) in
      let all_qs = wire_all qs g₁ ok' in (all_ps, all_qs, again ps qs (wire qs g₁).1 all_ps all_qs)
