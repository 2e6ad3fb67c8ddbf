-- ===== src/Wiring/Backend.antt =====
-- The check of the JACK backend refuses a clock that is JackBridge itself.
use jack_router.Common.{
  ◌≡◌, ◌≢◌, refl, sym, ap, ◌∙◌, arith, true, Option, none, some, List, [], ◌∷◌, ◌++◌,
}
use jack_router.Common.Text.{Name, codes, begins, includes}
use jack_router.Wiring.{backend_ok, scan_aliases, check_jack_backend}

begins_append : (p s : Name) → begins p (p ++ s) ≡ true
begins_append [] s = refl
begins_append (c ∷ p) s = ground (arith, begins_append p s)

includes_of_begins : (p s : Name) → begins p s ≡ true → includes p s ≡ true
unfolding includes
includes_of_begins p [] h = h
includes_of_begins p (d ∷ s) h = ground arith

-- A name that has the text anywhere in it includes it.
includes_append : (before p later : Name) → includes p (before ++ (p ++ later)) ≡ true
unfolding includes
includes_append [] p later = includes_of_begins p (p ++ later) (begins_append p later)
includes_append (c ∷ before) p later = ground (arith, includes_append before p later)

scan_append :
    (earlier later : List Name) (alias : Name)
    → includes (codes "JackBridge") alias ≡ true
    → scan_aliases (earlier ++ alias ∷ later) ≢ backend_ok
unfolding scan_aliases
scan_append [] later alias h e = ground arith
scan_append (a ∷ earlier) later alias h e = ground (arith, scan_append earlier later alias h)

some_aliases :
    (aliases : List Name)
    → check_jack_backend (some aliases) ≡ backend_ok
    → scan_aliases aliases ≡ backend_ok
unfolding check_jack_backend
some_aliases [] h = ground arith
some_aliases (a ∷ aliases) h = h

some_alias : (aliases : List Name) → check_jack_backend (some aliases) ≡ backend_ok → aliases ≢ []
unfolding check_jack_backend
some_alias [] h e = ground arith
some_alias (a ∷ aliases) h e = cc

has_aliases :
    (playback : Option (List Name))
    → check_jack_backend playback ≡ backend_ok
    → (aliases : List Name) × (playback ≡ some aliases)
unfolding check_jack_backend
has_aliases none h = cc
has_aliases (some aliases) h = (aliases, refl)

-- When the daemon goes on after the check, there is a playback port, it has an alias, and no alias of
-- it has the name JackBridge anywhere in it.
pub check_jack_backend_safe :
    (playback : Option (List Name)) (earlier later : List Name) (before after : Name)
    → check_jack_backend playback ≡ backend_ok
    → (aliases : List Name) × (playback ≡ some aliases)
      × (aliases ≢ [])
      × (aliases ≢ earlier ++ (before ++ (codes "JackBridge" ++ after)) ∷ later)
check_jack_backend_safe playback earlier later before after h =
    let (aliases, e) = has_aliases playback h in
    let ok = sym (ap check_jack_backend e) ∙ h in
    (
      aliases,
      e,
      some_alias aliases ok,
      λ same.
          scan_append earlier later (before ++ (codes "JackBridge" ++ after))
            (includes_append before (codes "JackBridge") after)
            (ap scan_aliases (sym same) ∙ some_aliases aliases ok),
    )
