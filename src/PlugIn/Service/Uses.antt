-- ===== src/PlugIn/Service/Uses.antt =====
-- A call of a device through its ID: what it changes, and what it leaves alone.
use jack_router.Common.{
  ℕ, ◌≡◌, refl, sym, ap, ◌∙◌, arith, false, ◌==◌, ◌||◌, if◌then◌else◌, Bool-cases, inl, inr, some,
  ==_refl,
}
use mathlib.Core.Path.{subst}
use jack_router.Shm.{Shm}
use jack_router.Device.{Device}
use jack_router.Objects.Invariant.{IsValid}
use jack_router.PlugIn.{Contents, Driver}
use jack_router.PlugIn.Methods.{Method, put}
use jack_router.PlugIn.Calls.{
  Call, ◌>>◌, throw_if_other, throw_if_null, invoke, as_device, with_device,
}
use jack_router.PlugIn.Balance.{CanRefer, lookup, on_found, with_object-call_by_id}

-- The device that an ID leads to.
pub record LeadsTo {Value : Type 0} (id o : ℕ) (s : Driver Value) : Type 0 where
  pub valid : IsValid s.objects
  pub can_refer : CanRefer id s.objects
  pub leads : lookup id s.objects ≡ some o
  pub is_device : o == s.contents.plug_in ≡ false

module _ {Value A : Type 0} (id o : ℕ) (f : ℕ → Method Value A) (s : Driver Value) where
  as_device-f : o == s.contents.plug_in ≡ false → invoke (as_device f o) s ≡ invoke (f o) s
  as_device-f h = ground arith

  pub with_device-LeadsTo : LeadsTo id o s → with_device id f s ≡ invoke (f o) s
  unfolding with_device
  with_device-LeadsTo l =
      with_object-call_by_id id (as_device f) s l.valid l.can_refer
      ∙ ap (λ found. on_found found (as_device f) s) l.leads
      ∙ as_device-f l.is_device

module _ {Value : Type 0} where
  -- What lies behind the map: the device at `o` and its region are these, and all else is as before.
  pub record Touches (o : ℕ) (st : Device Value × Shm) (c c' : Contents Value) : Type 0 where
    pub device : c'.device o ≡ st.0
    pub shm : c'.shm o ≡ st.1
    pub others : (o' : ℕ) → o == o' ≡ false → (c'.device o' ≡ c.device o') × (c'.shm o' ≡ c.shm o')
    pub same_plug_in : c'.plug_in ≡ c.plug_in
    pub same_reference : c'.reference ≡ c.reference

  pub put-Touches :
      (o : ℕ) (d : Device Value) (m : Shm) (c : Contents Value) → Touches o (d, m) c (put o d m c)
  put-Touches o d m c = record {
    device = rw (==_refl o) refl;
    shm = rw (==_refl o) refl;
    others = λ o' ne. (rw ne refl, rw ne refl);
    same_plug_in = refl;
    same_reference = refl;
  }

  pub nothing-Touches : (o : ℕ) (c : Contents Value) → Touches o (c.device o, c.shm o) c c
  nothing-Touches o c = record {
    device = refl;
    shm = refl;
    others = λ o' ne. (refl, refl);
    same_plug_in = refl;
    same_reference = refl;
  }

  pub record Uses (o : ℕ) (st : Device Value × Shm) (s s' : Driver Value) : Type 0 where
    pub same_objects : s'.objects ≡ s.objects
    pub contents : Touches o st s.contents s'.contents

  pub nothing-Uses : (o : ℕ) (s : Driver Value) → Uses o (s.contents.device o, s.contents.shm o) s s
  nothing-Uses o s = record { same_objects = refl; contents = nothing-Touches o s.contents }

  pub Uses-LeadsTo :
      {id o : ℕ} {st : Device Value × Shm} {s s' : Driver Value}
      → Uses o st s s'
      → LeadsTo id o s
      → LeadsTo id o s'
  Uses-LeadsTo {id} {o} u l = record {
    valid = subst IsValid (sym u.same_objects) l.valid;
    can_refer = subst (CanRefer id) (sym u.same_objects) l.can_refer;
    leads = subst (λ m. lookup id m ≡ some o) (sym u.same_objects) l.leads;
    is_device = ap (λ x. o == x) u.contents.same_plug_in ∙ l.is_device;
  }

module _ {Value : Type 0} {o : ℕ} {st : Device Value × Shm} {s s' : Driver Value}
    (u : Uses o st s s') where
  pub Uses-seen :
      let seen : Device Value × Shm = (s'.contents.device o, s'.contents.shm o) in seen ≡ st
  Uses-seen = λ i. (u.contents.device i, u.contents.shm i)

  pub Uses-trans :
      {st' : Device Value × Shm} {s'' : Driver Value} → Uses o st' s' s'' → Uses o st' s s''
  Uses-trans v = record {
    same_objects = v.same_objects ∙ u.same_objects;
    contents = record {
      device = v.contents.device;
      shm = v.contents.shm;
      others = λ o' ne. (
        (v.contents.others o' ne).0 ∙ (u.contents.others o' ne).0,
        (v.contents.others o' ne).1 ∙ (u.contents.others o' ne).1,
      );
      same_plug_in = v.contents.same_plug_in ∙ u.contents.same_plug_in;
      same_reference = v.contents.same_reference ∙ u.contents.same_reference;
    };
  }

module _ {Value A : Type 0} (id o : ℕ) (f : ℕ → Method Value A) (s : Driver Value)
    (st : Device Value × Shm) (l : LeadsTo id o s)
    (h : Touches o st s.contents (f o s.contents).1) where
  pub with_device-Uses :
      Uses o st s ((do throw_if_other s.contents.reference; with_device id f) s).1
  with_device-Uses =
      rw (==_refl s.contents.reference, with_device-LeadsTo id o f s l)
        (record { same_objects = refl; contents = h })

module _ {Value A : Type 0} (m : Call Value A) (o : ℕ) (s : Driver Value) where
  pub guard_2-Uses :
      (p q : ℕ)
      → Uses o
          (s.contents.device o, s.contents.shm o)
          s
          ((do throw_if_other s.contents.reference; m) s).1
      → Uses o
          (s.contents.device o, s.contents.shm o)
          s
          ((do throw_if_other s.contents.reference; throw_if_null p; throw_if_null q; m) s).1
  guard_2-Uses p q h = elim (Bool-cases (p == 0)) [
    | inl e ↦ rw (e, ==_refl s.contents.reference) (nothing-Uses o s)
    | inr e ↦ elim (Bool-cases (q == 0)) [
      | inl g ↦ rw (e, g, ==_refl s.contents.reference) (nothing-Uses o s)
      | inr g ↦ rw (e, g) h
    ]
  ]

module _ {Value A : Type 0} (m : Call Value A) (o : ℕ) (s : Driver Value) (st : Device Value × Shm)
    (h : Uses o st s ((do throw_if_other s.contents.reference; m) s).1) where
  pub guard_3-Uses :
      (p q r : ℕ)
      → Uses o
          (if p == 0 || q == 0 || r == 0 then (s.contents.device o, s.contents.shm o) else st)
          s
          ((do
            throw_if_other s.contents.reference
            throw_if_null p
            throw_if_null q
            throw_if_null r
            m)
            s).1
  guard_3-Uses p q r = elim (Bool-cases (p == 0)) [
    | inl e ↦ rw (e, ==_refl s.contents.reference) (nothing-Uses o s)
    | inr e ↦ elim (Bool-cases (q == 0)) [
      | inl g ↦ rw (e, g, ==_refl s.contents.reference) (nothing-Uses o s)
      | inr g ↦ elim (Bool-cases (r == 0)) [
        | inl k ↦ rw (e, g, k, ==_refl s.contents.reference) (nothing-Uses o s)
        | inr k ↦ rw (e, g, k) h
      ]
    ]
  ]
