-- ===== src/PlugIn/Answers.antt =====
-- The queries through the entry points, of the plug-in and of its devices alike.
use jack_router.Common.{
  ℕ, ◌≤◌, ◌≡◌, ◌≢◌, refl, sym, ap, ◌∙◌, arith, Bool, true, false, ◌==◌, Option, none, some, List,
  inl, inr, Bool-cases,
}
use jack_router.Common.Float.{Float64}
use jack_router.Objects.Invariant.{IsValid}
use jack_router.Properties.{
  Selector, translate_uid_to_device, Address, Result, ok, throws, faults, nothing, Answer,
}
use jack_router.Properties.Base.{Identity}
use jack_router.Properties.Queries.{written, is_flag, get_property_data_fits}
use jack_router.PlugIn.{Reply, success, fails, Contents, Driver}
use jack_router.PlugIn.Object.{plug_in_get_property_data_size, plug_in_get_property_data}
use jack_router.PlugIn.Methods.{reply, object_has, object_data_size, object_data}
use jack_router.PlugIn.Calls.{Call, ◌>>◌, throw_if_other, throw_if_null, with_object, if_has}
use jack_router.PlugIn.Entry.{
  size_method, data_method, sa_get_property_data_size, sa_get_property_data,
}
use jack_router.PlugIn.Balance.{CanRefer, on_found, lookup, with_object-call_by_id}

plug_in_fits :
    (Value : Type 0) (i : Identity) (devices : List ℕ) (s : Selector) (qualifier_size n : ℕ)
    → 8 ≤ qualifier_size
    → plug_in_get_property_data_size devices s ≡ ok n
    → written (plug_in_get_property_data {Value = Value} i devices s qualifier_size n) ≡ ok n
unfolding plug_in_get_property_data_size plug_in_get_property_data
plug_in_fits Value i devices s qualifier_size n q h = ground arith

-- The UID translation never answers: whatever the UID, what it writes is nothing at all.
pub translate_uid_to_device_answer :
    {Value : Type 0} (i : Identity) (devices : List ℕ) (qualifier_size in_size : ℕ)
    (b : Answer Value)
    → plug_in_get_property_data i devices translate_uid_to_device qualifier_size in_size ≡ ok b
    → (b.size ≡ 4) × (b.datum ≡ nothing)
unfolding plug_in_get_property_data
translate_uid_to_device_answer i devices qualifier_size in_size b h = ground arith

-- How much an answer takes.
abbrev pub reply_size : {Value : Type 0} → Reply (Answer Value) → Reply ℕ
reply_size (success b) = success b.size
reply_size (fails e) = fails e
reply_size Reply.faults = Reply.faults

module _ (F : Float64) (plug_in_identity device_identity : Identity) where
  open F use {Value}

  -- A query of the activity of a stream reads a flag that there is; one of any other property always
  -- passes.
  abbrev pub HasFlag : ℕ → Address → Contents Value → ℕ → Type 0
  HasFlag id a c o = is_flag F device_identity (c.device o) id a.selector a.scope ≡ true

  object_fits :
      (id : ℕ) (a : Address) (qualifier_size n o : ℕ) (c : Contents Value)
      → 8 ≤ qualifier_size
      → HasFlag id a c o
      → object_data_size id a o c ≡ ok n
      → written (object_data F plug_in_identity device_identity id a qualifier_size n o c) ≡ ok n
  unfolding object_data_size object_data
  object_fits id a qualifier_size n o c q g h = elim (Bool-cases (o == c.plug_in)) [
    | inl e ↦
        rw e (
          plug_in_fits Value plug_in_identity c.device_ids a.selector qualifier_size n q
            (rw e at h))
    | inr e ↦ rw e (get_property_data_fits F device_identity (c.device o) id a n g (rw e at h))
  ]

  written_success :
      (r : Result (Answer Value)) (n : ℕ) → written r ≡ ok n → reply_size (reply r) ≡ success n
  written_success (ok b) n h = ground arith
  written_success (throws e) n h = cc
  written_success faults n h = cc

  reply_ok : (r : Result ℕ) (n : ℕ) → reply r ≡ success n → r ≡ ok n
  reply_ok (ok m) n h = ground arith
  reply_ok (throws e) n h = cc
  reply_ok faults n h = cc

  has_it :
      {A : Type 0} (r : Reply Bool) (f : Contents Value → Reply A × Contents Value)
      (c : Contents Value) (x : A)
      → (if_has r f c).0 ≡ success x
      → r ≡ success true
  has_it (success true) f c x h = refl
  has_it (success false) f c x h = cc
  has_it (fails e) f c x h = cc
  has_it Reply.faults f c x h = cc

  method_fits :
      (in_driver id : ℕ) (a : Address) (qualifier_size n o : ℕ) (c : Contents Value)
      → 8 ≤ qualifier_size
      → HasFlag id a c o
      → (size_method in_driver id a o c).0 ≡ success n
      → let r =
          data_method F plug_in_identity device_identity in_driver id a qualifier_size n o c in
        (reply_size r.0 ≡ success n) × (r.1 ≡ c)
  unfolding size_method data_method
  method_fits in_driver id a qualifier_size n o c q g h =
      let e =
        has_it (reply (object_has id a o c)) (λ c'. (reply (object_data_size id a o c'), c')) c n
          h in
      rw e (
        written_success (object_data F plug_in_identity device_identity id a qualifier_size n o c) n
            (object_fits id a qualifier_size n o c q g
              (reply_ok (object_data_size id a o c) n (rw e at h))),
        refl,
      )

  -- The guards let a call through that comes by the driver's reference, with its pointers set.
  passes_1 :
      {A : Type 0} (m : Call Value A) (p : ℕ) (s : Driver Value)
      → p ≢ 0
      → ((do throw_if_other s.contents.reference; throw_if_null p; m) s) ≡ m s
  passes_1 m p s ne = ground arith

  passes_2 :
      {A : Type 0} (m : Call Value A) (p q : ℕ) (s : Driver Value)
      → p ≢ 0
      → q ≢ 0
      → ((do throw_if_other s.contents.reference; throw_if_null p; throw_if_null q; m) s) ≡ m s
  passes_2 m p q s ne ne' = ground arith

  found_fits :
      (found : Option ℕ) (in_driver id : ℕ) (a : Address) (qualifier_size n : ℕ) (s : Driver Value)
      → 8 ≤ qualifier_size
      → ((o : ℕ) → found ≡ some o → HasFlag id a s.contents o)
      → (on_found found (size_method in_driver id a) s).0 ≡ success n
      → let r =
          on_found found
            (data_method F plug_in_identity device_identity in_driver id a qualifier_size n)
            s in
        (reply_size r.0 ≡ success n) × (r.1 ≡ s)
  found_fits none in_driver id a qualifier_size n s q g h = cc
  found_fits (some o) in_driver id a qualifier_size n s q g h =
      let (size, same) = method_fits in_driver id a qualifier_size n o s.contents q (g o refl) h in
      (size, ap (λ c. record s { contents = c }) same)

  -- The query with as much space as the size query has reported, through the entry points, of whatever
  -- object the ID leads to: it succeeds, fills just that space, and changes nothing. The qualifier
  -- must have room for a UID. A query of the activity of a stream, and no other, must find a flag for
  -- the stream in the scope that it names.
  pub sa_get_property_data_fits :
      (id out out_size qualifier_size n : ℕ) (a : Address) (s : Driver Value)
      → IsValid s.objects
      → CanRefer id s.objects
      → out ≢ 0
      → out_size ≢ 0
      → 8 ≤ qualifier_size
      → ((o : ℕ) → lookup id s.objects ≡ some o → HasFlag id a s.contents o)
      → (sa_get_property_data_size s.contents.reference id (some a) out_size s).0 ≡ success n
      → let r =
          sa_get_property_data F plug_in_identity device_identity s.contents.reference id
            (some a)
            qualifier_size
            n
            out_size
            out
            s in
        (reply_size r.0 ≡ success n) × (r.1 ≡ s)
  unfolding sa_get_property_data_size sa_get_property_data
  sa_get_property_data_fits id out out_size qualifier_size n a s v spare ne ne' q g h =
      let reference = s.contents.reference in
      let sizes = with_object-call_by_id id (size_method reference id a) s v spare in
      let size_called =
        passes_1 (with_object id (size_method reference id a)) out_size s ne' ∙ sizes in
      let query = data_method F plug_in_identity device_identity reference id a qualifier_size n in
      let data_called =
        passes_2 (with_object id query) out_size out s ne' ne
        ∙ with_object-call_by_id id query s v spare in
      let (size, same) =
        found_fits (lookup id s.objects) reference id a qualifier_size n s q g
          (sym (ap (λ r. r.0) size_called) ∙ h) in
      (ap (λ r. reply_size r.0) data_called ∙ size, ap (λ r. r.1) data_called ∙ same)
