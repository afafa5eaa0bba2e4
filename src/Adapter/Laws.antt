-- ===== src/Adapter/Laws.antt =====
-- Both backends give back the floor that was set, and keep their own cap.
use warmrunners.Base.{
  String, ◌≡◌, refl, ◌∙◌, Option, none, some, List, [], ◌∷◌, arith, ◌≢◌, ℤ, to_i32, to_i32_idem,
  InI32, subst, ok, ◌>>=◌, first_ok, eq_iff,
}
use warmrunners.Policy.{Ref}
use warmrunners.Adapter.{
  Gvk, Client, Adapter, wrap_error, floor_of, max_of, arc_gvk, garm_gvk, arc_get_floor, arc_get_max,
  arc_set_floor, garm_get_floor, garm_get_max, garm_set_floor, arc_adapter, garm_adapter,
}

-- What the documentation of the client and of `unstructured` promises.
pub record IsLawful (c : Client) : Type 0 where
  -- A field that was set is read back.
  pub nested-set :
      (o o' : c.Object) (v : ℤ) (path : List String)
      → c.set_nested_field o v path ≡ ok o'
      → c.nested_int64 o' path ≡ ok (some v)
  -- A sibling of the field that was set is as before.
  pub nested-set_ne :
      (o o' : c.Object) (v : ℤ) (parent f g : String)
      → f ≢ g
      → c.set_nested_field o v (parent ∷ f ∷ []) ≡ ok o'
      → c.nested_int64 o' (parent ∷ g ∷ []) ≡ c.nested_int64 o (parent ∷ g ∷ [])
  -- What was read, changed in a field and accepted by `Update` is what the next `Get` returns.
  pub get-update :
      (w w' : c.Cluster) (k : Gvk) (ref : Ref) (o o' : c.Object) (v : ℤ) (path : List String)
      → c.get w k ref ≡ ok o
      → c.set_nested_field o v path ≡ ok o'
      → c.update w k o' ≡ ok w'
      → (o'' : c.Object) × (c.get w' k ref ≡ ok o'')
        × ((p : List String) → c.nested_int64 o'' p ≡ c.nested_int64 o' p)

-- What a backend promises of a floor, an int32.
pub record IsFaithful {Cluster : Type 0} (a : Adapter Cluster) : Type 0 where
  pub get-set :
      (w w' : Cluster) (ref : Ref) (v : ℤ)
      → InI32 v
      → a.set_floor w ref v ≡ ok w'
      → a.get_floor w' ref ≡ ok v
  pub max-set :
      (w w' : Cluster) (ref : Ref) (v : ℤ)
      → a.set_floor w ref v ≡ ok w'
      → a.get_max w' ref ≡ a.get_max w ref
  -- A cap that is read is an int32.
  pub max_range : (w : Cluster) (ref : Ref) (v : ℤ) → a.get_max w ref ≡ ok (some v) → InI32 v

-- The steps of a `SetFloor` that returned no error.
record Landed (c : Client) (w w' : c.Cluster) (k : Gvk) (ref : Ref) (v : ℤ) (field : String)
    : Type 0 where
  before : c.Object
  after : c.Object
  got : c.get w k ref ≡ ok before
  get_after : c.get w' k ref ≡ ok after
  floor_read : c.nested_int64 after ("spec" ∷ field ∷ []) ≡ ok (some v)
  others_kept :
      (g : String)
      → field ≢ g
      → c.nested_int64 after ("spec" ∷ g ∷ []) ≡ c.nested_int64 before ("spec" ∷ g ∷ [])

module _ (c : Client) (lawful : IsLawful c) (k : Gvk) (field : String) where
  landed :
      (w w' : c.Cluster) (ref : Ref) (v : ℤ)
      → (c.get w k ref >>= λ u.
          c.set_nested_field u v ("spec" ∷ field ∷ []) >>= λ u'. c.update w k u')
        ≡ ok w'
      → Landed c w w' k ref v field
  landed w w' ref v h =
      let (o, got, rest) = first_ok (c.get w k ref) _ h in
      let (o', changed, updated) = first_ok (c.set_nested_field o v ("spec" ∷ field ∷ [])) _ rest in
      let (o'', get_after, same) = lawful.get-update w w' k ref o o' v _ got changed updated in
      record {
        before = o;
        after = o'';
        got = got;
        get_after = get_after;
        floor_read = same _ ∙ lawful.nested-set o o' v _ changed;
        others_kept = λ g ne. same _ ∙ lawful.nested-set_ne o o' v "spec" field g ne changed;
      }

min-ne-max : ◌≢◌ {A = String} "minRunners" "maxRunners"
min-ne-max = ground (arith, eq_iff "minRunners" "maxRunners")

idle-ne-max : ◌≢◌ {A = String} "minIdleRunners" "maxRunners"
idle-ne-max = ground (arith, eq_iff "minIdleRunners" "maxRunners")

max_of-range : (m : Option ℤ) (v : ℤ) → ok (max_of m) ≡ ok (some v) → InI32 v
unfolding max_of
max_of-range none v h = cc
max_of-range (some x) v h = let e : to_i32 x ≡ v = cc in subst InI32 e (to_i32_idem x)

module _ (c : Client) (lawful : IsLawful c) where
  arc_max_range : (w : c.Cluster) (ref : Ref) (v : ℤ) → arc_get_max c w ref ≡ ok (some v) → InI32 v
  unfolding arc_get_max
  arc_max_range w ref v h =
      let (o, got, rest) = first_ok (c.get w arc_gvk ref) _ h in
      let (m, read, last) = first_ok (wrap_error "spec.maxRunners" (c.nested_int64 o _)) _ rest in
      max_of-range m v last

  garm_max_range :
      (w : c.Cluster) (ref : Ref) (v : ℤ) → garm_get_max c w ref ≡ ok (some v) → InI32 v
  unfolding garm_get_max
  garm_max_range w ref v h =
      let (o, got, rest) = first_ok (c.get w garm_gvk ref) _ h in
      let (m, read, last) = first_ok (c.nested_int64 o _) _ rest in max_of-range m v last

  pub arc_adapter-IsFaithful : IsFaithful (arc_adapter c)
  unfolding arc_adapter arc_get_floor arc_get_max arc_set_floor wrap_error floor_of
  arc_adapter-IsFaithful = record {
    get-set = λ w w' ref v small h.
        let l = landed c lawful arc_gvk "minRunners" w w' ref v h in
        rw (l.get_after, l.floor_read, small) refl;
    max-set = λ w w' ref v h.
        let l = landed c lawful arc_gvk "minRunners" w w' ref v h in
        rw (l.got, l.get_after, l.others_kept "maxRunners" min-ne-max) refl;
    max_range = λ w ref v h. arc_max_range w ref v h;
  }

  pub garm_adapter-IsFaithful : IsFaithful (garm_adapter c)
  unfolding garm_adapter garm_get_floor garm_get_max garm_set_floor wrap_error floor_of
  garm_adapter-IsFaithful = record {
    get-set = λ w w' ref v small h.
        let l = landed c lawful garm_gvk "minIdleRunners" w w' ref v h in
        rw (l.get_after, l.floor_read, small) refl;
    max-set = λ w w' ref v h.
        let l = landed c lawful garm_gvk "minIdleRunners" w w' ref v h in
        rw (l.got, l.get_after, l.others_kept "maxRunners" idle-ne-max) refl;
    max_range = λ w ref v h. garm_max_range w ref v h;
  }

  -- On ARC an int32 floor that was set is read back, and setting it leaves the backend's cap as it was.
  pub arc_set_floor-lands :
      (w w' : c.Cluster) (ref : Ref) (v : ℤ)
      → InI32 v
      → arc_set_floor c w ref v ≡ ok w'
      → (arc_get_floor c w' ref ≡ ok v) × (arc_get_max c w' ref ≡ arc_get_max c w ref)
  unfolding arc_adapter
  arc_set_floor-lands w w' ref v small h =
      let f = arc_adapter-IsFaithful in (f.get-set w w' ref v small h, f.max-set w w' ref v h)

  -- On GARM an int32 floor that was set is read back, and setting it leaves the backend's cap as it was.
  pub garm_set_floor-lands :
      (w w' : c.Cluster) (ref : Ref) (v : ℤ)
      → InI32 v
      → garm_set_floor c w ref v ≡ ok w'
      → (garm_get_floor c w' ref ≡ ok v) × (garm_get_max c w' ref ≡ garm_get_max c w ref)
  unfolding garm_adapter
  garm_set_floor-lands w w' ref v small h =
      let f = garm_adapter-IsFaithful in (f.get-set w w' ref v small h, f.max-set w w' ref v h)
