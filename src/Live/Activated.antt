-- ===== src/Live/Activated.antt =====
-- What a successful activation has done to the live route.
use milk_carton.Base.{
  ℕ, ◌≡◌, ◌⊎◌, inl, inr, refl, sym, ap, ◌∙◌, true, not, Option, none, some, Bytes, ◌==◌, ==_iff,
  ℕ-Eq, List-Eq, Option-Eq, Result, ok, err, context, >>=-eq-ok, bail_if-eq-ok, bail_if-ok,
  context-eq-ok, ok-injective, not-false, Bool-cases, arith,
}
use milk_carton.Route.Types.{Uuid, RouteScope, RouteLivePointer, RoutePublication}
use milk_carton.Route.Libs.{Libs}
use milk_carton.Route.Pointer.{new_pointer}
use milk_carton.Store.{UpdateVersion, ObjectStore}
use milk_carton.Live.{
  pointer_eq, check_previous, load_live_pointer, confirm, put_first, put_next, put_pointer,
  put_over, activate_pointer, activate_route,
}

pub pointer_eq_sound : (a b : RouteLivePointer) → pointer_eq a b ≡ true → a ≡ b
unfolding pointer_eq
pointer_eq_sound a b h = ground (
  arith,
  ==_iff a.route_revision b.route_revision,
  ==_iff a.previous_route_revision b.previous_route_revision,
)

-- The pointer that a publication makes live.
abbrev pub published : RouteScope → RoutePublication → RouteLivePointer
published scope publication = record {
  scope = scope;
  route_revision = publication.revision;
  previous_route_revision = publication.previous_route_revision;
}

check_previous-ok :
    (publication : RoutePublication) (current : RouteLivePointer)
    → check_previous publication current ≡ ok tt
    → publication.previous_route_revision ≡ some current.route_revision
unfolding check_previous
check_previous-ok publication current h =
    let (previous, is_previous, h) =
      >>=-eq-ok (context publication.previous_route_revision _) _ h in
    let same =
      (==_iff current.route_revision previous).0
        (not-false _ (bail_if-ok (not (current.route_revision == previous)) _ h)) in
    context-eq-ok publication.previous_route_revision _ is_previous ∙ ap some (sym same)

module _ {S : Type 0} (libs : Libs) (uuid_text : Uuid → Bytes) (store : ObjectStore S)
    (interfere : ℕ → S → S) (scope : RouteScope) where
  -- The live pointer of the scope.
  abbrev pub IsLive : RouteLivePointer → S → Type 0
  IsLive pointer s =
      (meta : UpdateVersion) × (load_live_pointer libs uuid_text store interfere scope s
        ≡ ok (some (pointer, meta)))

  -- Where an activation may start: from no live route, if the publication names no previous revision,
  -- from the revision that it names, or from itself.
  abbrev pub Follows :
      RoutePublication → RouteLivePointer → Option (RouteLivePointer × UpdateVersion) → Type 0
  Follows publication pointer none = publication.previous_route_revision ≡ none
  Follows publication pointer (some (current, meta)) =
      (current ≡ pointer) ⊎ (publication.previous_route_revision ≡ some current.route_revision)

  confirm-IsLive :
      (pointer : RouteLivePointer) (r : Result (Unit {0}) × S)
      → (confirm libs uuid_text store interfere scope pointer r).0 ≡ ok tt
      → IsLive pointer (confirm libs uuid_text store interfere scope pointer r).1
  unfolding confirm
  confirm-IsLive pointer (err e, s) h = cc
  confirm-IsLive pointer (ok _, s) h =
      let (loaded, load, h) =
        >>=-eq-ok (load_live_pointer libs uuid_text store interfere scope (interfere 2 s)) _ h in
      let (stored, is_stored, h) = >>=-eq-ok (context loaded _) _ h in
      let same =
        pointer_eq_sound stored.0 pointer
          (not-false _ (bail_if-ok (not (pointer_eq stored.0 pointer)) _ h)) in
      (
        stored.1,
        load ∙ ap ok (context-eq-ok loaded _ is_stored ∙ ap (λ p. some (p, stored.1)) same),
      )

  -- An activation that succeeds, whatever other writers do in between, follows the live route that
  -- it has loaded, and leaves its own pointer live.
  abbrev Activated :
      RoutePublication
      → RouteLivePointer
      → Option (RouteLivePointer × UpdateVersion)
      → Result (Unit {0}) × S
      → Type 0
  Activated publication pointer loaded r =
      (Follows publication pointer loaded) × (IsLive pointer r.1)

  put_first-Activated :
      (publication : RoutePublication) (pointer : RouteLivePointer) (previous : Option Bytes)
      (s : S)
      → publication.previous_route_revision ≡ previous
      → (put_first libs uuid_text store interfere scope pointer previous s).0 ≡ ok tt
      → Activated publication pointer none
          (put_first libs uuid_text store interfere scope pointer previous s)
  unfolding put_first
  put_first-Activated publication pointer (some p) s same h = cc
  put_first-Activated publication pointer none s same h = (same, confirm-IsLive pointer _ h)

  put_next-Activated :
      (publication : RoutePublication) (pointer current : RouteLivePointer) (meta : UpdateVersion)
      (checked : Result (Unit {0})) (s : S)
      → check_previous publication current ≡ checked
      → (put_next libs uuid_text store interfere scope pointer meta checked s).0 ≡ ok tt
      → Activated publication pointer
          (some (current, meta))
          (put_next libs uuid_text store interfere scope pointer meta checked s)
  unfolding put_next
  put_next-Activated publication pointer current meta (err e) s same h = cc
  put_next-Activated publication pointer current meta (ok _) s same h =
      (inr (check_previous-ok publication current same), confirm-IsLive pointer _ h)

  put_pointer-Activated :
      (publication : RoutePublication) (pointer : RouteLivePointer)
      (loaded : Option (RouteLivePointer × UpdateVersion)) (s : S)
      → load_live_pointer libs uuid_text store interfere scope s ≡ ok loaded
      → (put_pointer libs uuid_text store interfere scope publication pointer loaded s).0 ≡ ok tt
      → Activated publication pointer loaded
          (put_pointer libs uuid_text store interfere scope publication pointer loaded s)
  unfolding put_pointer
  put_pointer-Activated publication pointer none s load h =
      put_first-Activated publication pointer publication.previous_route_revision s refl h
  put_pointer-Activated publication pointer (some (current, meta)) s load h =
      elim (Bool-cases (pointer_eq current pointer)) [
        | inl same ↦
            let is_pointer = pointer_eq_sound current pointer same in
            rw same (
              inl is_pointer,
              (meta, load ∙ ap (λ (p : RouteLivePointer). ok (some (p, meta))) is_pointer),
            )
        | inr other ↦ rw other (
            put_next-Activated publication pointer current meta (check_previous publication current)
              s refl (rw other at h))
      ]

  put_over-Activated :
      (publication : RoutePublication) (pointer : RouteLivePointer)
      (loaded : Result (Option (RouteLivePointer × UpdateVersion))) (s : S)
      → load_live_pointer libs uuid_text store interfere scope s ≡ loaded
      → (put_over libs uuid_text store interfere scope publication pointer loaded s).0 ≡ ok tt
      → (before : Option (RouteLivePointer × UpdateVersion)) × (loaded ≡ ok before)
        × (Activated publication pointer before
            (put_over libs uuid_text store interfere scope publication pointer loaded s))
  unfolding put_over
  put_over-Activated publication pointer (err e) s load h = cc
  put_over-Activated publication pointer (ok before) s load h =
      (before, refl, put_pointer-Activated publication pointer before s load h)

  activate_pointer-Activated :
      (publication : RoutePublication) (made : Result RouteLivePointer) (pointer : RouteLivePointer)
      (s : S)
      → ((p : RouteLivePointer) → made ≡ ok p → p ≡ pointer)
      → (activate_pointer libs uuid_text store interfere scope publication made s).0 ≡ ok tt
      → (before : Option (RouteLivePointer × UpdateVersion)) × (load_live_pointer libs uuid_text
            store interfere scope
            (interfere 0 s)
          ≡ ok before)
        × (Activated publication pointer before
            (activate_pointer libs uuid_text store interfere scope publication made s))
  unfolding activate_pointer
  activate_pointer-Activated publication (err e) pointer s same h = cc
  activate_pointer-Activated publication (ok p) pointer s same h = rw (← same p refl) (
      put_over-Activated publication p
        (load_live_pointer libs uuid_text store interfere scope (interfere 0 s)) (interfere 0 s)
        refl h)

new_pointer-published :
    (scope : RouteScope) (publication : RoutePublication) (p : RouteLivePointer)
    → new_pointer scope publication.revision publication.previous_route_revision ≡ ok p
    → p ≡ published scope publication
unfolding new_pointer
new_pointer-published scope publication p h = sym (
    ok-injective
      (bail_if-eq-ok (publication.previous_route_revision == some publication.revision) _ _ h).1)

-- An activation that succeeds, whatever other writers do between its accesses of the store, leaves
-- the pointer of its publication live, and follows what it has loaded: no live route, and then the
-- publication names no previous revision, or the live route of the revision that the publication
-- names, or the publication's own pointer.
pub activate_route-Follows :
    {S : Type 0} (libs : Libs) (uuid_text : Uuid → Bytes) (store : ObjectStore S)
    (interfere : ℕ → S → S) (scope : RouteScope) (publication : RoutePublication) (s : S)
    → (activate_route libs uuid_text store interfere scope publication s).0 ≡ ok tt
    → (before : Option (RouteLivePointer × UpdateVersion)) × (load_live_pointer libs uuid_text store
          interfere scope
          (interfere 0 s)
        ≡ ok before)
      × (Follows libs uuid_text store interfere scope publication
          (published scope publication)
          before)
      × (IsLive libs uuid_text store interfere scope
          (published scope publication)
          (activate_route libs uuid_text store interfere scope publication s).1)
unfolding activate_route
activate_route-Follows libs uuid_text store interfere scope publication s h =
    let (before, load, (follows, live)) =
      activate_pointer-Activated libs uuid_text store interfere scope publication
        (new_pointer scope publication.revision publication.previous_route_revision)
        (published scope publication) s (new_pointer-published scope publication) h in
    (before, load, follows, live)
