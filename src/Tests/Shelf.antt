-- ===== src/Tests/Shelf.antt =====
-- A store of many objects, the newest first, whose versions grow with each write.
use milk_carton.Base.{
  ◌≡◌, ◌≢◌, refl, sym, ap, ◌∙◌, Bool, true, ◌&&◌, Option, none, some, List, [], ◌∷◌, Bytes, length,
  arith, if◌then◌else◌, ◌==◌, ==_iff, ==_refl, ℕ-Eq, List-Eq, Option-Eq, Bool-cases, inl, inr,
}
use milk_carton.Store.{
  UpdateVersion, Object, GetOutcome, found, not_found, get_failed, PutOutcome, done, already_exists,
  precondition, put_failed, ObjectStore, StoreLaws,
}
use milk_carton.Persist.Keeps.{KeepLaws}

abbrev pub Shelf : Type 0
Shelf = List (Bytes × Object)

unfoldable pub lookup : Shelf → Bytes → GetOutcome
lookup [] key = not_found
lookup ((name, object) ∷ rest) key =
    let later = lookup rest key in if name == key then found object else later

abbrev first_version : UpdateVersion
first_version = record { e_tag = none; version = some [] }

abbrev digits : Option Bytes → Bytes
digits none = []
digits (some v) = v

abbrev next_version : UpdateVersion → UpdateVersion
next_version v = record { e_tag = none; version = some (0 ∷ digits v.version) }

abbrev create_on : Shelf → Bytes → Bytes → GetOutcome → PutOutcome × Shelf
create_on s key payload not_found =
    (done, (key, record { payload = payload; meta = first_version }) ∷ s)
create_on s key payload (found object) = (already_exists, s)
create_on s key payload (get_failed error) = (put_failed error, s)

abbrev same_version : UpdateVersion → UpdateVersion → Bool
same_version a b = a.e_tag == b.e_tag && a.version == b.version

abbrev update_on : Shelf → Bytes → UpdateVersion → Bytes → GetOutcome → PutOutcome × Shelf
update_on s key expected payload (found object) =
    if same_version object.meta expected
    then (done, (key, record { payload = payload; meta = next_version expected }) ∷ s)
    else (precondition, s)
update_on s key expected payload not_found = (precondition, s)
update_on s key expected payload (get_failed error) = (put_failed error, s)

unfoldable pub shelf : ObjectStore Shelf
shelf = record {
  get = lookup;
  create = λ s key payload. create_on s key payload (lookup s key);
  update = λ s key expected payload. update_on s key expected payload (lookup s key);
}

lookup_here :
    (s : Shelf) (key : Bytes) (object : Object) → lookup ((key, object) ∷ s) key ≡ found object
unfolding lookup
lookup_here s key object = rw (==_refl key) refl

lookup_elsewhere :
    (s : Shelf) (key other : Bytes) (object : Object)
    → other ≢ key
    → lookup ((key, object) ∷ s) other ≡ lookup s other
unfolding lookup
lookup_elsewhere s key other object apart = elim (Bool-cases (key == other)) [
  | inl same ↦ absurd (apart (sym ((==_iff key other).0 same)))
  | inr differ ↦ rw differ refl
]

and-true : (a b : Bool) → (a && b) ≡ true → (a ≡ true) × (b ≡ true)
and-true a b h = ground arith

same_version_sound : (a b : UpdateVersion) → same_version a b ≡ true → a ≡ b
same_version_sound a b h =
    let both = and-true (a.e_tag == b.e_tag) (a.version == b.version) h in
    let tags = (==_iff a.e_tag b.e_tag).0 both.0 in
    let versions = (==_iff a.version b.version).0 both.1 in cc

next_version-new : (v : UpdateVersion) → next_version v ≢ v
next_version-new v e =
    let longer = ap (λ (u : UpdateVersion). length (digits u.version)) e in omega (arith, longer)

create_on-done :
    (s : Shelf) (key payload : Bytes) (outcome : GetOutcome)
    → lookup s key ≡ outcome
    → (create_on s key payload outcome).0 ≡ done
    → (lookup s key ≡ not_found)
      × ((meta : UpdateVersion) × (lookup (create_on s key payload outcome).1 key
            ≡ found (record { payload = payload; meta = meta })))
create_on-done s key payload not_found e h = (e, (first_version, lookup_here s key _))
create_on-done s key payload (found object) e h = cc
create_on-done s key payload (get_failed error) e h = cc

update_on-done :
    (s : Shelf) (key : Bytes) (expected : UpdateVersion) (payload : Bytes) (outcome : GetOutcome)
    → lookup s key ≡ outcome
    → (update_on s key expected payload outcome).0 ≡ done
    → ((old : Bytes) × (lookup s key ≡ found (record { payload = old; meta = expected })))
      × ((meta : UpdateVersion) × (meta ≢ expected)
          × (lookup (update_on s key expected payload outcome).1 key
              ≡ found (record { payload = payload; meta = meta })))
update_on-done s key expected payload not_found e h = cc
update_on-done s key expected payload (get_failed error) e h = cc
update_on-done s key expected payload (found object) e h =
    elim (Bool-cases (same_version object.meta expected)) [
      | inl same ↦ (
        (
          object.payload,
          e
              ∙ ap (λ v. found (record { payload = object.payload; meta = v }))
                  (same_version_sound object.meta expected same),
        ),
        (next_version expected, next_version-new expected, rw same (lookup_here s key _)),
      )
      | inr differ ↦ absurd (ground (arith, differ, h))
    ]

update_on-refused :
    (s : Shelf) (key : Bytes) (expected : UpdateVersion) (payload : Bytes) (outcome : GetOutcome)
    → (update_on s key expected payload outcome).0 ≡ precondition
    → (update_on s key expected payload outcome).1 ≡ s
update_on-refused s key expected payload not_found h = refl
update_on-refused s key expected payload (get_failed error) h = refl
update_on-refused s key expected payload (found object) h =
    elim (Bool-cases (same_version object.meta expected)) [
      | inl same ↦ absurd (ground (arith, same, h))
      | inr differ ↦ rw differ refl
    ]

create_on-refused :
    (s : Shelf) (key payload : Bytes) (outcome : GetOutcome)
    → (create_on s key payload outcome).0 ≡ already_exists
    → (create_on s key payload outcome).1 ≡ s
create_on-refused s key payload not_found h = cc
create_on-refused s key payload (found object) h = refl
create_on-refused s key payload (get_failed error) h = refl

create_on-keeps :
    (s : Shelf) (key payload other : Bytes) (object : Object) (outcome : GetOutcome)
    → lookup s key ≡ outcome
    → lookup s other ≡ found object
    → lookup (create_on s key payload outcome).1 other ≡ found object
create_on-keeps s key payload other object (found present) e h = h
create_on-keeps s key payload other object (get_failed error) e h = h
create_on-keeps s key payload other object not_found e h =
    lookup_elsewhere s key other _ (λ same. absurd (apart same)) ∙ h
  where
    apart : other ≡ key → ⊥
    apart same = let both = sym h ∙ ap (lookup s) same ∙ e in absurd cc

create_on-elsewhere :
    (s : Shelf) (key payload other : Bytes) (outcome : GetOutcome)
    → other ≢ key
    → lookup (create_on s key payload outcome).1 other ≡ lookup s other
create_on-elsewhere s key payload other not_found apart = lookup_elsewhere s key other _ apart
create_on-elsewhere s key payload other (found present) apart = refl
create_on-elsewhere s key payload other (get_failed error) apart = refl

pub shelf-StoreLaws : StoreLaws shelf
unfolding shelf
shelf-StoreLaws = record {
  create_done = λ s key payload. create_on-done s key payload (lookup s key) refl;
  update_done = λ s key expected payload. update_on-done s key expected payload (lookup s key) refl;
  create_refused = λ s key payload. create_on-refused s key payload (lookup s key);
  update_refused =
      λ s key expected payload. update_on-refused s key expected payload (lookup s key);
}

pub shelf-KeepLaws : KeepLaws shelf
unfolding shelf
shelf-KeepLaws = record {
  create_keeps =
      λ s key payload other object. create_on-keeps s key payload other object (lookup s key) refl;
  create_elsewhere = λ s key payload other. create_on-elsewhere s key payload other (lookup s key);
}
