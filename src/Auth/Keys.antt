-- ===== src/Auth/Keys.antt =====
-- The configured keys are distinct, and a request is authenticated as the one key that it names.
use milk_carton.Base.{
  ◌≡◌, ◌≢◌, ◌⊎◌, ◌↔◌, inl, inr, refl, sym, ap, ◌∙◌, true, false, ◌||◌, Option, none, some, List, [],
  ◌∷◌, Bytes, length, ltb, nat_eq, nat_eq_iff, ℕ-Eq, List-Eq, ok, >>=-eq-ok, bail_if-eq-ok,
  ok-injective, Bool-cases, eq-of-some, arith, subst,
}
use milk_carton.Hex.{decode_lowercase_sha256}
use milk_carton.Route.Types.{Uuid}
use milk_carton.Auth.{
  TrafficKeyConfig, TrafficKey, AuthLibs, max_traffic_keys, member, reason_invalid, configure_key,
  configure, configured_traffic_keys, matches, last_match,
}

-- Keys whose identifiers and digests differ from each other's and from those before them.
abbrev pub Distinct : List Uuid → List Bytes → List TrafficKey → Type 0
Distinct key_ids hashes [] = Unit {0}
Distinct key_ids hashes (key ∷ keys) =
    (member key_ids key.key_id ≡ false)
    × (member hashes key.api_key_sha256 ≡ false)
    × (key.key_id ≢ 0)
    × (Distinct (key.key_id ∷ key_ids) (key.api_key_sha256 ∷ hashes) keys)

abbrev pub In : TrafficKey → List TrafficKey → Type 0
In key [] = ⊥
In key (k ∷ keys) = (key ≡ k) ⊎ In key keys

configure_key-ok :
    (key_ids : List Uuid) (hashes : List Bytes) (value : TrafficKeyConfig) (key : TrafficKey)
    → configure_key key_ids hashes value ≡ ok key
    → (member key_ids key.key_id ≡ false)
      × (member hashes key.api_key_sha256 ≡ false)
      × (key.key_id ≢ 0)
unfolding configure_key
configure_key-ok key_ids hashes value key h =
    let (not_nil, h) = bail_if-eq-ok (nat_eq value.key_id 0 || nat_eq value.scope_id 0) _ _ h in
    let (new_id, h) = bail_if-eq-ok (member key_ids value.key_id) _ _ h in
    let (sha256, _, h) = >>=-eq-ok (decode_lowercase_sha256 value.api_key_sha256) _ h in
    let (new_hash, h) = bail_if-eq-ok (member hashes sha256) _ _ h in
    let (_, h) = bail_if-eq-ok (reason_invalid value.revocation) _ _ h in
    let made = ok-injective h in
    let same_id = ap (λ (k : TrafficKey). k.key_id) made in
    (
      subst (λ id. member key_ids id ≡ false) same_id new_id,
      subst (λ d. member hashes d ≡ false) (ap (λ (k : TrafficKey). k.api_key_sha256) made)
          new_hash,
      λ zero. absurd (ground (arith, not_nil, same_id, zero)),
    )

configure-Distinct :
    (key_ids : List Uuid) (hashes : List Bytes) (values : List TrafficKeyConfig)
    (keys : List TrafficKey)
    → configure key_ids hashes values ≡ ok keys
    → (Distinct key_ids hashes keys) × (length keys ≡ length values)
unfolding configure
configure-Distinct key_ids hashes [] [] h = (tt, refl)
configure-Distinct key_ids hashes [] (k ∷ ks) h = cc
configure-Distinct key_ids hashes (value ∷ values) keys h =
    let (key, is_key, h) = >>=-eq-ok (configure_key key_ids hashes value) _ h in
    let (rest, is_rest, h) =
      >>=-eq-ok (configure (key.key_id ∷ key_ids) (key.api_key_sha256 ∷ hashes) values) _ h in
    let (new_id, new_hash, not_nil) = configure_key-ok key_ids hashes value key is_key in
    let (distinct, same) =
      configure-Distinct (key.key_id ∷ key_ids) (key.api_key_sha256 ∷ hashes) values rest is_rest in
    subst (λ ks. (Distinct key_ids hashes ks) × (length ks ≡ length (value ∷ values)))
      (ok-injective h) ((new_id, new_hash, not_nil, distinct), omega (arith, same))

-- Keys that are configured have distinct, non-nil identifiers and distinct digests, one for each
-- entry.
pub configured_traffic_keys-Distinct :
    (values : List TrafficKeyConfig) (keys : List TrafficKey)
    → configured_traffic_keys values ≡ ok keys
    → (Distinct [] [] keys) × (length keys ≡ length values)
unfolding configured_traffic_keys
configured_traffic_keys-Distinct values keys h =
    let (_, h) =
      bail_if-eq-ok (nat_eq (length values) 0 || ltb max_traffic_keys (length values)) _ _ h in
    configure-Distinct [] [] values keys h

module _ (libs : AuthLibs) (key_id : Uuid) (actual : Bytes) where
  -- No later key has an identifier that is taken.
  last_match-taken :
      (key_ids : List Uuid) (hashes : List Bytes) (found : Option TrafficKey)
      (keys : List TrafficKey)
      → member key_ids key_id ≡ true
      → Distinct key_ids hashes keys
      → (last_match libs key_id actual found keys ≡ found)
        × ((key : TrafficKey) → In key keys → matches libs key_id actual key ≢ true)
  unfolding last_match matches member
  last_match-taken key_ids hashes found [] taken distinct = (refl, λ key inside. absurd inside)
  last_match-taken key_ids hashes found (k ∷ keys) taken distinct =
      let later =
        last_match-taken (k.key_id ∷ key_ids) (k.api_key_sha256 ∷ hashes) found keys
          (ground (arith, taken)) distinct.3 in
      let differs : nat_eq k.key_id key_id ≡ false = elim (Bool-cases (nat_eq k.key_id key_id)) [
        | inr other ↦ other
        | inl same ↦
            let same_id = (nat_eq_iff k.key_id key_id).0 same in
            absurd
              (ground (arith, subst (λ id. member key_ids id ≡ false) same_id distinct.0, taken))
      ] in
      let unmatched : matches libs key_id actual k ≡ false = ground (arith, differs) in
      (
        rw unmatched later.0,
        λ key inside. elim inside [
          | inl same ↦
              λ m. absurd (ground (arith, ap (matches libs key_id actual) same, m, unmatched))
          | inr rest ↦ later.1 key rest
        ],
      )

  matched-taken :
      (k : TrafficKey) (key_ids : List Uuid)
      → matches libs key_id actual k ≡ true
      → member (k.key_id ∷ key_ids) key_id ≡ true
  unfolding matches member
  matched-taken k key_ids matched = ground (arith, matched)

  -- The last match is the only one.
  pub last_match_iff :
      (key_ids : List Uuid) (hashes : List Bytes) (keys : List TrafficKey) (key : TrafficKey)
      → Distinct key_ids hashes keys
      → (last_match libs key_id actual none keys ≡ some key)
        ↔ ((In key keys) × (matches libs key_id actual key ≡ true))
  unfolding last_match
  last_match_iff key_ids hashes [] key distinct = (λ h. absurd (cc), λ h. absurd h.0)
  last_match_iff key_ids hashes (k ∷ keys) key distinct =
      elim (Bool-cases (matches libs key_id actual k)) [
        | inl matched ↦
            let (kept, unique) =
              last_match-taken (k.key_id ∷ key_ids) (k.api_key_sha256 ∷ hashes) (some k) keys
                (matched-taken k key_ids matched) distinct.3 in
            rw matched (
              λ h.
                  let same : k ≡ key = eq-of-some (sym kept ∙ h) in
                  (inl (sym same), subst (λ k. matches libs key_id actual k ≡ true) same matched),
              λ (inside, m). elim inside [
                | inl same ↦ kept ∙ ap some (sym same)
                | inr rest ↦ absurd (unique key rest m)
              ],
            )
        | inr unmatched ↦
            let (forth, back) =
              last_match_iff (k.key_id ∷ key_ids) (k.api_key_sha256 ∷ hashes) keys key distinct.3 in
            rw unmatched (
              λ h. (inr (forth h).0, (forth h).1),
              λ (inside, m). elim inside [
                | inl same ↦
                    absurd (ground (arith, ap (matches libs key_id actual) same, m, unmatched))
                | inr rest ↦ back (rest, m)
              ],
            )
      ]
