-- ===== src/Headers/Nominated.antt =====
-- The names that `stripped_headers` and `stripped_reqwest_headers` of main.rs are meant to hold: those
-- that a `Connection` header nominates, and those that are kept to one hop.
use milk_carton.Base.{
  ◌≡◌, ◌≢◌, inl, inr, refl, sym, ap, ◌∙◌, subst, true, false, not, List, [], ◌∷◌, ◌++◌, Bytes,
  codes, if-true, if-false, Bool-cases, ◌==◌, ℕ-Eq, List-Eq, ==_iff, arith,
}
use milk_carton.Text.Utf8.{from_utf8, trim}
use milk_carton.Partition.{split_parts}
use milk_carton.Headers.{
  HeaderMap, has, lower, is_empty, token_names, tokens_of, extend_connection_tokens,
  connection_names, hop_by_hop_headers, stripped_headers, stripped_reqwest_headers,
}
use milk_carton.Headers.Names.{In, IsNominated, hop_names}

In-append_left : (name : Bytes) (xs ys : List Bytes) → In name xs → In name (xs ++ ys)
In-append_left name (x ∷ xs) ys (inl e) = inl e
In-append_left name (x ∷ xs) ys (inr i) = inr (In-append_left name xs ys i)
In-append_left name [] ys i = absurd i

In-append_right : (name : Bytes) (xs ys : List Bytes) → In name ys → In name (xs ++ ys)
In-append_right name [] ys i = i
In-append_right name (x ∷ xs) ys i = inr (In-append_right name xs ys i)

has-In : (names : List Bytes) (name : Bytes) → In name names → has names name ≡ true
unfolding has
has-In (x ∷ names) name (inl e) = let same = (==_iff x name).1 e in ground (arith, same)
has-In (x ∷ names) name (inr i) = let there = has-In names name i in ground (arith, there)
has-In [] name i = absurd i

not_blank : (text : Bytes) → text ≢ [] → not (is_empty text) ≡ true
not_blank [] h = absurd (h refl)
not_blank (c ∷ text) h = refl

filled-kept : (x token : Bytes) → x ≡ token → trim token ≢ [] → not (is_empty (trim x)) ≡ true
filled-kept x token same h = not_blank (trim x) (λ e. h (ap (λ t. trim t) (sym same) ∙ e))

token_names-In :
    (tokens : List Bytes) (token : Bytes)
    → In token tokens
    → trim token ≢ []
    → In (lower (trim token)) (token_names tokens)
unfolding token_names
token_names-In [] token i filled = absurd i
token_names-In (x ∷ tokens) token (inl same) filled =
    let kept : not (is_empty (trim x)) ≡ true = filled-kept x token same filled in
    subst (In (lower (trim token))) (sym (if-true (not (is_empty (trim x))) _ _ kept))
      (inl (ap (λ t. lower (trim t)) same))
token_names-In (x ∷ tokens) token (inr i) filled =
    let there = token_names-In tokens token i filled in
    elim (Bool-cases (not (is_empty (trim x)))) [
      | inl kept ↦
          subst (In (lower (trim token))) (sym (if-true (not (is_empty (trim x))) _ _ kept))
            (inr there)
      | inr blank ↦
          subst (In (lower (trim token))) (sym (if-false (not (is_empty (trim x))) _ _ blank)) there
    ]

connection_names-IsNominated :
    (headers : HeaderMap) (name : Bytes)
    → IsNominated headers name
    → In name (connection_names headers)
unfolding connection_names extend_connection_tokens
connection_names-IsNominated [] name (value, text, token, there, read, i, filled, is_name) =
    absurd there
connection_names-IsNominated ((n, v) ∷ rest) name
      (value, text, token, inl same, read, i, filled, is_name) =
    let n_same : n ≡ codes "connection" = ap (λ (h : Bytes × Bytes). h.0) same in
    let v_same : v ≡ value = ap (λ (h : Bytes × Bytes). h.1) same in
    let hit = (==_iff n (codes "connection")).1 n_same in
    let names : tokens_of (from_utf8 v) ≡ token_names (split_parts b',' text) =
      ap (λ u. tokens_of (from_utf8 u)) v_same ∙ ap tokens_of read in
    subst (In name) (sym (if-true (n == codes "connection") _ _ hit)) (
      In-append_left name (tokens_of (from_utf8 v)) (connection_names rest) (
        subst (λ l. In name l) (sym names)
          (subst (λ m. In m (token_names (split_parts b',' text))) is_name
            (token_names-In (split_parts b',' text) token i filled))))
connection_names-IsNominated ((n, v) ∷ rest) name
      (value, text, token, inr there, read, i, filled, is_name) =
    let below =
      connection_names-IsNominated rest name
        (value, text, token, there, read, i, filled, is_name) in
    elim (Bool-cases (n == codes "connection")) [
      | inl hit ↦
          subst (In name) (sym (if-true (n == codes "connection") _ _ hit))
            (In-append_right name (tokens_of (from_utf8 v)) (connection_names rest) below)
      | inr other ↦ subst (In name) (sym (if-false (n == codes "connection") _ _ other)) below
    ]

-- What the names that are stripped from a request are for.
pub stripped_headers-absent :
    (headers : HeaderMap) (name : Bytes)
    → has (stripped_headers headers) name ≡ false
    → (IsNominated headers name → ⊥)
      × (In name hop_names → ⊥)
      × (name ≢ codes "host")
      × (name ≢ codes "content-length")
unfolding stripped_headers hop_by_hop_headers
stripped_headers-absent headers name h =
    let fixed : List Bytes = codes "content-length" ∷ codes "host" ∷ hop_names in
    let absent : In name (connection_names headers ++ fixed) → ⊥ =
      λ i. let e = has-In (connection_names headers ++ fixed) name i in cc in
    (
      λ i. absent (
          In-append_left name (connection_names headers) fixed
            (connection_names-IsNominated headers name i)),
      λ i. absent (In-append_right name (connection_names headers) fixed (inr (inr i))),
      λ e. absent (In-append_right name (connection_names headers) fixed (inr (inl (sym e)))),
      λ e. absent (In-append_right name (connection_names headers) fixed (inl (sym e))),
    )

pub stripped_reqwest_headers-absent :
    (headers : HeaderMap) (name : Bytes)
    → has (stripped_reqwest_headers headers) name ≡ false
    → (IsNominated headers name → ⊥) × (In name hop_names → ⊥)
unfolding stripped_reqwest_headers hop_by_hop_headers
stripped_reqwest_headers-absent headers name h =
    let absent : In name (connection_names headers ++ hop_names) → ⊥ =
      λ i. let e = has-In (connection_names headers ++ hop_names) name i in cc in
    (
      λ i. absent (
          In-append_left name (connection_names headers) hop_names
            (connection_names-IsNominated headers name i)),
      λ i. absent (In-append_right name (connection_names headers) hop_names i),
    )
