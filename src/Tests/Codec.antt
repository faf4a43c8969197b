-- ===== src/Tests/Codec.antt =====
-- A text format that stands for serde_json in the tests: each value is written xs numbers and read
-- back from the front of a text.
use milk_carton.Base.{ℕ, zero, suc, ◌≡◌, refl, ap, Option, none, some, List, [], ◌∷◌, Bytes}
use milk_carton.Route.Types.{
  RouteScope, RouteCapability, stream, responses, CandidateReasoningEffort, low, medium, high, max,
  HarnessProfile, mechanics, production, OperatorRouteCandidate, OperatorRouteManifest,
  RouteLivePointerWire,
}

pub record Codec {ℓ} (A : Type ℓ) : Type ℓ where
  pub write : A → Bytes → Bytes
  pub read : Bytes → Option (A × Bytes)
  pub read-write : (value : A) (rest : Bytes) → read (write value rest) ≡ some (value, rest)

unfoldable pub bind {ℓ ℓ'} :
    {A : Type ℓ} {B : Type ℓ'} → Option (A × Bytes) → (A → Bytes → Option B) → Option B
bind none f = none
bind (some (a, rest)) f = f a rest

unfoldable pub read_nat : Bytes → Option (ℕ × Bytes)
read_nat [] = none
read_nat (n ∷ rest) = some (n, rest)

abbrev pub nat : Codec ℕ
unfolding read_nat
nat = record { write = λ n rest. n ∷ rest; read = read_nat; read-write = λ n rest. refl }

module _ {ℓ ℓ'} {A : Type ℓ} {B : Type ℓ'} where
  -- A type that another one encodes.
  abbrev pub via : Codec A → (to : B → A) → (from : A → B) → ((b : B) → from (to b) ≡ b) → Codec B
  unfolding bind
  via codec to from same = record {
    write = λ b rest. codec.write (to b) rest;
    read = λ text. bind (codec.read text) (λ a rest. some (from a, rest));
    read-write = λ b rest. rw (codec.read-write (to b) rest) (ap (λ b. some (b, rest)) (same b));
  }

  abbrev pub pair : Codec A → Codec B → Codec (A × B)
  unfolding bind
  pair first second = record {
    write = λ p rest. first.write p.0 (second.write p.1 rest);
    read = λ text.
        bind (first.read text) (λ a rest. bind (second.read rest) (λ b rest. some ((a, b), rest)));
    read-write = λ p rest.
        rw (first.read-write p.0 (second.write p.1 rest)) (rw (second.read-write p.1 rest) refl);
  }

module _ {ℓ} {A : Type ℓ} (codec : Codec A) where
  unfoldable pub write_option : Option A → Bytes → Bytes
  write_option none rest = 0 ∷ rest
  write_option (some a) rest = 1 ∷ codec.write a rest

  unfoldable pub read_option : Bytes → Option (Option A × Bytes)
  read_option [] = none
  read_option (zero ∷ rest) = some (none, rest)
  read_option (suc n ∷ rest) = bind (codec.read rest) (λ a rest. some (some a, rest))

  pub option-read-write :
      (o : Option A) (rest : Bytes) → read_option (write_option o rest) ≡ some (o, rest)
  unfolding write_option read_option bind
  option-read-write none rest = refl
  option-read-write (some a) rest = rw (codec.read-write a rest) refl

  abbrev pub option : Codec (Option A)
  option = record { write = write_option; read = read_option; read-write = option-read-write }

  unfoldable pub count : List A → ℕ
  count [] = zero
  count (a ∷ xs) = suc (count xs)

  unfoldable pub write_all : List A → Bytes → Bytes
  write_all [] rest = rest
  write_all (a ∷ xs) rest = codec.write a (write_all xs rest)

  unfoldable pub read_n : ℕ → Bytes → Option (List A × Bytes)
  read_n zero text = some ([], text)
  read_n (suc n) text =
      bind (codec.read text) (λ a rest. bind (read_n n rest) (λ xs rest. some (a ∷ xs, rest)))

  read_n-write_all :
      (xs : List A) (rest : Bytes) → read_n (count xs) (write_all xs rest) ≡ some (xs, rest)
  unfolding write_all read_n bind count
  read_n-write_all [] rest = refl
  read_n-write_all (a ∷ xs) rest =
      rw (codec.read-write a (write_all xs rest)) (rw (read_n-write_all xs rest) refl)

  unfoldable pub read_list : Bytes → Option (List A × Bytes)
  read_list [] = none
  read_list (n ∷ rest) = read_n n rest

  pub list-read-write :
      (xs : List A) (rest : Bytes) → read_list (count xs ∷ write_all xs rest) ≡ some (xs, rest)
  unfolding read_list
  list-read-write xs rest = read_n-write_all xs rest

  abbrev pub list : Codec (List A)
  list = record {
    write = λ xs rest. count xs ∷ write_all xs rest;
    read = read_list;
    read-write = list-read-write;
  }

abbrev pub text : Codec Bytes
text = list nat

abbrev pub scope : Codec RouteScope
scope = via nat (λ (s : RouteScope). s.scope_id) (λ n. record { scope_id = n }) (λ s. refl)

unfoldable pub capability_number : RouteCapability → ℕ
capability_number stream = 0
capability_number responses = 1

unfoldable pub numbered_capability : ℕ → RouteCapability
numbered_capability zero = stream
numbered_capability (suc n) = responses

pub capability-same : (c : RouteCapability) → numbered_capability (capability_number c) ≡ c
unfolding capability_number numbered_capability
capability-same stream = refl
capability-same responses = refl

unfoldable pub effort_number : CandidateReasoningEffort → ℕ
effort_number low = 0
effort_number medium = 1
effort_number high = 2
effort_number max = 3

unfoldable pub numbered_effort : ℕ → CandidateReasoningEffort
numbered_effort zero = low
numbered_effort (suc zero) = medium
numbered_effort (suc (suc zero)) = high
numbered_effort (suc (suc (suc n))) = max

pub effort-same : (e : CandidateReasoningEffort) → numbered_effort (effort_number e) ≡ e
unfolding effort_number numbered_effort
effort-same low = refl
effort-same medium = refl
effort-same high = refl
effort-same max = refl

unfoldable pub profile_number : HarnessProfile → ℕ
profile_number mechanics = 0
profile_number production = 1

unfoldable pub numbered_profile : ℕ → HarnessProfile
numbered_profile zero = mechanics
numbered_profile (suc n) = production

pub profile-same : (p : HarnessProfile) → numbered_profile (profile_number p) ≡ p
unfolding profile_number numbered_profile
profile-same mechanics = refl
profile-same production = refl

abbrev pub pointer : Codec RouteLivePointerWire
pointer =
    via (pair (pair text scope) (pair text (option text)))
      (λ (w : RouteLivePointerWire).
        ((w.schema_version, w.scope), (w.route_revision, w.previous_route_revision)))
      (λ p. record {
        schema_version = p.0.0;
        scope = p.0.1;
        route_revision = p.1.0;
        previous_route_revision = p.1.1;
      })
      (λ w. refl)

abbrev pub candidate_codec : Codec OperatorRouteCandidate
candidate_codec =
    via
      (pair (pair (pair text text) (pair text text)) (
        pair
          (pair text (
            pair (list (via nat capability_number numbered_capability capability-same))
              (option (via nat effort_number numbered_effort effort-same))))
          (pair nat (pair nat nat))))
      (λ (c : OperatorRouteCandidate). (
        ((c.eval_sha256, c.candidate_id), (c.api_base_url, c.model)),
        (
          (c.candidate_api_key_sha256, (c.supported_capabilities, c.reasoning_effort)),
          (c.max_input_utf8_bytes, (c.max_input_messages, c.max_input_request_bytes)),
        ),
      ))
      (λ p. record {
        eval_sha256 = p.0.0.0;
        candidate_id = p.0.0.1;
        api_base_url = p.0.1.0;
        model = p.0.1.1;
        candidate_api_key_sha256 = p.1.0.0;
        supported_capabilities = p.1.0.1.0;
        reasoning_effort = p.1.0.1.1;
        max_input_utf8_bytes = p.1.1.0;
        max_input_messages = p.1.1.1.0;
        max_input_request_bytes = p.1.1.1.1;
      })
      (λ c. refl)

abbrev pub manifest : Codec OperatorRouteManifest
manifest =
    via
      (pair
        (pair (pair text scope) (pair text (via nat profile_number numbered_profile profile-same)))
        (pair (pair (option candidate_codec) nat)
          (pair (pair (option text) (option text)) (pair nat (pair nat text)))))
      (λ (m : OperatorRouteManifest). (
        ((m.schema_version, m.scope), (m.proposal_sha256, m.profile)),
        (
          (m.candidate, m.candidate_basis_points),
          (
            (m.previous_route_revision, m.route_secret_sha256),
            (m.not_before, (m.not_after, m.signing_key_id)),
          ),
        ),
      ))
      (λ p. record {
        schema_version = p.0.0.0;
        scope = p.0.0.1;
        proposal_sha256 = p.0.1.0;
        profile = p.0.1.1;
        candidate = p.1.0.0;
        candidate_basis_points = p.1.0.1;
        previous_route_revision = p.1.1.0.0;
        route_secret_sha256 = p.1.1.0.1;
        not_before = p.1.1.1.0;
        not_after = p.1.1.1.1.0;
        signing_key_id = p.1.1.1.1.1;
      })
      (λ m. refl)
