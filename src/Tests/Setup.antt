-- ===== src/Tests/Setup.antt =====
-- A concrete cryptography and concrete libraries, with a proposal, a route and a request.
use milk_carton.Base.{ℕ, ap, true, false, Option, none, some, [], ◌∷◌, ◌++◌, Bytes, codes, arith}
use milk_carton.Hex.{IsDigest}
use milk_carton.Crypto.{Crypto}
use milk_carton.Route.Types.{
  RouteStartupConfig, RouteScope, production, OperatorRouteProposal, seconds,
}
use milk_carton.Route.Url.{Url, domain}
use milk_carton.Route.Libs.{Libs, JsonRoundTrip, CandidateChat}
use milk_carton.Tests.Codec.{manifest, pointer, candidate_codec}

abbrev pub sevens : Bytes
sevens =
    7 ∷ 7 ∷ 7 ∷ 7 ∷ 7 ∷ 7 ∷ 7 ∷ 7 ∷ 7 ∷ 7 ∷ 7 ∷ 7 ∷ 7 ∷ 7 ∷ 7 ∷ 7 ∷ 7 ∷ 7 ∷ 7 ∷ 7 ∷ 7 ∷ 7 ∷ 7 ∷ 7
    ∷ 7 ∷ 7 ∷ 7 ∷ 7 ∷ 7 ∷ 7 ∷ 7 ∷ 7 ∷ []

pub sevens-IsDigest : IsDigest sevens
sevens-IsDigest = record { size = ground arith; bytes = ground arith }

abbrev pub crypto : Crypto
crypto = record {
  sha256 = λ message. sevens;
  hmac_sha256 = λ key message. sevens;
  verify_ed25519 = λ key message signature. true;
  sha256-IsDigest = λ message. sevens-IsDigest;
  hmac_sha256-IsDigest = λ key message. sevens-IsDigest;
}

abbrev pub digest_text : Bytes
digest_text = codes "0707070707070707070707070707070707070707070707070707070707070707"

abbrev pub api_base_url : Bytes
api_base_url = codes "https://api.example.com/v1/"

abbrev pub url : Url
url = record {
  as_str = api_base_url;
  scheme = codes "https";
  username = [];
  password = none;
  host = some (domain (codes "api.example.com"));
  path = codes "/v1/";
  query = none;
  fragment = none;
}

abbrev pub scope : RouteScope
scope = record { scope_id = 5 }

abbrev pub config : RouteStartupConfig
config = record {
  signing_public_key_hex = digest_text;
  signing_key_id = codes "key-1";
  allow_private_candidate_http = false;
  candidate_max_in_flight = 4;
}

abbrev pub proposal : OperatorRouteProposal
proposal = record {
  schema_version = codes "milk.unsigned-route-proposal.v3";
  scope_id = 5;
  profile = production;
  series_id = codes "series-1";
  code_version = codes "milk.harness-run-once.v5";
  source_manifest_sha256 = digest_text;
  summary_sha256 = digest_text;
  readiness_sha256 = digest_text;
  eval_sha256 = digest_text;
  eval_validation_sha256 = digest_text;
  candidate_score_sha256 = digest_text;
  candidate_id = codes "candidate-1";
  api_base_url = api_base_url;
  model = codes "student";
  candidate_basis_points = 500;
  provenance = record {
    harness_revision = codes "0123456789012345678901234567890123456789";
    config_sha256 = digest_text;
    taxonomy_version = codes "milk.semantic-taxonomy.v1";
    prompt_sha256s = record {
      classifier = digest_text;
      eval_generation = digest_text;
      eval_validation = digest_text;
    };
    teacher = record {
      api_url = api_base_url;
      model = codes "teacher";
      reasoning_effort = codes "high";
      timeout_seconds = 60;
      max_input_tokens = 1000;
      max_output_tokens = 1000;
    };
    job_ids = record {
      classifier = digest_text;
      eval_generation = digest_text;
      eval_validation = digest_text;
      candidate_score = digest_text;
    };
    teacher_result_sha256s = record {
      classifier = digest_text;
      eval_generation = digest_text;
      eval_validation = digest_text;
    };
    provider_tokens = 1;
  };
}

abbrev pub proposal_text : Bytes
proposal_text = codes "{}" ++ 10 ∷ []

abbrev pub chat : CandidateChat
chat = record {
  model = codes "student";
  messages = codes "[{}]";
  stream = some (codes "true");
  reasoning_effort = none;
}

abbrev pub last : ℕ
last = seconds 10_000_000_000

abbrev first {ℓ} : {A : Type ℓ} → Option (A × Bytes) → Option A
first none = none
first (some (a, rest)) = some a

abbrev pub libs : Libs
libs = record {
  crypto = crypto;
  parse_url = λ value. some url;
  parse_manifest_json = λ bytes. first (manifest.read bytes);
  manifest_json = λ m. manifest.write m [];
  candidate_json = λ c. candidate_codec.write c [];
  parse_proposal_json = λ bytes. some proposal;
  proposal_json = λ p. codes "{}";
  parse_pointer_json = λ bytes. first (pointer.read bytes);
  pointer_json = λ p. pointer.write p [];
  parse_chat_json = λ bytes. some chat;
  parse_responses_json = λ bytes. none;
  parse_array_json = λ value. some 1;
  last_date_time = last;
  last_instant = last;
}

pub json : JsonRoundTrip libs
json = record {
  manifest = λ value. ap first (manifest.read-write value []);
  pointer = λ value. ap first (pointer.read-write value []);
}
