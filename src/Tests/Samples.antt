-- ===== src/Tests/Samples.antt =====
-- Concrete parameters and data for the tests.
use agentic_rag.Prelude.{
  ℕ, zero, suc, ◌+◌, ◌-◌, ◌*◌, ◌≡◌, refl, ap, String, Bool, true, false, Option, none, some, List,
  [], ◌∷◌, arith, leb, ◌==◌,
}
use agentic_rag.Prelude.Floats.{Floats}
use agentic_rag.Cache.Keys.{Texts, CacheVersions, answer_key}
use agentic_rag.Cache.Base.{CachedAnswer, Backend}
use agentic_rag.Cache.Memory.{init, set}
use agentic_rag.Cache.Memory.Interface.{Local, memory_backend}
use agentic_rag.Cache.Metrics.{zeros, exact}
use agentic_rag.Cache.Gateway.Lookup.{lookup}
use agentic_rag.Cache.Gateway.{
  Wiring, Gateway, Hit, Codec, Metadata, CritiqueEntry, GatewaySettings,
}

pub leb_refl : (x : ℕ) → leb x x ≡ true
leb_refl x = ground arith

pub leb_trans : (x y z : ℕ) → leb x y ≡ true → leb y z ≡ true → leb x z ≡ true
leb_trans x y z p q = ground arith

pub leb_total : (x y : ℕ) → leb x y ≡ false → leb y x ≡ true
leb_total x y p = ground arith

-- whole numbers in place of floats
abbrev pub whole : Floats
whole = record {
  Float = ℕ;
  nil = 0;
  unit = 1;
  add = λ x y. x + y;
  sub = λ x y. x - y;
  mul = λ x y. x * y;
  div = λ x y. x - y;
  sqrt = λ x. x;
  of_ℕ = λ n. n;
  is_nil = λ x. x == 0;
  leb = leb;
  leb_refl = leb_refl;
  leb_trans = leb_trans;
  leb_total = leb_total;
}

abbrev pub plain : Texts
plain = record { nfkc = λ s. s; casefold = λ s. s; sha256_hex = λ s. s }

abbrev pub leave_answer : CachedAnswer ℕ (Unit {0})
leave_answer = record {
  query = "Leave days?";
  normalized_query = "Leave days";
  answer = "21 days";
  embedding = [];
  citations = [];
  tools = [];
  trace = [];
  revisions = 0;
  grounded = true;
  sufficient_context = true;
  confidence = 9;
  knowledge_base_version = "0";
  model_version = "m";
  prompt_version = "p";
  created_at = 0;
  expires_at = 100;
}

-- a codec that knows one stored text
abbrev pub one_answer : Codec ℕ (Unit {0})
one_answer = record { encode = λ e. "entry"; decode = λ raw. some leave_answer }

abbrev pub backend : Backend (List ℕ)
backend = memory_backend

abbrev pub wiring : Wiring
wiring = record {
  floats = whole;
  Citation = Unit;
  texts = plain;
  codec = one_answer;
  backend = backend;
  embed_text = none;
  settings = record {
    enabled = true;
    ttl_seconds = 100;
    semantic_enabled = false;
    similarity_threshold = 1;
    namespace = "default";
    model = "m";
    prompts = "p";
    min_confidence = 5;
  };
}

abbrev pub empty_gateway : Gateway wiring
empty_gateway = record {
  shared = record { backend = record { backend = init 4 4; now = 7 }; last_known = "0" };
  metrics = zeros;
}

-- the metadata of a run that the critic stood behind
abbrev pub good_run : Metadata ℕ (Unit {0})
good_run = record {
  critique =
      some (record { sufficient_context = some true; grounded = some true; confidence = some 9 });
  citations = [];
  tools = [];
  trace = [];
  revisions = 0;
}

abbrev pub now_in_force : CacheVersions
now_in_force = record { knowledge_base_version = "0"; model_version = "m"; prompt_version = "p" }

abbrev pub leave_key : String
leave_key = answer_key plain "default" now_in_force "Leave days"

-- a gateway whose backend holds the answer
abbrev pub answered_gateway : Gateway wiring
answered_gateway = record {
  shared = record {
    backend = record { backend = set 0 leave_key "entry" 100 (init 4 4); now = 7 };
    last_known = "0";
  };
  metrics = zeros;
}

abbrev pub leave_hit : Hit wiring
leave_hit = record {
  entry = leave_answer;
  cache_type = exact;
  cache_key = leave_key;
  age = 7;
  similarity = 1;
}

pub leave_found : (lookup wiring "Leave days?" answered_gateway).0 ≡ some leave_hit
unfolding lookup agentic_rag.Cache.Keys.normalize_query agentic_rag.Cache.Gateway.Lookup.find
    agentic_rag.Cache.Gateway.versions agentic_rag.Cache.Memory.Interface.local_get
    agentic_rag.Dict.get set agentic_rag.Dict.trim agentic_rag.Dict.put_last init
    agentic_rag.Prelude.Text.string_discrete answer_key
    agentic_rag.Cache.Gateway.Lookup.exact_lookup agentic_rag.Cache.Gateway.Lookup.read
    agentic_rag.Cache.Base.is_live agentic_rag.Cache.Base.matches agentic_rag.Cache.Base.age_seconds
leave_found = refl
