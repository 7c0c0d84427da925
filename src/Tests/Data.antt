-- ===== src/Tests/Data.antt =====
-- Concrete data: a policy as in examples, an agent's certificate, and a broker with a file store.
use certplane.Base.{◌+◌, ◌*◌, ◌/◌, refl, Option, Bool, true, false, none, some, [], ◌∷◌, ok}
use certplane.Base.Int.{pos}
use certplane.Base.Text.{Text, codes}
use certplane.Clock.{Time, hour, second, truncate}
use certplane.Audit.{Event, EventType, Severity, Decision, Reason}
use certplane.Store.Sqlite.{Rfc3339, IsRfc3339}
use certplane.Pki.{Bundle, CertificateRequest, Certificate, ExtKeyUsage}
use certplane.Pki.Csr.{Crypto, csr_type}
use certplane.Policy.{CompiledProfile, CompiledHost, CompiledPolicy, Profile, Config}
use certplane.Policy.Hash.{Digest}
use certplane.Store.{CacheEntry}
use certplane.Base.Dict.{Dict}
use certplane.Store.File.{CacheFormat, FileStore, absent, done}
use certplane.Broker.{Request, Server, World}

-- 2026 and a bit, in nanoseconds since year 1.
abbrev pub today : Time
today = 63_900_000 * 1_000_000_000_000

abbrev pub name_a : Text
name_a = codes "a.example.org"

abbrev pub agent : Text
agent = codes "agent-1"

abbrev pub web : Text
web = codes "web"

abbrev pub profile : CompiledProfile
profile = record {
  name = web;
  type = codes "multi_san";
  dns_names = name_a ∷ [];
  acme = record { challenge = codes "dns-01"; credentials = codes "cf" };
  renew_before = pos (720 * hour);
  hash = codes "h1";
}

abbrev pub host : CompiledHost
host = record { name = codes "node"; identity = agent; profiles = (web, true) ∷ [] }

abbrev pub policy : CompiledPolicy
policy = record {
  version = pos 1;
  profiles = (web, profile) ∷ [];
  hosts_by_name = (codes "node", host) ∷ [];
  hosts_by_identity = (agent, host) ∷ [];
  hash = codes "h2";
  loaded_at = today;
}

abbrev pub csr : CertificateRequest
csr = record { dns_names = codes "A.example.org." ∷ []; public_key = codes "key" }

abbrev pub client : Certificate
client = record {
  raw = codes "client der";
  serial_number = some (pos 42);
  common_name = agent;
  dns_names = [];
  public_key = codes "client";
  is_ca = false;
  not_before = today;
  not_after = today + 24 * hour;
  ext_key_usage = ExtKeyUsage.other_usage ∷ ExtKeyUsage.client_auth ∷ [];
}

abbrev pub bundle : Bundle
bundle = record {
  cert_pem = codes "cert";
  chain_pem = codes "chain";
  full_chain_pem = codes "certchain";
  leaf_serial_number = codes "2a";
  not_before = today;
  not_after = today + 2160 * hour;
}

abbrev pub crypto : Crypto
crypto = record {
  pem_decode = λ t. some (record { type = csr_type; bytes = t });
  pem_encode = λ b. b.bytes;
  parse_certificate_request = λ t. some csr;
  check_signature = λ c. true;
  marshal_public_key = λ k. some k;
  sha256_hex = λ t. t;
  create_certificate_request = λ t. some t.common_name;
}

-- A broker whose recorder answers `b`, in the mode `fail_closed`.
abbrev pub server : Bool → Server
server b = record {
  failure_mode = codes "fail_closed";
  issuer_name = codes "acme";
  issuer_directory = codes "directory";
  issuer_account_key_id = codes "account";
  crypto = crypto;
  new_id = λ t prefix. some prefix;
  now = λ t. today + hour;
  records = some (λ t e. b);
  issue = λ t r. ok bundle;
  in_flight = λ t k. none;
  unmarshal = λ t. some (record { profile = web; csr_pem = codes "csr" });
  split_host_port = λ t. some t;
  rfc3339 = λ t. [];
  error_text = λ f. [];
}

abbrev pub request : Request
request = record {
  peers = some (some client ∷ []);
  body = codes "{}";
  body_fails = false;
  remote_addr = codes "10.0.0.1";
  user_agent = codes "certplane-agent";
}

-- A toy form of JSON: a document is the map.
abbrev pub cache_format : CacheFormat
cache_format = record { Document = Dict CacheEntry; marshal = λ m. some m; unmarshal = λ m. some m }

abbrev pub empty_store : FileStore (Dict CacheEntry)
empty_store = record { file = absent; next_save = done }

abbrev pub world : World (FileStore (Dict CacheEntry))
world = record {
  manager = record { path = codes "policy.yaml"; current = some policy };
  rate_limiter = record {
    per_identity = pos 50;
    per_identity_profile = pos 20;
    identity = [];
    profile = [];
  };
  store = empty_store;
  trace = [];
}

abbrev pub digest : Digest
digest = record { duration_string = λ d. []; marshal = λ i. some []; sha256_hex = λ t. t }

abbrev pub raw_profile : Profile
raw_profile = record {
  type = codes "wildcard";
  dns_names = codes "*.Example.org" ∷ [];
  acme = record { challenge = codes "dns-01"; credentials = codes "cf" };
  renew_before = pos 0;
}

abbrev pub config : Config
config = record {
  version = pos 1;
  profiles = (web, raw_profile) ∷ [];
  hosts = (codes "node", record { identity = agent; profiles = web ∷ [] }) ∷ [];
}

abbrev pub event : Event
event = record {
  event_id = codes "evt_1";
  request_id = codes "req_1";
  timestamp = today;
  type = EventType.certificate_authorized;
  severity = Severity.info;
  decision = Decision.allow;
  identity = agent;
  profile_name = web;
  profile_hash = [];
  policy_hash = [];
  reason_code = Reason.ok;
  reason = [];
  error = [];
  source_ip = [];
  user_agent = [];
  csr_sha256 = [];
  csr_public_key_sha256 = [];
  csr_dns_names = [];
  expected_dns_names = [];
  issuer_name = [];
  issuer_directory = [];
  acme_order_url = [];
  cert_serial_number = [];
  cert_not_before = none;
  cert_not_after = none;
  cache_result = [];
  metadata = [];
}

-- A layout that prints the count of whole seconds.
abbrev pub read_seconds : Text → Option Time
read_seconds [] = none
read_seconds (n ∷ ns) = some (n * second)

abbrev pub layout : Rfc3339
layout = record { format = λ t. t / second ∷ []; parse = read_seconds }

pub layout-IsRfc3339 : IsRfc3339 layout
unfolding truncate
layout-IsRfc3339 = record { filled = λ t h. refl; parse_format = λ t h. refl }
