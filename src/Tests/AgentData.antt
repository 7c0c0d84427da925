-- ===== src/Tests/AgentData.antt =====
-- Concrete data: an agent with one certificate, its platform and its disk.
use certplane.Base.{◌+◌, ◌*◌, true, false, some, [], ◌∷◌, ok}
use certplane.Base.Int.{pos}
use certplane.Base.Text.{codes}
use certplane.Clock.{hour}
use certplane.Agent.{Disk}
use certplane.Agent.Client.{BrokerClient, ClientLibraries}
use certplane.Agent.Run.{Platform}
use certplane.Broker.{IssueResponse}
use certplane.Ca.{IdentityCertificate}
use certplane.Settings.Agent.{AgentConfig, CertConfig}
use certplane.Tests.DiskData.{empty_disk, formats, leaf}
use certplane.Tests.Data.{today, agent, web, name_a, bundle, crypto, layout}

abbrev pub identity : IdentityCertificate
identity = record {
  certificate = leaf;
  cert_pem = codes "identity";
  chain_pem = [];
  not_before = today;
  not_after = today + 2160 * hour;
}

abbrev pub response : IssueResponse
response = record {
  cert_pem = codes "cert";
  chain_pem = codes "chain";
  full_chain_pem = codes "certchain";
  serial_number = codes "2a";
  not_before = layout.format bundle.not_before;
  not_after = layout.format bundle.not_after;
  cache = codes "miss";
}

abbrev pub libraries : ClientLibraries
libraries = record {
  x509_key_pair = λ c k. some k;
  append_certs = λ t. true;
  accepts_url = λ u. true;
  marshal_request = λ r. some r.csr_pem;
  unmarshal_response = λ t. some response;
}

abbrev pub platform : Platform
platform = record {
  crypto = λ k. crypto;
  x509 = record {
    pem_decode = λ t. some (record { type = codes "CERTIFICATE"; bytes = t });
    parse_certificate = λ t. some leaf;
    marshal_public_key = λ k. some k;
  };
  key_formats = formats;
  client_libraries = libraries;
  rfc3339 = layout;
  send = λ c r. some (record { status_code = 200; body = codes "{}"; body_fails = false });
  run_reload = λ t. true;
  client_error_text = λ e. [];
  ca = record { enroll = λ r. ok identity; renew = λ r. ok identity };
}

abbrev pub certificate : CertConfig
certificate = record {
  name = web;
  profile = web;
  dns_names = name_a ∷ [];
  key = codes "web.key";
  cert = codes "web.crt";
  chain = codes "chain.pem";
  full_chain = codes "fullchain.pem";
  reload_command = [];
  reload_timeout = pos 0;
  renew_before = pos (720 * hour);
}

-- The identity is due for renewal as soon as it is there.
abbrev pub config : AgentConfig
config = record {
  state_dir = [];
  identity = record {
    name = agent;
    provider = codes "step-ca";
    cert = codes "id.crt";
    key = codes "id.key";
    issuer_ca_bundle = codes "ca.pem";
    bootstrap_token = codes "token";
    renew_before = pos (4000 * hour);
    warn_before = pos 0;
    step_ca = record {
      url = codes "https://ca";
      fingerprint = codes "f";
      root_ca_bundle = [];
      timeout = pos 0;
    };
  };
  broker = record {
    url = codes "https://broker";
    server_ca_bundle = codes "broker.pem";
    timeout = pos 0;
  };
  certificates = certificate ∷ [];
  logging = record { level = []; format = []; destination = [] };
}

abbrev pub service : BrokerClient
service = record {
  base_url = codes "https://broker";
  key_pair = codes "key";
  root_cas = codes "roots";
  timeout = pos 0;
}

-- The disk of an agent that is enrolled and has no certificate yet.
abbrev pub enrolled : Disk
enrolled = record empty_disk {
  files =
      (codes "id.key", codes "key")
      ∷ (codes "id.crt", codes "old")
      ∷ (codes "ca.pem", codes "roots")
      ∷ (codes "broker.pem", codes "roots")
      ∷ [];
}

-- The disk of an agent that has a token.
abbrev pub fresh : Disk
fresh = record empty_disk { files = (codes "token", codes " secret ") ∷ [] }
