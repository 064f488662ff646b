-- ===== src/Cmd/Flags.antt =====
-- The flags of cmd/main.go with their defaults, and what `main` makes of them before it reads
-- WATCH_NAMESPACE. A server's certificates and its TLS settings are the library's to use.
use k8s_glb_operator.Base.{
  Bool, true, false, String, Option, none, some, List, [], ◌∷◌, ◌++◌, if◌then◌else◌,
}

pub record Flags : Type 0 where
  pub metrics_addr : String
  pub probe_addr : String
  pub enable_leader_election : Bool
  pub secure_metrics : Bool
  pub webhook_cert_path : String
  pub webhook_cert_name : String
  pub webhook_cert_key : String
  pub metrics_cert_path : String
  pub metrics_cert_name : String
  pub metrics_cert_key : String
  pub enable_http2 : Bool

abbrev pub default_flags : Flags
default_flags = record {
  metrics_addr = "0";
  probe_addr = ":8081";
  enable_leader_election = false;
  secure_metrics = true;
  webhook_cert_path = "";
  webhook_cert_name = "tls.crt";
  webhook_cert_key = "tls.key";
  metrics_cert_path = "";
  metrics_cert_name = "tls.crt";
  metrics_cert_key = "tls.key";
  enable_http2 = false;
}

-- What the code sets of a `tls.Config`.
pub record TlsConfig : Type 0 where
  pub next_protos : List String

abbrev pub TlsOpts : Type 0
TlsOpts = List (TlsConfig → TlsConfig)

abbrev pub disable_http2 : TlsConfig → TlsConfig
disable_http2 c = record c { next_protos = "http/1.1" ∷ [] }

abbrev pub tls_opts : Flags → TlsOpts
tls_opts flags = if flags.enable_http2 then [] else [] ++ disable_http2 ∷ []

-- The fields of both kinds of server that name the files of a certificate.
pub record CertFiles : Type 0 where
  pub cert_dir : String
  pub cert_name : String
  pub key_name : String

-- They are set if the path is not empty.
abbrev pub cert_files : String → String → String → CertFiles
cert_files String.[] name key = record { cert_dir = ""; cert_name = ""; key_name = "" }
cert_files (String.◌∷◌ c path) name key = record {
  cert_dir = String.◌∷◌ c path;
  cert_name = name;
  key_name = key;
}

pub record WebhookOptions : Type 0 where
  pub tls_opts : TlsOpts
  pub certificate : CertFiles

abbrev pub webhook_server_options : Flags → WebhookOptions
webhook_server_options flags = record {
  tls_opts = tls_opts flags;
  certificate = cert_files flags.webhook_cert_path flags.webhook_cert_name flags.webhook_cert_key;
}

pub data FilterProvider : Type 0 where
  with_authentication_and_authorization : FilterProvider

pub record MetricsOptions : Type 0 where
  pub bind_address : String
  pub secure_serving : Bool
  pub tls_opts : TlsOpts
  pub filter_provider : Option FilterProvider
  pub certificate : CertFiles

abbrev pub metrics_server_options : Flags → MetricsOptions
metrics_server_options flags = record {
  bind_address = flags.metrics_addr;
  secure_serving = flags.secure_metrics;
  tls_opts = tls_opts flags;
  filter_provider =
      if flags.secure_metrics then some with_authentication_and_authorization else none;
  certificate = cert_files flags.metrics_cert_path flags.metrics_cert_name flags.metrics_cert_key;
}
