-- ===== src/Provider/Bcv/Transport.antt =====
-- The client that `NewBCVProvider` of internal/provider/bcvProvider.go makes, on a heap of transports
-- and of their TLS configurations, which may be shared. `Transport.Clone` and `http.DefaultTransport`
-- are arguments.
pub mod Isolated
use ve_xchange_api.Prelude.{ℕ, ◌+◌, Bool, true, false, Option, none, some, ◌==◌, if◌then◌else◌}

pub record TlsConfig : Type 0 where
  pub insecure_skip_verify : Bool

pub record Transport : Type 0 where
  pub tls_client_config : Option ℕ

-- The addresses below `next_transport` and `next_config` are in use.
pub record Heap : Type 0 where
  pub transports : ℕ → Transport
  pub configs : ℕ → TlsConfig
  pub next_transport : ℕ
  pub next_config : ℕ

-- An `http.RoundTripper`: a `*http.Transport`, or another.
pub data RoundTripper : Type 0 where
  transport : ℕ → RoundTripper
  other : RoundTripper

pub record HttpClient : Type 0 where
  pub round_tripper : Option RoundTripper
  pub timeout : ℕ

-- An `HTTPDoer`: a `*http.Client`, or another, as the tests have.
pub data HttpDoer : Type 0 where
  http_client : HttpClient → HttpDoer
  fake : HttpDoer

abbrev pub update {ℓ} : {A : Type ℓ} → ℕ → A → (ℕ → A) → ℕ → A
update p v f q = if q == p then v else f q

-- `clone.TLSClientConfig = new(tls.Config)`
abbrev pub add_config : ℕ → Heap → Heap
add_config b h = record h {
  transports = update b (record { tls_client_config = some h.next_config }) h.transports;
  configs = update h.next_config (record { insecure_skip_verify = false }) h.configs;
  next_config = h.next_config + 1;
}

-- `clone.TLSClientConfig.InsecureSkipVerify = true`, for the configuration at an address.
abbrev pub skip_verify : ℕ → Heap → Heap
skip_verify k h = record h { configs = update k (record { insecure_skip_verify = true }) h.configs }

-- The statements on the clone.
abbrev pub make_insecure : ℕ → Heap → Heap
make_insecure b h = elim ((h.transports b).tls_client_config) [
  | none ↦ skip_verify h.next_config (add_config b h)
  | some k ↦ skip_verify k h
]

-- `tr := c.Transport; if tr == nil { tr = http.DefaultTransport }`
abbrev pub transport_of : RoundTripper → HttpClient → RoundTripper
transport_of default_transport c = elim c.round_tripper [ none ↦ default_transport | some t ↦ t ]

module _ (clone : ℕ → Heap → ℕ × Heap) (default_transport : RoundTripper) where
  -- The client of the provider; `none` is a panic of the type assertion.
  pub bcv_client : HttpDoer → Heap → Option (HttpDoer × Heap)
  bcv_client fake h = some (fake, h)
  bcv_client (http_client c) h = elim (transport_of default_transport c) [
    | other ↦ none
    | transport a ↦
        let (b, h1) = clone a h in
        some (
          http_client (record { round_tripper = some (transport b); timeout = c.timeout }),
          make_insecure b h1,
        )
  ]
