-- ===== src/Provider/Bcv/Transport/Isolated.antt =====
-- Which clients verify certificates.
use ve_xchange_api.Prelude.{
  ℕ, ◌≤◌, ◌<◌, ◌≡◌, Bool, true, false, not, none, some, arith, Option-cases, inl, inr,
}
use ve_xchange_api.Provider.Bcv.Transport.{
  Heap, RoundTripper, transport, HttpClient, http_client, make_insecure, transport_of, bcv_client,
}

-- Whether a transport verifies the server's certificate.
abbrev pub verifies : Heap → ℕ → Bool
verifies h a = elim ((h.transports a).tls_client_config) [
  | none ↦ true
  | some k ↦ not (h.configs k).insecure_skip_verify
]

-- A transport that is in use has a configuration that is in use, if it has one.
abbrev pub IsClosed : Heap → Type 0
IsClosed h =
    (a k : ℕ)
    → a < h.next_transport
    → (h.transports a).tls_client_config ≡ some k
    → k < h.next_config

-- `Transport.Clone` is a deep copy: a new transport, with a new configuration if it has one, and all
-- that was in use as it was.
pub record DeepCopy (clone : ℕ → Heap → ℕ × Heap) : Type 0 where
  pub is_new : (a : ℕ) (h : Heap) → h.next_transport ≤ (clone a h).0
  pub config_new :
      (a k : ℕ) (h : Heap)
      → ((clone a h).1.transports (clone a h).0).tls_client_config ≡ some k
      → h.next_config ≤ k
  pub configs_grow : (a : ℕ) (h : Heap) → h.next_config ≤ (clone a h).1.next_config
  pub keeps_transport :
      (a x : ℕ) (h : Heap) → x < h.next_transport → (clone a h).1.transports x ≡ h.transports x
  pub keeps_config :
      (a k : ℕ) (h : Heap) → k < h.next_config → (clone a h).1.configs k ≡ h.configs k

verifies-clone : (b : ℕ) (h : Heap) → verifies (make_insecure b h) b ≡ false
verifies-clone b h = elim (Option-cases (h.transports b).tls_client_config) [
  | inl unset ↦ ground arith
  | inr (k, own) ↦ ground arith
]

module _ (clone : ℕ → Heap → ℕ × Heap) (deep : DeepCopy clone) where
  verifies-kept :
      (h : Heap) (a x : ℕ)
      → IsClosed h
      → x < h.next_transport
      → let (b, h1) = clone a h in verifies (make_insecure b h1) x ≡ verifies h x
  verifies-kept h a x closed used =
      let (b, h1) = clone a h in
      elim (Option-cases (h.transports x).tls_client_config) [
        | inl unset ↦ ground (arith, deep.keeps_transport a x h used, deep.is_new a h)
        | inr (k, own) ↦ elim (Option-cases (h1.transports b).tls_client_config) [
          | inl unset ↦ ground (
            arith,
            deep.keeps_transport a x h used,
            deep.is_new a h,
            deep.configs_grow a h,
            deep.keeps_config a k h,
            closed x k used own,
          )
          | inr (k', cloned) ↦ ground (
            arith,
            deep.keeps_transport a x h used,
            deep.is_new a h,
            deep.config_new a k' h,
            deep.keeps_config a k h,
            closed x k used own,
          )
        ]
      ]

  -- `NewBCVProvider` from a client whose transport is unset or a `*http.Transport`, where Clone copies
  -- deeply and the default transport is a `*http.Transport`: the provider's client has the same timeout
  -- and a transport of its own, which was not in use and verifies no certificate; each transport that
  -- was in use, such as that of the client itself, verifies as before.
  pub bcv_client_lem :
      (default_transport : RoundTripper) (c : HttpClient) (h : Heap) (a : ℕ)
      → IsClosed h
      → transport_of default_transport c ≡ transport a
      → (b : ℕ) × (h' : Heap) × (bcv_client clone default_transport (http_client c) h
          ≡ some (
            http_client (record { round_tripper = some (transport b); timeout = c.timeout }),
            h',
          ))
        × (h.next_transport ≤ b)
        × (verifies h' b ≡ false)
        × ((x : ℕ) → x < h.next_transport → verifies h' x ≡ verifies h x)
  unfolding bcv_client
  bcv_client_lem default_transport c h a closed own =
      let (b, h1) = clone a h in
      (
        b,
        make_insecure b h1,
        ground arith,
        deep.is_new a h,
        verifies-clone b h1,
        λ x used. verifies-kept h a x closed used,
      )
