-- ===== src/Examples/Transport.antt =====
-- A client that shares its transport, on a heap with one transport and its configuration.
use ve_xchange_api.Prelude.{
  ℕ, ◌+◌, ◌≤◌, ◌<◌, ◌≡◌, refl, false, Option, none, some, arith, Option-cases, inl, inr,
}
use ve_xchange_api.Provider.Bcv.Transport.{
  Heap, transport, HttpClient, http_client, update, bcv_client,
}
use ve_xchange_api.Provider.Bcv.Transport.Isolated.{IsClosed, DeepCopy, verifies, bcv_client_lem}

abbrev copy_transport : Option ℕ → Heap → ℕ × Heap
copy_transport none h = (
  h.next_transport,
  record h {
    transports = update h.next_transport (record { tls_client_config = none }) h.transports;
    next_transport = h.next_transport + 1;
  },
)
copy_transport (some k) h = (
  h.next_transport,
  record h {
    transports =
        update h.next_transport (record { tls_client_config = some h.next_config }) h.transports;
    configs = update h.next_config (h.configs k) h.configs;
    next_transport = h.next_transport + 1;
    next_config = h.next_config + 1;
  },
)

abbrev toy_clone : ℕ → Heap → ℕ × Heap
toy_clone a h = copy_transport (h.transports a).tls_client_config h

toy_clone-DeepCopy : DeepCopy toy_clone
toy_clone-DeepCopy = record {
  is_new = λ a h. elim (Option-cases (h.transports a).tls_client_config) [
    | inl unset ↦ ground arith
    | inr (k, own) ↦ ground arith
  ];
  config_new = λ a x h there. elim (Option-cases (h.transports a).tls_client_config) [
    | inl unset ↦ ground arith
    | inr (k, own) ↦ ground arith
  ];
  configs_grow = λ a h. elim (Option-cases (h.transports a).tls_client_config) [
    | inl unset ↦ ground arith
    | inr (k, own) ↦ ground arith
  ];
  keeps_transport = λ a x h used. elim (Option-cases (h.transports a).tls_client_config) [
    | inl unset ↦ ground arith
    | inr (k, own) ↦ ground arith
  ];
  keeps_config = λ a x h used. elim (Option-cases (h.transports a).tls_client_config) [
    | inl unset ↦ ground arith
    | inr (k, own) ↦ ground arith
  ];
}

abbrev one_transport : Heap
one_transport = record {
  transports = λ a. record { tls_client_config = some 0 };
  configs = λ k. record { insecure_skip_verify = false };
  next_transport = 1;
  next_config = 1;
}

abbrev shared_client : HttpClient
shared_client = record { round_tripper = none; timeout = 10 }

one_transport-IsClosed : IsClosed one_transport
one_transport-IsClosed a k used own = ground arith

client_example :
    (b : ℕ) × (h' : Heap) × (bcv_client toy_clone
        (transport 0)
        (http_client shared_client)
        one_transport
      ≡ some (http_client (record { round_tripper = some (transport b); timeout = 10 }), h'))
    × (1 ≤ b)
    × (verifies h' b ≡ false)
    × ((x : ℕ) → x < 1 → verifies h' x ≡ verifies one_transport x)
client_example =
    bcv_client_lem toy_clone toy_clone-DeepCopy (transport 0) shared_client one_transport 0
      one_transport-IsClosed refl
