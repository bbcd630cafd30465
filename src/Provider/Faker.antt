-- ===== src/Provider/Faker.antt =====
-- `FakeHTTPDoer` of internal/provider/faker.go, the client of the tests. The reader of a body is the
-- text that it reads.
use Prim.Native.String.{String}
use ve_xchange_api.Prelude.{ℕ, Option, none, some}
use ve_xchange_api.Prelude.Result.{Result, ok, err, ◌>>=◌}
use ve_xchange_api.Provider.Http.{HttpRequest, HttpResponse}

pub record FakeHttpDoer {ℓ} (E : Type ℓ) : Type ℓ where
  pub status_code : ℕ
  pub body : String
  -- `none` is nil
  pub error : Option E
  pub do_func : Option (HttpRequest String → Result E String)

module _ {ℓ} {E : Type ℓ} (fake : FakeHttpDoer E) where
  abbrev pub answer_of : String → HttpResponse String
  answer_of body = record { status_code = fake.status_code; body = body }

  -- `Do`
  abbrev pub fake_do : HttpRequest String → Result E (HttpResponse String)
  fake_do req = elim fake.error [
    | some e ↦ err e
    | none ↦ elim fake.do_func [
      | none ↦ ok (answer_of fake.body)
      | some f ↦ do body ← f req; ok (answer_of body)
    ]
  ]
