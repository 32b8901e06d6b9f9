-- ===== src/Sources/Fetch.antt =====
-- Requests to Prometheus, one after another: `_client` and `_query_value` of
-- app/adapters/prometheus.py. What the network answers to a request may depend on all the requests
-- before it, and is a parameter.
use Prim.Native.String.{◌++◌ as ◌<>◌}
use superflash_ia.Prelude.{
  ℕ, String, Bool, false, not, ◌||◌, Option, none, some, List, [], ◌∷◌, ◌++◌, ◌==◌, nat_eq,
  string_eq, truthy, or_else, if◌then◌else◌,
}
use superflash_ia.Sources.Json.{
  Floats, Json, object, find_field, at_key, at_zero, at_one, is_falsy, float_of,
}

-- A `GET /api/v1/query` as it is sent; `authorization` is the header.
pub record Request : Type 0 where
  pub base_url : String
  pub authorization : Option String
  pub promql : String

-- A response with its status and its body (none is a body that is no JSON), or the class of an
-- `httpx.HTTPError`.
pub data Exchange (F : Floats) : Type 0 where
  response : ℕ → Option (Json F) → Exchange F
  transport_error : String → Exchange F

-- The exceptions: `PrometheusAuthError` with the status, `PrometheusSourceError` with the words of its text, an
-- `httpx.HTTPError` with its class, the `AttributeError` of a payload that is no dictionary, and the
-- `ValidationError` of an inventory.
pub data Failure : Type 0 where
  auth_error : ℕ → Failure
  source_error http_error : String → Failure
  attribute_error validation_error : Failure

pub data Outcome (A : Type 0) : Type 0 where
  ok : A → Outcome A
  raised : Failure → Outcome A

-- A computation that sends requests: the sent ones come in, the oldest first, and go out.
abbrev pub Fetch : Type 0 → Type 0
Fetch A = List Request → Outcome A × List Request

abbrev pub pure : {A : Type 0} → A → Fetch A
pure a sent = (ok a, sent)

abbrev pub raise : {A : Type 0} → Failure → Fetch A
raise f sent = (raised f, sent)

abbrev pub after : {A B : Type 0} → Outcome A → (A → Fetch B) → Fetch B
after (ok a) f sent = f a sent
after (raised e) f sent = (raised e, sent)

infixl 5 ◌>>=◌
unfoldable pub ◌>>=◌ : {A B : Type 0} → Fetch A → (A → Fetch B) → Fetch B
◌>>=◌ m f sent = after (m sent).0 f (m sent).1

-- `_client`: the address and the header of every request of an adapter.
pub record Client : Type 0 where
  pub base_url : String
  pub authorization : Option String

abbrev pub client_of : String → Option String → Client
client_of base_url token = record {
  base_url = base_url;
  authorization = if truthy token then some ("Bearer " <> or_else token "") else none;
}

-- The exceptions of the body of the `try` become a source error.
abbrev pub malformed : {A : Type 0} → Outcome A
malformed = raised (source_error "Respuesta de Prometheus malformada")

abbrev pub finite_value : (F : Floats) → F.Number → Outcome (Option F.Number)
finite_value F value = ok (if F.is_finite value then some value else none)

abbrev pub request_of : Client → String → Request
request_of client promql = record {
  base_url = client.base_url;
  authorization = client.authorization;
  promql = promql;
}

module _ {F : Floats} where
  abbrev pub first_value : Json F → Outcome (Option F.Number)
  first_value results = if is_falsy results then ok none else elim (at_zero results) [
    | none ↦ malformed
    | some series ↦ elim (at_key "value" series) [
      | none ↦ malformed
      | some pair ↦ elim (at_one pair) [
        | none ↦ malformed
        | some x ↦ elim (float_of x) [ none ↦ malformed | some value ↦ finite_value F value ]
      ]
    ]
  ]

  abbrev pub is_success : Option (Json F) → Bool
  is_success (some (Json.text s)) = s == "success"
  is_success _ = false

  abbrev pub value_of_payload : Json F → Outcome (Option F.Number)
  value_of_payload (object fields) =
      if is_success (find_field "status" fields)
      then elim (find_field "data" fields) [
        | none ↦ malformed
        | some d ↦ elim (at_key "result" d) [
          | none ↦ malformed
          | some results ↦ first_value results
        ]
      ]
      else raised (source_error "Prometheus devolvió status != success")
  value_of_payload _ = raised attribute_error

  abbrev pub value_of_body : Option (Json F) → Outcome (Option F.Number)
  value_of_body none = malformed
  value_of_body (some payload) = value_of_payload payload

  unfoldable pub value_of_exchange : Exchange F → Outcome (Option F.Number)
  value_of_exchange (transport_error name) = raised (http_error name)
  value_of_exchange (response status body) =
      if status == 401 || status == 403
      then raised (auth_error status)
      else if not (status == 200)
      then raised (source_error "Prometheus respondió HTTP a una consulta")
      else value_of_body body

  module _ (network : List Request → Request → Exchange F) where
    -- `_query_value`; `network` has the answer to a request after the ones that were sent.
    unfoldable pub query_value : Client → String → Fetch (Option F.Number)
    query_value client promql sent =
        let request = request_of client promql in
        (value_of_exchange (network sent request), sent ++ request ∷ [])
