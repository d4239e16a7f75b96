-- ===== src/Publish/Http.antt =====
-- data/publish/http/http_publisher.c: the publisher that sends a value by HTTP. libcurl is not part
-- of the repository; what a transfer gives is a parameter.
pub mod Attempts
use mapper_framework_c.Prelude.{
  ℕ, zero, suc, ◌++◌, Bool, true, false, Option, none, some, List, [], ◌∷◌, if◌then◌else◌,
}
use mapper_framework_c.Prelude.Int.{ℤ, pos, pos_part, ltb_ℤ}
use mapper_framework_c.Prelude.CString.{Str, codes, str_eq, snprintf}
use mapper_framework_c.Common.Const.{success, failure}
use mapper_framework_c.Common.Cjson.{Cjson, CjsonReader}
use mapper_framework_c.Common.DataModel.{DataModel}
use mapper_framework_c.Common.Outcome.{Outcome, fault, done, ◌>>=◌}
use mapper_framework_c.Publish.Fields.{
  text_field, optional_field, int_field, data_document, is_delivered,
}

pub record HttpPublishConfig : Type 0 where
  pub endpoint : Str
  pub method : Str
  pub auth_token : Option Str
  pub content_type : Str
  pub timeout_ms : ℤ
  pub retry_count : ℤ

-- `some` is the code 0, `none` is -1.
unfoldable pub http_parse_config : CjsonReader → Option Str → Outcome (Option HttpPublishConfig)
http_parse_config r none = done none
http_parse_config r (some json) = elim (r.parse json) [
  | none ↦ done none
  | some root ↦ do
    endpoint ←
        text_field (r.get_object_item root (codes "endpoint"))
          (codes "http://localhost:8080/api/data")
    method ← text_field (r.get_object_item root (codes "method")) (codes "POST")
    auth_token ← optional_field (r.get_object_item root (codes "authToken"))
    content_type ←
        text_field (r.get_object_item root (codes "contentType")) (codes "application/json")
    done (
        some (record {
          endpoint = endpoint;
          method = method;
          auth_token = auth_token;
          content_type = content_type;
          timeout_ms = int_field (r.get_object_item root (codes "timeout")) (pos 10000);
          retry_count = int_field (r.get_object_item root (codes "retryCount")) (pos 3);
        }))
]

pub record HttpPublisher : Type 0 where
  pub config : HttpPublishConfig
  pub headers : List Str

abbrev http_headers : HttpPublishConfig → List Str
http_headers c = snprintf 256 (codes "Content-Type: " ++ c.content_type) ∷ elim c.auth_token [
  | none ↦ []
  | some t ↦ snprintf 512 (codes "Authorization: Bearer " ++ t) ∷ []
]

-- `has_curl` says whether `curl_easy_init` gives a handle.
unfoldable pub http_publisher_new :
    CjsonReader → (has_curl : Bool) → Option Str → Outcome (Option HttpPublisher)
unfolding http_parse_config
http_publisher_new r has_curl none = done none
http_publisher_new r has_curl (some json) = do
  parsed ← http_parse_config r (some json)
  elim parsed [
    | none ↦ done none
    | some c ↦
        if has_curl
        then done (some (record { config = c; headers = http_headers c }))
        else done none
  ]

-- What libcurl is told to send.
pub record HttpRequest : Type 0 where
  pub url : Str
  pub is_put : Bool
  pub request_headers : List Str
  pub body : Str

-- The loop of attempts from the one numbered `n`, with what each transfer gives: the code and the
-- number of attempts made; `none` where the fuel is used up.
unfoldable pub http_attempts :
    (perform : ℕ → Option ℤ) (retry_count : ℤ) (fuel n : ℕ) → Option (ℤ × ℕ)
http_attempts perform retry_count zero n = none
http_attempts perform retry_count (suc fuel) n =
    let rest = http_attempts perform retry_count fuel (suc n) in
    if is_delivered (perform n)
    then some (success, suc n)
    else if ltb_ℤ (pos (suc n)) retry_count
    then rest
    else some (failure, suc n)

-- What a call gives: the request, where one is made, and the result of its attempts.
pub record HttpResult : Type 0 where
  pub request : Option HttpRequest
  pub result : Option (ℤ × ℕ)

unfoldable pub http_request : HttpPublisher → Str → HttpRequest
http_request p json = record {
  url = p.config.endpoint;
  is_put = str_eq p.config.method (codes "PUT");
  request_headers = p.headers;
  body = json;
}

abbrev send : HttpPublisher → HttpRequest → (perform : HttpRequest → ℕ → Option ℤ) → HttpResult
send p request perform = record {
  request = some request;
  result =
      http_attempts (perform request) p.config.retry_count (suc (pos_part p.config.retry_count)) 0;
}

abbrev pub unsent : HttpResult
unsent = record { request = none; result = some (failure, 0) }

unfoldable pub http_publisher_publish :
    (cjson : Cjson)
    → Option HttpPublisher
    → Option DataModel
    → (perform : HttpRequest → ℕ → Option ℤ) → HttpResult
unfolding http_attempts http_request
http_publisher_publish cjson (some p) (some dm) perform =
    elim (cjson.print_unformatted (data_document cjson dm)) [
      | none ↦ unsent
      | some json ↦ send p (http_request p json) perform
    ]
http_publisher_publish cjson p dm perform = unsent
