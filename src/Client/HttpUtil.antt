-- ===== src/Client/HttpUtil.antt =====
-- packages/client/src/HttpUtil.ts: a request to a node, its errors and the lines of its response.
use logstore_archive.Base.{
  ℕ, String, ◌≡◌, refl, Bool, true, false, not, Option, none, some, List, [], ◌∷◌, str_eq,
  if◌then◌else◌, includes,
}
use logstore_archive.Base.JsMap
use logstore_archive.Base.JsMap.{JsMap}
use logstore_archive.Base.Result.{Result, ok, err}

pub data ErrorCode : Type 0 where
  not_found validation_error unknown : ErrorCode

-- What `JSON.parse` makes of a body, as far as the code looks at it: no JSON, a value with no
-- properties to read (null), or one with a `code`, which is a text where there is one.
pub data Parsed : Type 0 where
  syntax_error null_value : Parsed
  with_code : Option String → Parsed

-- what `in` finds in every object
abbrev pub inherited : List String
inherited =
    "constructor" ∷ "hasOwnProperty" ∷ "isPrototypeOf" ∷ "propertyIsEnumerable" ∷ "toLocaleString"
    ∷ "toString" ∷ "valueOf" ∷ "__proto__" ∷ "__defineGetter__" ∷ "__defineSetter__"
    ∷ "__lookupGetter__" ∷ "__lookupSetter__" ∷ []

-- A name that is found in `ErrorCode` but stands for none has no class in `ERROR_TYPES`.
pub data ParseFailure : Type 0 where
  type_error : ParseFailure

abbrev pub code_of : String → Result ParseFailure ErrorCode
code_of s =
    if str_eq s "NOT_FOUND"
    then ok not_found
    else if str_eq s "VALIDATION_ERROR"
    then ok validation_error
    else if str_eq s "UNKNOWN"
    then ok unknown
    else if includes s inherited
    then err type_error
    else ok unknown

unfoldable pub parse_error_code : Parsed → Result ParseFailure ErrorCode
parse_error_code syntax_error = ok unknown
parse_error_code null_value = err type_error
parse_error_code (with_code none) = ok unknown
parse_error_code (with_code (some s)) = code_of s

pub record Response : Type 0 where
  pub is_ok : Bool
  pub status : ℕ
  pub text : String
  -- the lines of the body, where there is a body
  pub body : Option (List String)

-- `HttpError` and its subclasses, by their code
pub record HttpError : Type 0 where
  pub response : Response
  pub body : String
  pub code : ErrorCode

pub data HttpFailure (X : Type 0) : Type 0 where
  http_error : HttpError → HttpFailure X
  bad_body : ParseFailure → HttpFailure X
  -- thrown by `fetch`
  thrown : X → HttpFailure X

pub record Options : Type 0 where
  pub method : Option String
  pub headers : JsMap String

-- `DEFAULT_HEADERS`, and the options that `fetchResponse` builds
abbrev pub default_headers : String → JsMap String
default_headers version = ("LogStore-Client", version) ∷ []

abbrev with_content_type : Option String → JsMap String → JsMap String
with_content_type none headers = headers
with_content_type (some method) headers =
    if str_eq method "POST"
    then JsMap.set headers "Content-Type" "application/json"
    else if str_eq method "PUT"
    then JsMap.set headers "Content-Type" "application/json"
    else headers

unfoldable pub full_options : String → Options → Options
full_options version opts =
    let headers = JsMap.spread (default_headers version) opts.headers in
    record {
      method = opts.method;
      headers =
          if JsMap.has headers "Content-Type"
          then headers
          else with_content_type opts.method headers;
    }

pub data StreamFailure (X : Type 0) : Type 0 where
  -- `FetchHttpStreamResponseError`
  response_error : Response → String → StreamFailure X
  no_response_body : StreamFailure X
  rethrown : HttpFailure X → StreamFailure X

module _ {X : Type 0} (parse : String → Parsed) (fetch : String → Options → Result X Response) where
  abbrev to_error : Response → Result ParseFailure ErrorCode → HttpFailure X
  to_error r (ok code) = http_error (record { response = r; body = r.text; code = code })
  to_error r (err e) = bad_body e

  abbrev checked : Response → Result (HttpFailure X) Response
  checked r = if r.is_ok then ok r else err (to_error r (parse_error_code (parse r.text)))

  abbrev answered : Result X Response → Result (HttpFailure X) Response
  answered (err x) = err (thrown x)
  answered (ok r) = checked r

  -- The options that were built are not used: `fetchFn(url, opts)`.
  unfoldable pub fetch_response : String → Options → Result (HttpFailure X) Response
  fetch_response url opts = answered (fetch url opts)

  abbrev lines_of : Response → Option (List String) → Result (StreamFailure X) (List String)
  lines_of r none = err no_response_body
  lines_of r (some lines) = ok lines

  abbrev streamed : Result (HttpFailure X) Response → Result (StreamFailure X) (List String)
  streamed (err (http_error e)) = err (response_error e.response e.body)
  streamed (err other) = err (rethrown other)
  streamed (ok r) = if not r.is_ok then err (response_error r r.text) else lines_of r r.body

  -- `fetchHttpStream`, by the lines that it yields; `token` is the text of the header. What a body
  -- that breaks off later does to the reader is not modelled.
  unfoldable pub fetch_http_stream : String → String → Result (StreamFailure X) (List String)
  fetch_http_stream url token =
      streamed
        (fetch_response url (record { method = none; headers = ("Authorization", token) ∷ [] }))

  -- A response that is not ok ends the stream with that response and its text, if the text is no
  -- JSON, or a JSON value whose code is a text that no object has as a property; a response that
  -- is ok gives the lines of its body; and an error of `fetch` comes through.
  pub fetch_http_stream_lem :
      (url token : String) (r : Response) (x : X) (lines : List String) (c : ErrorCode)
      (opts : Options)
      → opts ≡ record { method = none; headers = ("Authorization", token) ∷ [] }
      → (fetch url opts ≡ ok r
          → r.is_ok ≡ false
          → parse_error_code (parse r.text) ≡ ok c
          → fetch_http_stream url token ≡ err (response_error r r.text))
        × (fetch url opts ≡ ok r
            → r.is_ok ≡ true
            → r.body ≡ some lines
            → fetch_http_stream url token ≡ ok lines)
        × (fetch url opts ≡ err x → fetch_http_stream url token ≡ err (rethrown (thrown x)))
  unfolding fetch_http_stream fetch_response
  fetch_http_stream_lem url token r x lines c opts o =
      (λ f b p. rw (← o, f, b, p) refl, λ f b p. rw (← o, f, b, p) refl, λ f. rw (← o, f) refl)

-- the token of `fetchAuthParams`
module _ (sign base64_encode : String → String) (concat : String → String → String) where
  unfoldable pub fetch_auth_token : String → String
  fetch_auth_token user = base64_encode (concat (concat user ":") (sign user))
