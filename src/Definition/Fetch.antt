-- ===== src/Definition/Fetch.antt =====
-- `fetchDefinition` and `authenticateRequest`. The HTTP client is a parameter; of `net/url` the scheme is
-- read as `url.Parse` reads it.
use swagger_hub_controller.Base.{
  ℕ, String, ◌<>◌, ◌&&◌, ◌||◌, not, Option, none, some, Error, Result, ok, err, panic, errorf, ltb,
  nat_eq, Action, pure, fail, lift, wrapping, ◌>>=◌, if◌then◌else◌, ◌==◌,
}
use swagger_hub_controller.Base.Text.{in_range, same_char, snoc, decimal, to_lower}
use swagger_hub_controller.Base.Dict.{lookup}
use swagger_hub_controller.Kube.Workload.{Bytes, Secret}
use swagger_hub_controller.Kube.Client.{Client}
use swagger_hub_controller.Api.Definition.{SwaggerDefinition, BasicAuth}

-- `http.Request` of a GET. The url is its whole text, also with the user info that it may have, which the
-- client may turn into a header.
pub record Request : Type 0 where
  pub url : String
  pub scheme : String
  -- set by `SetBasicAuth`
  pub basic_auth : Option (String × String)

-- `http.Response`; a body is what reading all of it gives.
pub record Response : Type 0 where
  pub status_code : ℕ
  pub body : Option (Result Bytes)

-- `httpClient`, the other errors of `url.Parse`, and `res.Body.Close`.
pub record HttpClient (W : Type 0) : Type 0 where
  pub parse_error : String → Option Error
  pub do_request : Request → Action W Response
  pub close_body : Response → W → W

-- `url.Parse` up to the scheme: letters, then also digits and `+-.`, up to a colon.
unfoldable pub scan_scheme : String → String → Result String
unfolding same_char to_lower
scan_scheme seen String.[] = ok ""
scan_scheme seen (String.◌∷◌ c raw_url) =
    let rest = scan_scheme (snoc seen c) raw_url in
    if in_range "a" "z" c || in_range "A" "Z" c
    then rest
    else if in_range "0" "9" c || same_char "+" c || same_char "-" c || same_char "." c
    then (if seen == "" then ok "" else rest)
    else if same_char ":" c
    then (if seen == "" then err (errorf "missing protocol scheme") else ok (to_lower seen))
    else ok ""

-- `cmp.Or` on texts
abbrev pub first_text : String → String → String
first_text s t = if s == "" then t else s

-- `http.NewRequest(http.MethodGet, url, nil)`
unfoldable pub new_request : (String → Option Error) → String → Result Request
unfolding scan_scheme
new_request parse_error url = elim (parse_error url) [
  | some e ↦ err e
  | none ↦ elim (scan_scheme "" url) [
    | ok scheme ↦ ok (record { url = url; scheme = scheme; basic_auth = none })
    | err e ↦ err e
    | panic m ↦ panic m
  ]
]

-- The part of `authenticateRequest` on the secret that was found.
unfoldable pub set_basic_auth : BasicAuth → Secret → Request → Result Request
unfolding lookup
set_basic_auth basic secret req =
    let secret_ref = basic.secret_ref in
    let username_field = first_text secret_ref.username_field "username" in
    let password_field = first_text secret_ref.password_field "password" in
    let username : Option String =
      if basic.username == ""
      then lookup username_field secret.secret_data
      else some basic.username in
    elim username [
      | none ↦
          err
            (errorf ("field " <> (username_field <> (" not found in secret " <> secret_ref.name))))
      | some u ↦ elim (lookup password_field secret.secret_data) [
        | none ↦
            err (
              errorf ("field " <> (password_field <> (" not found in secret " <> secret_ref.name))))
        | some password ↦ ok (record req { basic_auth = some (u, password) })
      ]
    ]

module _ (K : Client) where
  unfoldable pub authenticate_basic :
      SwaggerDefinition → BasicAuth → Request → Action K.World Request
  unfolding set_basic_auth
  authenticate_basic definition basic req =
      if not (req.scheme == "https") && not basic.allow_insecure
      then fail (
          errorf (
            "refusing to send basic auth credentials to an insecure " <> (req.scheme <> ":// url")))
      else do
        secret ← wrapping ("failed to get referenced secret " <> (basic.secret_ref.name <> ": ")) (
            K.secrets.get
              (record { namespace = definition.metadata.namespace; name = basic.secret_ref.name }))
        lift (set_basic_auth basic secret req)

  unfoldable pub authenticate_request : SwaggerDefinition → Request → Action K.World Request
  unfolding authenticate_basic
  authenticate_request definition req = elim definition.spec.auth [
    | none ↦ pure req
    | some auth ↦ elim auth.basic [
      | none ↦ pure req
      | some basic ↦ authenticate_basic definition basic req
    ]
  ]

module _ (K : Client) (H : HttpClient K.World) where
  -- What follows `r.HTTPClient.Do`. The body is closed where the deferred call was reached.
  unfoldable pub read_response : Response → Action K.World Bytes
  unfolding decimal
  read_response res w =
      if not (nat_eq res.status_code 200)
      then (err (errorf ("request failed with status code " <> decimal res.status_code)), w)
      else elim res.body [
        | none ↦ (panic "invalid memory address or nil pointer dereference", w)
        | some content ↦
            if ltb res.status_code 200 || ltb 299 res.status_code
            then (
              err (errorf ("unexpected http status code " <> decimal res.status_code)),
              H.close_body res w,
            )
            else (content, H.close_body res w)
      ]

  -- `fetchDefinition` at the url of the definition.
  unfoldable pub fetch_url : SwaggerDefinition → String → Action K.World Bytes
  unfolding new_request authenticate_request read_response
  fetch_url definition url = do
    req ← wrapping "create request failed: " (lift (new_request H.parse_error url))
    req' ← authenticate_request K definition req
    res ← wrapping "send request failed: " (H.do_request req')
    read_response res

  unfoldable pub fetch_definition : SwaggerDefinition → Action K.World Bytes
  unfolding fetch_url
  fetch_definition definition = elim definition.spec.url [
    | none ↦ λ w. (panic "invalid memory address or nil pointer dereference", w)
    | some url ↦ fetch_url definition url
  ]
