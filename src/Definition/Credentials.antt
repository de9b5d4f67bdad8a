-- ===== src/Definition/Credentials.antt =====
-- What is sent, and what is accepted, when a definition is fetched.
use swagger_hub_controller.Base.{
  String, false, Option, none, some, Error, Result, ok, err, panic, Action, lift, wrapping, ◌>>=◌,
  eq_iff, ◌≡◌, refl, ap, sym, ◌∙◌, >>=-eq-ok, wrapping-eq-ok, ◌⊎◌, inl, inr, arith, Option-cases,
}
use swagger_hub_controller.Kube.Workload.{Bytes, Secret}
use swagger_hub_controller.Kube.Client.{Client}
use swagger_hub_controller.Api.Definition.{SwaggerDefinition, BasicAuth, DefinitionAuth}
use swagger_hub_controller.Definition.Fetch.{
  Request, Response, HttpClient, new_request, authenticate_request, authenticate_basic,
  set_basic_auth, read_response, fetch_url, fetch_definition,
}

set_basic_auth-scheme :
    (b : BasicAuth) (secret : Secret) (r r' : Request)
    → set_basic_auth b secret r ≡ ok r'
    → r'.scheme ≡ r.scheme
unfolding set_basic_auth
set_basic_auth-scheme b secret r r' e = ground arith

new_request-bare :
    (parse_error : String → Option Error) (u : String) (r : Request)
    → new_request parse_error u ≡ ok r
    → r.basic_auth ≡ none
unfolding new_request
new_request-bare parse_error u r e = ground arith

new_request-url :
    (parse_error : String → Option Error) (u : String) (r : Request)
    → new_request parse_error u ≡ ok r
    → r.url ≡ u
unfolding new_request
new_request-url parse_error u r e = ground arith

set_basic_auth-url :
    (b : BasicAuth) (secret : Secret) (r r' : Request)
    → set_basic_auth b secret r ≡ ok r'
    → r'.url ≡ r.url
unfolding set_basic_auth
set_basic_auth-url b secret r r' e = ground arith

module _ (K : Client) where
  -- The user has not allowed to send the credentials in clear.
  abbrev pub IsStrict : SwaggerDefinition → Type 0
  IsStrict d =
      (a : DefinitionAuth) (b : BasicAuth)
      → d.spec.auth ≡ some a
      → a.basic ≡ some b
      → b.allow_insecure ≡ false

  -- A request that carries no credentials, or goes to https.
  abbrev pub IsSafe : Request → Type 0
  IsSafe r = (r.basic_auth ≡ none) ⊎ (r.scheme ≡ "https")

  authenticate_basic-scheme :
      (d : SwaggerDefinition) (b : BasicAuth) (r r' : Request) (w w' : K.World)
      → b.allow_insecure ≡ false
      → authenticate_basic K d b r w ≡ (ok r', w')
      → r'.scheme ≡ "https"
  unfolding authenticate_basic
  authenticate_basic-scheme d b r r' w w' strict e =
      grind (arith, set_basic_auth-scheme b, eq_iff r.scheme "https")

  authenticate_request-IsSafe :
      (d : SwaggerDefinition) (r r' : Request) (w w' : K.World)
      → IsStrict d
      → r.basic_auth ≡ none
      → authenticate_request K d r w ≡ (ok r', w')
      → IsSafe r'
  unfolding authenticate_request
  authenticate_request-IsSafe d r r' w w' strict bare e = elim (Option-cases d.spec.auth) [
    | inl n ↦ inl (ground arith)
    | inr (a, ea) ↦ elim (Option-cases a.basic) [
      | inl n ↦ inl (ground arith)
      | inr (b, eb) ↦
          inr (authenticate_basic-scheme d b r r' w w' (strict a b ea eb) (ground arith))
    ]
  ]

  authenticate_request-url :
      (d : SwaggerDefinition) (r r' : Request) (w w' : K.World)
      → authenticate_request K d r w ≡ (ok r', w')
      → r'.url ≡ r.url
  unfolding authenticate_request
  authenticate_request-url d r r' w w' e = grind (arith, set_basic_auth-url)

  -- The request is sent and its response is read.
  abbrev send : HttpClient K.World → Request → Action K.World Bytes
  send h r = do res ← wrapping "send request failed: " (h.do_request r); read_response K h res

  module _ (H : HttpClient K.World) where
    read_response_ok :
        (res : Response) (w : K.World) {b : Bytes} {w' : K.World}
        → read_response K H res w ≡ (ok b, w')
        → (res.status_code ≡ 200) × (res.body ≡ some (ok b)) × (w' ≡ H.close_body res w)
    unfolding read_response
    read_response_ok res w e = ground arith

    fetch_url_ok :
        (d : SwaggerDefinition) (u : String) (w : K.World) {b : Bytes} {w' : K.World}
        → fetch_url K H d u w ≡ (ok b, w')
        → (r : Request) × (res : Response) × (v : K.World) × (v' : K.World) × (r.url ≡ u)
          × (H.do_request r v ≡ (ok res, v'))
          × (read_response K H res v' ≡ (ok b, w'))
    unfolding fetch_url
    fetch_url_ok d u w e =
        let (r, v₁, made, e₁) =
          >>=-eq-ok (wrapping "create request failed: " (lift (new_request H.parse_error u)))
            (λ r. authenticate_request K d r >>= send H) w e in
        let (r', v₂, authenticated, e₂) = >>=-eq-ok (authenticate_request K d r) (send H) v₁ e₁ in
        let (res, v₃, sent, e₃) =
          >>=-eq-ok (wrapping "send request failed: " (H.do_request r')) (read_response K H) v₂
            e₂ in
        let made' =
          wrapping-eq-ok "create request failed: " (lift (new_request H.parse_error u)) w made in
        (
          r',
          res,
          v₂,
          v₃,
          authenticate_request-url d r r' v₁ v₂ authenticated
              ∙ new_request-url H.parse_error u r (ap (λ x. x.0) made'),
          wrapping-eq-ok "send request failed: " (H.do_request r') v₂ sent,
          e₃,
        )

    -- A fetch that returns gives the body of a response with status 200 to a request for the url
    -- of the definition, and the body of the response has been closed.
    pub fetch_definition_ok :
        (d : SwaggerDefinition) (w : K.World) {b : Bytes} {w' : K.World}
        → fetch_definition K H d w ≡ (ok b, w')
        → (r : Request) × (res : Response) × (v : K.World) × (v' : K.World) × (d.spec.url
            ≡ some r.url)
          × (H.do_request r v ≡ (ok res, v'))
          × (res.status_code ≡ 200)
          × (res.body ≡ some (ok b))
          × (w' ≡ H.close_body res v')
    unfolding fetch_definition
    fetch_definition_ok d w {b} {w'} e = elim (Option-cases d.spec.url) [
      | inl n ↦ absurd (ground arith)
      | inr (u, eu) ↦
          let (r, res, v, v', same, sent, read) = fetch_url_ok d u w (ground arith) in
          let (status, body, closed) = read_response_ok res v' read in
          (r, res, v, v', eu ∙ ap some (sym same), sent, status, body, closed)
    ]

  module _ (H : HttpClient K.World) (d : SwaggerDefinition) (f : Request → Action K.World Response)
      (strict : IsStrict d)
      (agree : (r : Request) (w : K.World) → IsSafe r → f r w ≡ H.do_request r w) where
    abbrev other : HttpClient K.World
    other = record H { do_request = f }

    send-eq : (r : Request) (w : K.World) → IsSafe r → send other r w ≡ send H r w
    unfolding read_response
    send-eq r w safe =
        ap
          (λ (x : Result Response × K.World).
            (wrapping "send request failed: " (λ _. x) >>= read_response K H) w)
          (agree r w safe)

    authenticated-eq :
        (r : Request) (w : K.World) (x : Result Request × K.World)
        → r.basic_auth ≡ none
        → authenticate_request K d r w ≡ x
        → elim x.0 [ ok a ↦ send other a x.1 | err e ↦ (err e, x.1) | panic p ↦ (panic p, x.1) ]
          ≡ elim x.0 [ ok a ↦ send H a x.1 | err e ↦ (err e, x.1) | panic p ↦ (panic p, x.1) ]
    authenticated-eq r w (ok a, v) bare e =
        send-eq a v (authenticate_request-IsSafe d r a w v strict bare e)
    authenticated-eq r w (err m, v) bare e = refl
    authenticated-eq r w (panic m, v) bare e = refl

    fetch_url-eq : (u : String) (w : K.World) → fetch_url K other d u w ≡ fetch_url K H d u w
    unfolding fetch_url
    fetch_url-eq u w = go (new_request H.parse_error u) refl
      where
        go :
            (n : Result Request)
            → new_request H.parse_error u ≡ n
            → (wrapping {W = K.World} "create request failed: " (lift n) >>= λ r.
                  (authenticate_request K d r >>= send other))
                w
              ≡ (wrapping {W = K.World} "create request failed: " (lift n) >>= λ r.
                    (authenticate_request K d r >>= send H))
                  w
        go (ok r) e =
            authenticated-eq r w (authenticate_request K d r w)
              (new_request-bare H.parse_error u r e) refl
        go (err m) e = refl
        go (panic m) e = refl

  -- Credentials of a secret are not sent in clear: unless the definition allows it, fetching does
  -- not depend on what the HTTP client does with a request on which basic auth was set and that
  -- has another scheme than https. Any client that treats all other requests alike gives the same
  -- outcome and the same world.
  pub fetch_definition-IsSafe :
      (H : HttpClient K.World) (d : SwaggerDefinition) (f : Request → Action K.World Response)
      → IsStrict d
      → ((r : Request) (w : K.World) → IsSafe r → f r w ≡ H.do_request r w)
      → (w : K.World)
      → fetch_definition K (record H { do_request = f }) d w ≡ fetch_definition K H d w
  unfolding fetch_definition
  fetch_definition-IsSafe H d f strict agree w = elim (Option-cases d.spec.url) [
    | inl n ↦ rw (n, fetch_definition)
    | inr (u, eu) ↦ rw (eu, fetch_definition) (fetch_url-eq H d f strict agree u w)
  ]
