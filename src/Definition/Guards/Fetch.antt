-- ===== src/Definition/Guards/Fetch.antt =====
-- Fetching a definition keeps what the calls of the client and of the HTTP client keep, and panics
-- only as they do.
use swagger_hub_controller.Base.{
  String, ◌<>◌, sym, subst, some-injective, Bool, true, false, not, ◌&&◌, ◌||◌, Option, none, some,
  Error, Result, ok, err, panic, errorf, Action, pure, fail, lift, wrapping, ◌>>=◌, if◌then◌else◌,
  ◌==◌, ◌≡◌, nat_eq, ltb,
}
use swagger_hub_controller.Base.Dict.{lookup}
use swagger_hub_controller.Base.Text.{snoc, decimal, in_range, same_char, to_lower}
use swagger_hub_controller.Base.Runs.{
  Runs, Ends, Guards, IsCalm, Runs-if, Runs-if_at, Runs-pure, Runs-fail, Runs-lift, Runs-bind,
  Runs-wrapping,
}
use swagger_hub_controller.Kube.Workload.{Bytes, Secret}
use swagger_hub_controller.Kube.Client.{Client}
use swagger_hub_controller.Kube.Guards.{CallsGuard}
use swagger_hub_controller.Api.Definition.{
  SwaggerDefinition, BasicAuth, DefinitionAuth, definition_object,
}
use swagger_hub_controller.Definition.Fetch.{
  Request, Response, HttpClient, first_text, scan_scheme, new_request, set_basic_auth,
  authenticate_basic, authenticate_request, read_response, fetch_url,
}

-- A response has a body, as `net/http` promises, and reading it panics only as allowed.
abbrev pub HasBody : (String → Type 0) → Response → Type 0
HasBody C res = (content : Result Bytes) × (res.body ≡ some content) × IsCalm C content

-- What the controller relies on of the HTTP client.
pub record HttpGuards {W : Type 0} (I : W → Type 0) (C : String → Type 0) (H : HttpClient W)
    : Type 0 where
  pub do_request : (r : Request) → Runs I C I (λ res w. I w × HasBody C res) (H.do_request r)
  pub close_body : (res : Response) (w : W) → I w → I (H.close_body res w)

IsCalm-if :
    {A : Type 0} (C : String → Type 0) (b : Bool) (r s : Result A)
    → IsCalm C r
    → IsCalm C s
    → IsCalm C (if b then r else s)
IsCalm-if C true r s h k = h
IsCalm-if C false r s h k = k

-- The tests of `scan_scheme` at one character.
scanned-IsCalm :
    (C : String → Type 0) (letter other first colon : Bool) (e : Error) (t : String)
    (rest : Result String)
    → IsCalm C rest
    → IsCalm C (
        if letter
        then rest
        else if other
        then (if first then ok "" else rest)
        else if colon
        then (if first then err e else ok t)
        else ok "")
scanned-IsCalm C true other first colon e t rest h = h
scanned-IsCalm C false true first colon e t rest h = IsCalm-if C first (ok "") rest tt h
scanned-IsCalm C false false first true e t rest h = IsCalm-if C first (err e) (ok t) tt tt
scanned-IsCalm C false false first false e t rest h = tt

scan_scheme-IsCalm : (C : String → Type 0) (seen url : String) → IsCalm C (scan_scheme seen url)
unfolding scan_scheme
scan_scheme-IsCalm C seen String.[] = tt
scan_scheme-IsCalm C seen (String.◌∷◌ c url) =
    scanned-IsCalm C (in_range "a" "z" c || in_range "A" "Z" c)
      (in_range "0" "9" c || same_char "+" c || same_char "-" c || same_char "." c) (seen == "")
      (same_char ":" c) (errorf "missing protocol scheme") (to_lower seen)
      (scan_scheme (snoc seen c) url) (scan_scheme-IsCalm C (snoc seen c) url)

new_request-IsCalm :
    (C : String → Type 0) (parse_error : String → Option Error) (url : String)
    → IsCalm C (new_request parse_error url)
unfolding new_request
new_request-IsCalm C parse_error url =
    go (parse_error url) (scan_scheme "" url) (scan_scheme-IsCalm C "" url)
  where
    go :
        (o : Option Error) (s : Result String)
        → IsCalm C s
        → IsCalm C {A = Request} (elim o [
          | some e ↦ err e
          | none ↦ elim s [
            | ok scheme ↦ ok (record { url = url; scheme = scheme; basic_auth = none })
            | err e ↦ err e
            | panic m ↦ panic m
          ]
        ])
    go (some e) s h = tt
    go none (ok s) h = tt
    go none (err e) h = tt
    go none (panic m) h = h

set_basic_auth-IsCalm :
    (C : String → Type 0) (b : BasicAuth) (s : Secret) (r : Request)
    → IsCalm C (set_basic_auth b s r)
unfolding set_basic_auth
set_basic_auth-IsCalm C b s r =
    go (missing username_field) (missing password_field)
      (if b.username == "" then lookup username_field s.secret_data else some b.username)
      (lookup password_field s.secret_data)
  where
    username_field : String
    username_field = first_text b.secret_ref.username_field "username"

    password_field : String
    password_field = first_text b.secret_ref.password_field "password"

    missing : String → Error
    missing field = errorf ("field " <> (field <> (" not found in secret " <> b.secret_ref.name)))

    go :
        (x y : Error) (username : Option String) (password : Option Bytes)
        → IsCalm C {A = Request} (elim username [
          | none ↦ err x
          | some u ↦ elim password [
            | none ↦ err y
            | some p ↦ ok (record r { basic_auth = some (u, p) })
          ]
        ])
    go x y none p = tt
    go x y (some u) none = tt
    go x y (some u) (some p) = tt

module _ {K : Client} {I : K.World → Type 0} {C : String → Type 0} (G : CallsGuard K I C) where
  authenticate_basic-Guards :
      (d : SwaggerDefinition) (b : BasicAuth) (r : Request)
      → Guards I C (authenticate_basic K d b r)
  unfolding authenticate_basic
  authenticate_basic-Guards d b r =
      Runs-if (not (r.scheme == "https") && not b.allow_insecure) (fail refused) set
        (λ _. Runs-fail refused (λ w p. p))
        (λ _.
          Runs-bind {Q = λ _. I} (wrapping _ (K.secrets.get _)) _
            (Runs-wrapping _ (K.secrets.get _) (G.secrets.get _))
            (λ secret. Runs-lift _ (set_basic_auth-IsCalm C b secret r) (λ w p. p) (λ a w _ p. p)))
    where
      refused : Error
      refused =
          errorf
            ("refusing to send basic auth credentials to an insecure " <> (r.scheme <> ":// url"))

      set : Action K.World Request
      set = do
        secret ←
            wrapping ("failed to get referenced secret " <> (b.secret_ref.name <> ": ")) (
              K.secrets.get (record { namespace = d.metadata.namespace; name = b.secret_ref.name }))
        lift (set_basic_auth b secret r)

  authenticate_request-Guards :
      (d : SwaggerDefinition) (r : Request) → Guards I C (authenticate_request K d r)
  unfolding authenticate_request
  authenticate_request-Guards d r = go d.spec.auth
    where
      basic :
          (b : Option BasicAuth)
          → Guards I C (elim b [ none ↦ pure r | some b ↦ authenticate_basic K d b r ])
      basic none = Runs-pure r (λ w p. p)
      basic (some b) = authenticate_basic-Guards d b r

      go :
          (a : Option DefinitionAuth)
          → Guards I C (elim a [
            | none ↦ pure r
            | some auth ↦ elim auth.basic [ none ↦ pure r | some b ↦ authenticate_basic K d b r ]
          ])
      go none = Runs-pure r (λ w p. p)
      go (some auth) = basic auth.basic

  module _ {H : HttpClient K.World} (G' : HttpGuards I C H) where
    content-Ends :
        (content : Result Bytes) (w : K.World)
        → IsCalm C content
        → I w
        → Ends I C (λ _. I) (content, w)
    content-Ends (ok b) w h p = p
    content-Ends (err e) w h p = p
    content-Ends (panic m) w h p = (h, p)

    read_response-Runs :
        (res : Response) → Runs I C (λ w. I w × HasBody C res) (λ _. I) (read_response K H res)
    unfolding read_response
    read_response-Runs res =
        Runs-if_at (not (nat_eq res.status_code 200)) (fail failed) read
          (λ _. Runs-fail failed (λ w p. p.0))
          (λ _. record { at = λ w p. go res.body w (p.1.0) p.1.1 p.1.2 p.0 })
      where
        failed : Error
        failed = errorf ("request failed with status code " <> decimal res.status_code)

        outside : Bool
        outside = ltb res.status_code 200 || ltb 299 res.status_code

        unexpected : Error
        unexpected = errorf ("unexpected http status code " <> decimal res.status_code)

        read_body : Option (Result Bytes) → Action K.World Bytes
        read_body body w = elim body [
          | none ↦ (panic "invalid memory address or nil pointer dereference", w)
          | some content ↦
              if outside
              then (err unexpected, H.close_body res w)
              else (content, H.close_body res w)
        ]

        read : Action K.World Bytes
        read w = read_body res.body w

        go :
            (body : Option (Result Bytes)) (w : K.World) (content : Result Bytes)
            → body ≡ some content
            → IsCalm C content
            → I w
            → Ends I C (λ _. I) (read_body body w)
        go none w content e h p = cc
        go (some c) w content e h p =
            (Runs-if_at {Pre = I} {Q = λ _. I} outside (λ w. (err unexpected, H.close_body res w))
                (λ w. (c, H.close_body res w)) (λ _. record { at = λ w p. G'.close_body res w p })
                (λ _. record {
                  at = λ w p.
                      content-Ends c (H.close_body res w)
                        (subst (IsCalm C) (sym (some-injective c content e)) h)
                        (G'.close_body res w p);
                })).at
              w p

    pub fetch_url-Guards : (d : SwaggerDefinition) (url : String) → Guards I C (fetch_url K H d url)
    unfolding fetch_url
    fetch_url-Guards d url =
        Runs-bind {Q = λ _. I} (wrapping _ (lift (new_request H.parse_error url))) _
          (Runs-wrapping _ (lift (new_request H.parse_error url))
            (Runs-lift _ (new_request-IsCalm C H.parse_error url) (λ w p. p) (λ a w _ p. p)))
          (λ r.
            Runs-bind {Q = λ _. I} (authenticate_request K d r) _ (authenticate_request-Guards d r)
              (λ r'.
                Runs-bind {Q = λ res w. I w × HasBody C res} (wrapping _ (H.do_request r')) _
                  (Runs-wrapping _ (H.do_request r') (G'.do_request r')) read_response-Runs))
