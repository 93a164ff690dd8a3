-- ===== src/Api/Routes.antt =====
-- internal/api/api.go: who gets to a handler.
use archive_relay.Prelude.{
  ℕ, ◌≡◌, ◌⊎◌, ◌↔◌, inl, inr, refl, sym, ◌∙◌, Bool, true, false, Option, none, some, Bytes,
  if◌then◌else◌,
}
use archive_relay.Policy.Access.{Access, is_allowed}
use archive_relay.Policy.Limiter.{Limiter, allow}
use archive_relay.HttpAuth.{
  Web, Request, Response, served, too_many_requests, http_auth, limited, http_when, client_ip,
}
use archive_relay.HttpAuth.Signed.{Signed, http_auth-Signed}
use archive_relay.Api.{authed, limited_by, register}

module _ (web : Web) (service_host : Bytes) (now clock : ℕ) (r : Request) where
  -- What the limiter says, and the state that it is left in.
  abbrev pub asked : Option ℕ → Limiter → Bool × Limiter
  asked none l = (true, l)
  asked (some per_minute) l = allow per_minute clock (client_ip web r) l

  -- The route is public, or there is no access list, or it is off, or the request is signed for it by
  -- an allowed key.
  abbrev pub Admitted : Bool → Option Access → Type 0
  Admitted public none = Unit
  Admitted public (some a) =
      (public ≡ true)
      ⊎ ((a.enabled ≡ false)
          ⊎ ((pk : Bytes) × Signed web service_host now r pk × (is_allowed a pk ≡ true)))

  authed-Admitted :
      (public : Bool) (access : Option Access)
      → (authed web service_host now clock public access r ≡ served) ↔ Admitted public access
  authed-Admitted public none = (λ h. tt, λ h. refl)
  authed-Admitted true (some a) = (λ h. inl refl, λ h. refl)
  authed-Admitted false (some a) = (forward, back)
    where
      forward : http_auth web service_host now a r ≡ served → Admitted false (some a)
      forward h = inr ((http_auth-Signed web service_host now r a).0 h)

      back : Admitted false (some a) → http_auth web service_host now a r ≡ served
      back (inl h) = cc
      back (inr h) = (http_auth-Signed web service_host now r a).1 h

  limited_by_lem :
      (per_minute : Option ℕ) (behind : Response) (l : Limiter)
      → let x = limited_by web service_host now clock per_minute r behind l in
        (x.0 ≡ (if (asked per_minute l).0 then behind else too_many_requests))
        × (x.1 ≡ (asked per_minute l).1)
  unfolding http_when
  limited_by_lem none behind l = (refl, refl)
  limited_by_lem (some n) behind l = by_answer (allow n clock (client_ip web r) l)
    where
      by_answer :
          (x : Bool × Limiter)
          → ((limited x behind).0 ≡ (if x.0 then behind else too_many_requests))
            × ((limited x behind).1 ≡ x.1)
      by_answer (true, l') = (refl, refl)
      by_answer (false, l') = (refl, refl)

  -- A request gets to the handler of a route exactly if the limiter lets it pass and the route admits
  -- it: the route is public, or there is no access list, or that is off, or the request is signed for
  -- it by an allowed key. One that the limiter stops is refused for its rate, whatever it carries, and
  -- the limiter counts the request alike in either case.
  pub register-Admitted :
      (access : Option Access) (per_minute : Option ℕ) (public : Bool) (l : Limiter)
      → let x = register web service_host now clock access per_minute public r l in
        ((x.0 ≡ served) ↔ (((asked per_minute l).0 ≡ true) × Admitted public access))
        × (((asked per_minute l).0 ≡ true) ⊎ (x.0 ≡ too_many_requests))
        × (x.1 ≡ (asked per_minute l).1)
  unfolding register
  register-Admitted access per_minute public l =
      let behind = authed web service_host now clock public access r in
      let w = limited_by_lem per_minute behind l in
      let (p, q) =
        by_limiter (asked per_minute l).0
          (limited_by web service_host now clock per_minute r behind l).0 w.0 in
      (p, q, w.1)
    where
      by_limiter :
          (passed : Bool) (x : Response)
          → x ≡ (
              if passed
              then authed web service_host now clock public access r
              else too_many_requests)
          → ((x ≡ served) ↔ ((passed ≡ true) × Admitted public access))
            × ((passed ≡ true) ⊎ (x ≡ too_many_requests))
      by_limiter true x e =
          let a = authed-Admitted public access in
          ((λ h. (refl, a.0 (sym e ∙ h)), λ h. e ∙ a.1 h.1), inl refl)
      by_limiter false x e = ((λ h. cc, λ h. cc), inr e)
