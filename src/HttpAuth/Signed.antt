-- ===== src/HttpAuth/Signed.antt =====
-- internal/policy/auth.go: which requests get through HTTPAuth.
use archive_relay.Prelude.{
  ℕ, ◌+◌, ◌≤◌, ◌≡◌, ◌⊎◌, ◌↔◌, inl, inr, refl, sym, ap, subst, ◌∙◌, [], ◌∷◌, ◌++◌, contains, Bool,
  true, false, not, Option, none, some, Bytes, bytes, bytes_eq_iff, eq_bytes, nat_eq, nat_eq_iff,
  ◌==◌, if-cases, Bool-cases, arith,
}
use mathlib.Core.Option.{some-injective}
use archive_relay.Nostr.{Event}
use archive_relay.Policy.Access.{Access, is_allowed}
use archive_relay.HttpAuth.{
  Request, Url, Web, AuthError, Checked, ok, refused, no_scheme, bad_base64, bad_json, wrong_kind,
  no_u_tag, wrong_path, wrong_host, wrong_method, stale, bad_signature, ◌>>=◌, ◌>>◌, guard, found,
  http_auth_window, kind_http_auth, cut_prefix, is_fresh, host_fits, method_fits, http_auth_pubkey,
  Response, served, admit, http_auth,
}

module _ {ℓ κ} {A : Type ℓ} {B : Type κ} where
  found-ok :
      (o : Option A) (e : AuthError) (f : A → Checked B) (b : B)
      → (found o e >>= f) ≡ ok b
      → (a : A) × (o ≡ some a) × (f a ≡ ok b)
  found-ok none e f b h = cc
  found-ok (some a) e f b h = (a, refl, h)

guard-ok {κ} :
    {B : Type κ} (t : Bool) (e : AuthError) (m : Checked B) (b : B)
    → (guard t e >> m) ≡ ok b
    → (t ≡ true) × (m ≡ ok b)
guard-ok true e m b h = (refl, h)
guard-ok false e m b h = cc

cut_prefix-append : (p s : Bytes) → cut_prefix p (p ++ s) ≡ some s
unfolding cut_prefix
cut_prefix-append [] s = refl
cut_prefix-append (x ∷ p) s = ground (arith, cut_prefix-append p s)

append-cut_prefix : (p s rest : Bytes) → cut_prefix p s ≡ some rest → s ≡ p ++ rest
unfolding cut_prefix
append-cut_prefix [] s rest h = some-injective s rest h
append-cut_prefix (x ∷ p) [] rest h = cc
append-cut_prefix (x ∷ p) (y ∷ s) rest h =
    ground (arith, append-cut_prefix p s rest, nat_eq_iff x y)

module _ (web : Web) (service_host : Bytes) (now : ℕ) (r : Request) where
  abbrev pub Host : Url → Type 0
  Host target =
      (target.hostname ≡ [])
      ⊎ ((service_host ≡ []) ⊎ (web.equal_fold target.hostname service_host ≡ true))

  host_fits_iff : (target : Url) → (host_fits web service_host now target ≡ true) ↔ Host target
  host_fits_iff target = (
    λ h. elim (Bool-cases (target.hostname == [])) [
      | inl e ↦ inl ((bytes_eq_iff target.hostname []).0 e)
      | inr n ↦ elim (Bool-cases (service_host == [])) [
        | inl e ↦ inr (inl ((bytes_eq_iff service_host []).0 e))
        | inr m ↦ inr (inr (ground (arith, h, n, m)))
      ]
    ],
    λ k. elim k [
      | inl e ↦ ground (arith, (bytes_eq_iff target.hostname []).1 e)
      | inr k' ↦ elim k' [
        | inl e ↦ ground (arith, (bytes_eq_iff service_host []).1 e)
        | inr e ↦ ground (arith, e)
      ]
    ],
  )

  method_fits_iff :
      (o : Option Bytes)
      → (method_fits web service_host now o r.method ≡ true)
        ↔ ((o ≡ none) ⊎ ((m : Bytes) × (o ≡ some m) × (web.equal_fold m r.method ≡ true)))
  method_fits_iff none = (λ _. inl refl, λ _. refl)
  method_fits_iff (some m) = (
    λ h. inr (m, refl, h),
    λ k. elim k [
      | inl e ↦ absurd (cc e)
      | inr (n, e, h) ↦
          subst (λ (x : Bytes). web.equal_fold x r.method ≡ true) (sym (some-injective m n e)) h
    ],
  )

  -- The request carries a signed event of this key, made for this relay, path and method, at most a
  -- minute from now.
  pub record Signed (pk : Bytes) : Type 0 where
    pub event : Event
    pub target : Url
    pub carried :
        (b64 : Bytes) × (raw : Bytes) × (r.authorization ≡ bytes "Nostr " ++ b64)
        × (web.decode_base64 (web.trim_space b64) ≡ some raw)
        × (web.unmarshal raw ≡ some event)
    pub kind : event.kind ≡ kind_http_auth
    pub aimed :
        (u : Bytes) × (web.find (bytes "u") event.tags ≡ some u) × (web.parse_url u ≡ some target)
    pub path : target.path ≡ r.path
    pub host : Host target
    pub method :
        (web.find (bytes "method") event.tags ≡ none)
        ⊎ ((m : Bytes) × (web.find (bytes "method") event.tags ≡ some m)
            × (web.equal_fold m r.method ≡ true))
    pub fresh :
        (event.created_at ≤ now + http_auth_window) × (now ≤ event.created_at + http_auth_window)
    pub signed : web.check_signature event ≡ true
    pub key : event.pubkey ≡ pk

  http_auth_pubkey-Signed :
      (pk : Bytes) → http_auth_pubkey web service_host now r ≡ ok pk → Signed pk
  unfolding http_auth_pubkey
  http_auth_pubkey-Signed pk h0 =
      let (b64, e1, h1) =
        found-ok (cut_prefix (bytes "Nostr ") r.authorization) no_scheme _ pk h0 in
      let (raw, e2, h2) = found-ok (web.decode_base64 (web.trim_space b64)) bad_base64 _ pk h1 in
      let (evt, e3, h3) = found-ok (web.unmarshal raw) bad_json _ pk h2 in
      let (e4, h4) = guard-ok (nat_eq evt.kind kind_http_auth) wrong_kind _ pk h3 in
      let (u, e5, h5) = found-ok (web.find (bytes "u") evt.tags) no_u_tag _ pk h4 in
      let (parsed, e6, h6) = found-ok (web.parse_url u) wrong_path _ pk h5 in
      let (e7, h7) = guard-ok (parsed.path == r.path) wrong_path _ pk h6 in
      let (e8, h8) = guard-ok (host_fits web service_host now parsed) wrong_host _ pk h7 in
      let (e9, h9) =
        guard-ok (method_fits web service_host now (web.find (bytes "method") evt.tags) r.method)
          wrong_method _ pk h8 in
      let (e10, h10) = guard-ok (is_fresh now evt) stale _ pk h9 in
      let (e11, h11) = guard-ok (web.check_signature evt) bad_signature _ pk h10 in
      record {
        event = evt;
        target = parsed;
        carried = (b64, raw, append-cut_prefix (bytes "Nostr ") r.authorization b64 e1, e2, e3);
        kind = (nat_eq_iff evt.kind kind_http_auth).0 e4;
        aimed = (u, e5, e6);
        path = (bytes_eq_iff parsed.path r.path).0 e7;
        host = (host_fits_iff parsed).0 e8;
        method = (method_fits_iff (web.find (bytes "method") evt.tags)).0 e9;
        fresh = ground arith;
        signed = e11;
        key = cc;
      }

  Signed-http_auth_pubkey :
      (pk : Bytes) → Signed pk → http_auth_pubkey web service_host now r ≡ ok pk
  unfolding http_auth_pubkey
  Signed-http_auth_pubkey pk s =
      let (b64, raw, e1, e2, e3) = s.carried in
      let (u, e5, e6) = s.aimed in
      let starts : cut_prefix (bytes "Nostr ") r.authorization ≡ some b64 =
        ap (cut_prefix (bytes "Nostr ")) e1 ∙ cut_prefix-append (bytes "Nostr ") b64 in
      let fresh : is_fresh now s.event ≡ true = ground (arith, s.fresh) in
      rw
        (
          starts,
          e2,
          e3,
          (nat_eq_iff s.event.kind kind_http_auth).1 s.kind,
          e5,
          e6,
          (bytes_eq_iff s.target.path r.path).1 s.path,
          (host_fits_iff s.target).1 s.host,
          (method_fits_iff (web.find (bytes "method") s.event.tags)).1 s.method,
          fresh,
          s.signed,
        )
        (ap ok s.key)

  -- HTTPAuth calls the handler behind it exactly if the access is off or the request carries an event
  -- that is signed for it and whose key is on the allow-list.
  pub http_auth-Signed :
      (a : Access)
      → (http_auth web service_host now a r ≡ served)
        ↔ ((a.enabled ≡ false) ⊎ ((pk : Bytes) × Signed pk × (contains pk a.allowed ≡ true)))
  unfolding http_auth
  http_auth-Signed a = (lets_in, lets_in_signed)
    where
      by_result :
          (c : Checked Bytes)
          → http_auth_pubkey web service_host now r ≡ c
          → admit a c ≡ served
          → (pk : Bytes) × Signed pk × (contains pk a.allowed ≡ true)
      by_result (refused e) h k = cc
      by_result (ok pk) h k = (pk, http_auth_pubkey-Signed pk h, allowed (is_allowed a pk) refl k)
        where
          allowed :
              (b : Bool) → is_allowed a pk ≡ b → admit a (ok pk) ≡ served → is_allowed a pk ≡ true
          allowed true e k = e
          allowed false e k = ground arith

      lets_in :
          http_auth web service_host now a r ≡ served
          → (a.enabled ≡ false) ⊎ ((pk : Bytes) × Signed pk × (contains pk a.allowed ≡ true))
      lets_in h = elim (Bool-cases a.enabled) [
        | inl on ↦ inr (by_result (http_auth_pubkey web service_host now r) refl (rw on at h))
        | inr off ↦ inl off
      ]

      lets_in_signed :
          (a.enabled ≡ false) ⊎ ((pk : Bytes) × Signed pk × (contains pk a.allowed ≡ true))
          → http_auth web service_host now a r ≡ served
      lets_in_signed (inl off) = rw off refl
      lets_in_signed (inr (pk, s, on_list)) =
          if-cases (λ (x : Response). x ≡ served) (not a.enabled) (λ _. refl)
            (λ _. ap (admit a) (Signed-http_auth_pubkey pk s) ∙ rw on_list refl)
