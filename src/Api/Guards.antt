-- ===== src/Api/Guards.antt =====
-- What the guards of src/api/handlers.rs and src/api/router.rs let through.
use solana_compliance_relaye.Prelude.{
  ◌≡◌, ◌≢◌, refl, inl, inr, Bool, true, false, ◌||◌, Option, none, some, String, str_eq, eq_iff,
  is_some, if◌then◌else◌, Bool-cases, ap, strip_prefix,
}
use solana_compliance_relaye.Domain.Error.{AppError}
use solana_compliance_relaye.Runtime.{
  Env, World, Action, Result, ok, err, raise, lift, ◌>>=◌, ◌>>◌, continue,
}
use solana_compliance_relaye.Runtime.Fails.{IsErr}
use solana_compliance_relaye.Api.Payload.{Json, and_then, parse_quicknode_payload}
use solana_compliance_relaye.Api.Requests.{Arrival, serve, after}
use solana_compliance_relaye.Api.Webhooks.{
  Headers, AppState, is_text, helius_auth, quicknode_auth, admin_credentials_valid, admin_key_holds,
  admin_auth_middleware, helius_webhook_handler, quicknode_webhook_handler, authorised_events,
  truncation_panics,
}

-- A header that is not the expected text.
abbrev pub IsOther : String → Option String → Type 0
IsOther expected header = header ≢ some expected

-- An arrival at a guarded route, while the guard's secret is configured and the arrival does not
-- carry it.
abbrev pub IsUnauthorised : AppState → (json : Json) → Arrival json → Type 0
IsUnauthorised state json (Arrival.post_helius headers payload) =
    (s : String) × (state.helius_webhook_secret ≡ some s) × IsOther s (headers "Authorization")
IsUnauthorised state json (Arrival.post_quicknode headers payload) =
    (s : String) × (state.quicknode_webhook_secret ≡ some s)
    × IsOther s (headers "x-qn-signature")
    × IsOther s (headers "Authorization")
IsUnauthorised state json (Arrival.post_blocklist headers address reason) =
    (s : String) × (state.admin_api_key ≡ some s)
    × IsOther s (and_then (headers "Authorization") (λ v. strip_prefix v "Bearer "))
    × IsOther s (headers "X-Admin-Api-Key")
IsUnauthorised state json (Arrival.delete_blocklist headers address) =
    (s : String) × (state.admin_api_key ≡ some s)
    × IsOther s (and_then (headers "Authorization") (λ v. strip_prefix v "Bearer "))
    × IsOther s (headers "X-Admin-Api-Key")
IsUnauthorised state json _ = ⊥

str_eq-IsOther : (s v : String) → IsOther s (some v) → str_eq v s ≡ false
str_eq-IsOther s v other = elim (Bool-cases (str_eq v s)) [
  | inl e ↦ absurd (other (ap (λ t. some t) ((eq_iff v s).0 e)))
  | inr e ↦ e
]

is_text-IsOther :
    (s : String) (header : Option String) → IsOther s header → is_text s header ≡ false
is_text-IsOther s none other = refl
is_text-IsOther s (some v) other = str_eq-IsOther s v other

-- A chain whose first check fails changes nothing.
lift_stops :
    {A : Type 0} (r : Result (Unit {0})) (m : Action A) (w : World)
    → IsErr r
    → ((lift r >> m) w).1 ≡ w
unfolding lift ◌>>=◌ continue
lift_stops (ok tt) m w h = absurd h
lift_stops (err e) m w h = refl

helius_auth-Refuses :
    (o : Option String) (header : Option String)
    → (s : String) × (o ≡ some s) × IsOther s header
    → IsErr (helius_auth o header)
unfolding helius_auth
helius_auth-Refuses o none (s, k, other) = rw k tt
helius_auth-Refuses o (some v) (s, k, other) = rw (k, str_eq-IsOther s v other) tt

quicknode_auth-Refuses :
    (o : Option String) (signature header : Option String)
    → (s : String) × (o ≡ some s) × IsOther s signature × IsOther s header
    → IsErr (quicknode_auth o signature header)
unfolding quicknode_auth
quicknode_auth-Refuses o signature header (s, k, a, b) =
    rw (k, is_text-IsOther s signature a, is_text-IsOther s header b)
      (by_presence (is_some signature || is_some header))
  where
    by_presence :
        (b : Bool)
        → IsErr {A = Unit {0}} (
            if b
            then err (AppError.authentication "Invalid QuickNode webhook secret")
            else err (AppError.authentication "Missing QuickNode webhook secret"))
    by_presence true = tt
    by_presence false = tt

module _ (env : Env) (state : AppState) where
  admin_refuses :
      {A : Type 0} (headers : Headers) (m : Action A) (w : World)
      → (s : String) × (state.admin_api_key ≡ some s)
        × IsOther s (and_then (headers "Authorization") (λ v. strip_prefix v "Bearer "))
        × IsOther s (headers "X-Admin-Api-Key")
      → (admin_auth_middleware env state headers m w).1 ≡ w
  unfolding admin_auth_middleware raise admin_key_holds admin_credentials_valid
  admin_refuses headers m w (s, k, a, b) =
      simp (k, is_text-IsOther s _ a, is_text-IsOther s _ b) refl

  quicknode_refuses :
      (json : Json) (headers : Headers) (payload : json.Value) (w : World)
      → IsErr (
          quicknode_auth state.quicknode_webhook_secret
            (headers "x-qn-signature")
            (headers "Authorization"))
      → serve env state json (Arrival.post_quicknode headers payload) w ≡ w
  unfolding serve after quicknode_webhook_handler authorised_events
  quicknode_refuses json headers payload w h = by_text (truncation_panics (json.to_text payload))
    where
      by_text :
          (b : Bool)
          → after env state json
              (if b
                then none
                else some
                    (authorised_events env state headers (parse_quicknode_payload json payload)))
              w
            ≡ w
      by_text true = refl
      by_text false = lift_stops _ _ w h

  -- A webhook or blocklist request that does not carry the secret configured for its route changes
  -- nothing, not even the count of effects.
  pub unauthorised_changes_nothing :
      (json : Json) (a : Arrival json) (w : World)
      → IsUnauthorised state json a
      → serve env state json a w ≡ w
  unfolding serve helius_webhook_handler
  unauthorised_changes_nothing json (Arrival.post_helius headers payload) w h =
      lift_stops _ _ w (helius_auth-Refuses _ _ h)
  unauthorised_changes_nothing json (Arrival.post_quicknode headers payload) w h =
      quicknode_refuses json headers payload w (quicknode_auth-Refuses _ _ _ h)
  unauthorised_changes_nothing json (Arrival.post_blocklist headers address reason) w h =
      admin_refuses headers _ w h
  unauthorised_changes_nothing json (Arrival.delete_blocklist headers address) w h =
      admin_refuses headers _ w h
  unauthorised_changes_nothing json _ w h = absurd h
