-- ===== src/Api/Webhooks.antt =====
-- The webhook handlers of src/api/handlers.rs and the admin guard of src/api/router.rs: what is
-- checked of a request before the service sees it.
use solana_compliance_relaye.Prelude.{
  ℕ, ◌-◌, Bool, true, false, ◌&&◌, ◌||◌, not, Option, none, some, String, List, [], ◌∷◌, str_eq,
  is_some, if◌then◌else◌, ltb, leb, ◌==◌, strip_prefix, ◌+◌,
}
use Prim.Native.Char.{code}
use solana_compliance_relaye.Domain.Transfer.{HeliusTransaction, QuickNodeWebhookEvent}
use solana_compliance_relaye.Domain.Error.{AppError}
use solana_compliance_relaye.Runtime.{Env, Action, Result, ok, err, pure, raise, lift, ◌>>=◌, ◌>>◌}
use solana_compliance_relaye.Service.Webhook.{process_helius_webhook, process_quicknode_webhook}
use solana_compliance_relaye.Api.Payload.{Json, and_then, parse_quicknode_payload}

-- `headers.get(name).and_then(|v| v.to_str().ok())`
abbrev pub Headers : Type 0
Headers = String → Option String

-- What the handlers read of `AppState` besides the service.
pub record AppState : Type 0 where
  pub helius_webhook_secret : Option String
  pub quicknode_webhook_secret : Option String
  pub admin_api_key : Option String
  -- the maximal age of a profile that the risk service uses, if there is a risk service
  pub risk_service : Option ℕ

-- Whether a header that may be missing is this text.
abbrev pub is_text : String → Option String → Bool
is_text expected none = false
is_text expected (some value) = str_eq value expected

-- The bytes of a character in UTF-8.
abbrev pub utf8_width : ℕ → ℕ
utf8_width c = if ltb c 0x80 then 1 else if ltb c 0x800 then 2 else if ltb c 0x10000 then 3 else 4

-- `str::len` and `str::is_char_boundary`.
unfoldable pub byte_len : String → ℕ
byte_len String.[] = 0
byte_len (String.◌∷◌ c s) = utf8_width (code c) + byte_len s

unfoldable pub is_char_boundary : ℕ → String → Bool
is_char_boundary n String.[] = n == 0
is_char_boundary n (String.◌∷◌ c s) =
    let rest = is_char_boundary (n - utf8_width (code c)) s in
    if n == 0 then true else leb (utf8_width (code c)) n && rest

-- `&payload_str[..2000]` of a longer text panics inside a character.
unfoldable pub truncation_panics : String → Bool
unfolding byte_len is_char_boundary
truncation_panics text = ltb 2000 (byte_len text) && not (is_char_boundary 2000 text)

unfoldable pub helius_auth : Option String → Option String → Result (Unit {0})
helius_auth none header = ok tt
helius_auth (some expected) none = err (AppError.authentication "Missing Authorization header")
helius_auth (some expected) (some value) =
    if str_eq value expected then ok tt else err (AppError.authentication "Invalid webhook secret")

unfoldable pub quicknode_auth : Option String → Option String → Option String → Result (Unit {0})
quicknode_auth none qn_signature header = ok tt
quicknode_auth (some expected) qn_signature header =
    if is_text expected qn_signature || is_text expected header
    then ok tt
    else if is_some qn_signature || is_some header
    then err (AppError.authentication "Invalid QuickNode webhook secret")
    else err (AppError.authentication "Missing QuickNode webhook secret")

-- `admin_credentials_valid`
unfoldable pub admin_credentials_valid : Headers → String → Bool
admin_credentials_valid headers expected_key =
    is_text expected_key (and_then (headers "Authorization") (λ v. strip_prefix v "Bearer "))
    || is_text expected_key (headers "X-Admin-Api-Key")

unfoldable pub admin_key_holds : Option String → Headers → Bool
unfolding admin_credentials_valid
admin_key_holds none headers = true
admin_key_holds (some key) headers = admin_credentials_valid headers key

module _ (env : Env) (state : AppState) where
  -- `admin_auth_middleware` around a handler.
  unfoldable pub admin_auth_middleware : {A : Type 0} → Headers → Action A → Action A
  unfolding admin_key_holds
  admin_auth_middleware headers next =
      if admin_key_holds state.admin_api_key headers
      then next
      else raise (AppError.authentication "Missing or invalid admin credentials")

  unfoldable pub helius_webhook_handler : Headers → List HeliusTransaction → Action (Unit {0})
  unfolding ◌>>=◌
  helius_webhook_handler headers payload =
      lift (helius_auth state.helius_webhook_secret (headers "Authorization"))
      >> (process_helius_webhook env payload >>= λ processed. pure tt)

  unfoldable pub process_events : List QuickNodeWebhookEvent → Action (Unit {0})
  unfolding ◌>>=◌
  process_events [] = pure tt
  process_events (e ∷ es) = process_quicknode_webhook env (e ∷ es) >>= λ processed. pure tt

  unfoldable pub authorised_events : Headers → List QuickNodeWebhookEvent → Action (Unit {0})
  unfolding ◌>>=◌ process_events
  authorised_events headers events =
      lift (
        quicknode_auth state.quicknode_webhook_secret (headers "x-qn-signature")
          (headers "Authorization"))
      >> process_events events

  -- `none` when the handler panics: the text of the payload is cut before anything is checked.
  unfoldable pub quicknode_webhook_handler :
      (json : Json) → Headers → json.Value → Option (Action (Unit {0}))
  unfolding truncation_panics authorised_events
  quicknode_webhook_handler json headers payload =
      if truncation_panics (json.to_text payload)
      then none
      else some (authorised_events headers (parse_quicknode_payload json payload))
