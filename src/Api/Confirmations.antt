-- ===== src/Api/Confirmations.antt =====
-- What the webhooks of src/api/handlers.rs make of a QuickNode payload.
use solana_compliance_relaye.Prelude.{Option, none, some, String, List, All, IsIn, map}
use solana_compliance_relaye.Domain.Transfer.{QuickNodeWebhookEvent}
use solana_compliance_relaye.Api.Payload.{Json, and_then}

-- The events carry this signature, if there is one.
abbrev pub Carries : Option String → List QuickNodeWebhookEvent → Type 0
Carries none es = Unit
Carries (some s) es = IsIn s (map (λ e. e.signature) es)

module _ (json : Json) where
  -- The events carry the own signature of each member of an array, where the payload is one.
  abbrev pub HasSignaturesOf : Option (List json.Value) → List QuickNodeWebhookEvent → Type 0
  HasSignaturesOf none es = Unit
  HasSignaturesOf (some vs) es =
      All (λ o. Carries (and_then (json.get "signature" o) json.as_str) es) vs
