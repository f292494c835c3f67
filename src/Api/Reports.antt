-- ===== src/Api/Reports.antt =====
-- What one event that src/api/handlers.rs reads from a QuickNode payload says, and of which object.
use solana_compliance_relaye.Prelude.{
  ◌≡◌, refl, ◌⊎◌, inl, inr, Bool, true, false, Option, none, some, String, List, [], ◌∷◌, ◌++◌, All,
  All-append, IsIn, if◌then◌else◌, arith,
}
use solana_compliance_relaye.Domain.Transfer.{QuickNodeWebhookEvent}
use solana_compliance_relaye.Service.Webhook.{is_success, error_message, error_of}
use solana_compliance_relaye.Api.Payload.{
  Json, and_then, unless_null, create_event, event_if, signature_of, first_of_signatures,
  nested_signature, first,
}

-- An optional step that gives something was taken from something.
pub and_then-some :
    {A B : Type 0} (o : Option A) (f : A → Option B) (b : B)
    → and_then o f ≡ some b
    → (a : A) × (o ≡ some a) × (f a ≡ some b)
and_then-some none f b e = absurd (ground arith)
and_then-some (some a) f b e = (a, refl, e)

module _ (json : Json) where
  -- An object of a payload: the payload itself, a member of the array that it is, what such a member
  -- wraps as its data, or a member of an array in one of its fields.
  pub data IsObjectOf (payload : json.Value) : json.Value → Type 0 where
    whole : IsObjectOf payload payload
    member :
        (vs : List json.Value) (o : json.Value)
        → json.as_array payload ≡ some vs
        → IsIn o vs
        → IsObjectOf payload o
    wrapped :
        (vs : List json.Value) (item o : json.Value)
        → json.as_array payload ≡ some vs
        → IsIn item vs
        → json.get "data" item ≡ some o
        → IsObjectOf payload o
    listed :
        (key : String) (a : json.Value) (vs : List json.Value) (o : json.Value)
        → json.get key payload ≡ some a
        → json.as_array a ≡ some vs
        → IsIn o vs
        → IsObjectOf payload o

  -- The first of an object's signatures.
  abbrev pub IsFirstSignature : json.Value → String → Type 0
  IsFirstSignature o s =
      (a : json.Value) × (json.get "signatures" o ≡ some a)
      × ((x : json.Value) × (xs : List json.Value) × (json.as_array a ≡ some (x ∷ xs))
          × (json.as_str x ≡ some s))

  -- A signature that an object gives: its own, or the first of those of its transaction or of its own.
  abbrev pub IsSignatureOf : json.Value → String → Type 0
  IsSignatureOf o s =
      ((v : json.Value) × (json.get "signature" o ≡ some v) × (json.as_str v ≡ some s))
      ⊎ (((t : json.Value) × (json.get "transaction" o ≡ some t) × IsFirstSignature t s)
          ⊎ IsFirstSignature o s)

  -- The text of an error field that is neither missing nor null.
  abbrev pub error_text : Option json.Value → Option String
  error_text none = none
  error_text (some v) = if json.is_null v then none else some (json.to_text v)

  abbrev pub is_clean : Option json.Value → Bool
  is_clean none = true
  is_clean (some v) = json.is_null v

  -- An event that reports on an object of the payload, by the object's own error.
  abbrev pub IsEventOf : json.Value → QuickNodeWebhookEvent → Type 0
  IsEventOf payload e =
      (o : json.Value) × IsObjectOf payload o
      × IsSignatureOf o e.signature
      × (is_success e ≡ is_clean (json.get "err" o))
      × (error_message e ≡ error_text (json.get "err" o))

  pub record EachIsEventOf (payload : json.Value) (es : List QuickNodeWebhookEvent) : Type 0 where
    pub each : All (IsEventOf payload) es

  pub first_of_signatures_lem :
      (o : json.Value) (s : String) → first_of_signatures json o ≡ some s → IsFirstSignature o s
  unfolding first_of_signatures
  first_of_signatures_lem o s e =
      let (sigs, k, f) = and_then-some (and_then (json.get "signatures" o) json.as_array) _ s e in
      let (a, g, h) = and_then-some (json.get "signatures" o) json.as_array sigs k in
      (a, g, by_list sigs h f)
    where
      by_list :
          {a : json.Value} (sigs : List json.Value)
          → json.as_array a ≡ some sigs
          → and_then (first sigs) json.as_str ≡ some s
          → (x : json.Value) × (xs : List json.Value) × (json.as_array a ≡ some (x ∷ xs))
            × (json.as_str x ≡ some s)
      by_list [] h f = absurd (ground arith)
      by_list (x ∷ xs) h f = (x, xs, h, f)

  pub signature_of_lem :
      (o : json.Value) (s : String) → signature_of json o ≡ some s → IsSignatureOf o s
  unfolding signature_of
  signature_of_lem o s e = inl (and_then-some (json.get "signature" o) json.as_str s e)

  pub nested_signature_lem :
      (o : json.Value) (s : String) → nested_signature json o ≡ some s → IsSignatureOf o s
  unfolding nested_signature
  nested_signature_lem o s e =
      let (t, g, f) = and_then-some (json.get "transaction" o) (first_of_signatures json) s e in
      inr (inl (t, g, first_of_signatures_lem t s f))

  pub own_signatures_lem :
      (o : json.Value) (s : String) → first_of_signatures json o ≡ some s → IsSignatureOf o s
  own_signatures_lem o s e = inr (inr (first_of_signatures_lem o s e))

  module _ (payload : json.Value) where
    pub nothing : EachIsEventOf payload []
    nothing = record { each = tt }

    pub both :
        (es fs : List QuickNodeWebhookEvent)
        → EachIsEventOf payload es
        → EachIsEventOf payload fs
        → EachIsEventOf payload (es ++ fs)
    both es fs h k = record { each = All-append (IsEventOf payload) es fs h.each k.each }

    create_event-IsEventOf :
        (sig : String) (o : json.Value)
        → IsObjectOf payload o
        → IsSignatureOf o sig
        → IsEventOf payload (create_event json sig o)
    unfolding create_event is_success error_message error_of
    create_event-IsEventOf sig o p q = let (c, t) = by_error (json.get "err" o) in (o, p, q, c, t)
      where
        reported : Option json.Value → QuickNodeWebhookEvent
        reported err = record (create_event json sig o) {
          err = and_then err (λ v. unless_null json (json.is_null v) v);
        }

        by_null :
            (v : json.Value) (b : Bool)
            → (is_success (record (create_event json sig o) { err = unless_null json b v }) ≡ b)
              × (error_message (record (create_event json sig o) { err = unless_null json b v })
                  ≡ (if b then none else some (json.to_text v)))
        by_null v true = (refl, refl)
        by_null v false = (refl, refl)

        by_error :
            (err : Option json.Value)
            → (is_success (reported err) ≡ is_clean err)
              × (error_message (reported err) ≡ error_text err)
        by_error none = (refl, refl)
        by_error (some v) = by_null v (json.is_null v)

    pub event_if-IsEventOf :
        (sig : Option String) (o : json.Value) (es : List QuickNodeWebhookEvent)
        → IsObjectOf payload o
        → ((s : String) → sig ≡ some s → IsSignatureOf o s)
        → EachIsEventOf payload es
        → EachIsEventOf payload (event_if json sig o es)
    unfolding event_if
    event_if-IsEventOf none o es p q h = h
    event_if-IsEventOf (some s) o es p q h = record {
      each = (create_event-IsEventOf s o p (q s refl), tt);
    }
