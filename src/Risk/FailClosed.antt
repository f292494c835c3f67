-- ===== src/Risk/FailClosed.antt =====
-- What an approval of the compliance provider in src/infra/compliance/range.rs rests on.
use solana_compliance_relaye.Prelude.{
  ℤ, pos, negsuc, int_leb, inl, inr, Bool, true, false, ◌||◌, ◌⊎◌, some, String, ◌≡◌, refl, arith,
  ap, ◌∙◌, sym, ℕ, Option, ◌≤◌, ◌<◌, if◌then◌else◌,
}
use solana_compliance_relaye.Domain.Status.{ComplianceStatus}
use solana_compliance_relaye.Domain.Error.{ExternalServiceError}
use solana_compliance_relaye.Domain.Transfer.{SubmitTransferRequest}
use solana_compliance_relaye.Runtime.{Result, ok, err, RiskResponse}
use solana_compliance_relaye.Risk.Range.{
  RangeComplianceProvider, RangeOutcome, check_address_risk, text_indicates_risk, evaluate_risk,
  status_of_risk, decide_risk, check_compliance, parse_answer, read_answer, external,
  is_success_status, text_or_empty,
}

int_leb_trans : (a b c : ℤ) → int_leb a b ≡ true → int_leb b c ≡ true → int_leb a c ≡ true
int_leb_trans (pos a) (pos b) (pos c) h k = ground arith
int_leb_trans (pos a) (pos b) (negsuc c) h k = k
int_leb_trans (pos a) (negsuc b) c h k = ground arith
int_leb_trans (negsuc a) b (pos c) h k = refl
int_leb_trans (negsuc a) (pos b) (negsuc c) h k = ground arith
int_leb_trans (negsuc a) (negsuc b) (negsuc c) h k = ground arith

text_indicates_risk_lower :
    (t u : ℤ) (level : String)
    → int_leb u t ≡ true
    → text_indicates_risk t level ≡ true
    → text_indicates_risk u level ≡ true
unfolding text_indicates_risk
text_indicates_risk_lower t u level h e =
    ground (arith, int_leb_trans u t (pos 6) h, int_leb_trans u t (pos 8) h, e)

rejected_inverse : (b : Bool) → status_of_risk b ≡ ComplianceStatus.rejected → b ≡ true
rejected_inverse true e = refl
rejected_inverse false e = absurd (ground arith)

or_mono :
    (a b c d : Bool)
    → (a ≡ true → c ≡ true)
    → (b ≡ true → d ≡ true)
    → (a || b) ≡ true
    → (c || d) ≡ true
or_mono a b c d f g h = ground (arith, f, g, h)

-- A higher score, or a lower threshold, never turns a rejection into an approval.
pub evaluate_risk_monotone :
    (p q : RangeComplianceProvider) (r s : RiskResponse)
    → int_leb q.risk_threshold p.risk_threshold ≡ true
    → int_leb r.risk_score s.risk_score ≡ true
    → s.risk_level ≡ r.risk_level
    → evaluate_risk p r ≡ ComplianceStatus.rejected
    → evaluate_risk q s ≡ ComplianceStatus.rejected
unfolding evaluate_risk
evaluate_risk_monotone p q r s t h level e = ap status_of_risk (
    or_mono (int_leb p.risk_threshold r.risk_score)
      (text_indicates_risk p.risk_threshold r.risk_level) (int_leb q.risk_threshold s.risk_score)
      (text_indicates_risk q.risk_threshold s.risk_level)
      (λ a.
        int_leb_trans q.risk_threshold r.risk_score s.risk_score
          (int_leb_trans q.risk_threshold p.risk_threshold r.risk_score t a) h)
      (λ b.
        ap (text_indicates_risk q.risk_threshold) level
        ∙ text_indicates_risk_lower p.risk_threshold q.risk_threshold r.risk_level t b)
      (rejected_inverse _ e))

-- The API answered with success, and its body was read and parsed as this response.
abbrev pub WasAnswered : RangeOutcome → RiskResponse → Type 0
WasAnswered outcome response =
    (status : ℕ) × (body : String) × (outcome
      ≡ RangeOutcome.answered status (inr body) (inr response))
    × (200 ≤ status)
    × (status < 300)

parsed-WasAnswered :
    (status : ℕ) (body : String ⊎ String) (parsed : String ⊎ RiskResponse) (response : RiskResponse)
    → is_success_status status ≡ true
    → parse_answer body parsed ≡ ok response
    → WasAnswered (RangeOutcome.answered status body parsed) response
unfolding parse_answer external
parsed-WasAnswered status (inl e) parsed response s h = absurd (ground arith)
parsed-WasAnswered status (inr text) (inl e) response s h = absurd (ground arith)
parsed-WasAnswered status (inr text) (inr answer) response s h = (
  status,
  text,
  ap (RangeOutcome.answered status (inr text)) (ap (λ r. inr r) same),
  ground arith,
  ground arith,
)
  where
    same : answer ≡ response
    same = ground arith

read_answer-WasAnswered :
    (outcome : RangeOutcome) (response : RiskResponse)
    → read_answer outcome ≡ ok response
    → WasAnswered outcome response
unfolding read_answer external
read_answer-WasAnswered (RangeOutcome.not_sent e) response h = absurd (ground arith)
read_answer-WasAnswered (RangeOutcome.answered status body parsed) response h =
    by_status (is_success_status status) refl h
  where
    by_status :
        (b : Bool)
        → is_success_status status ≡ b
        → (if b
            then parse_answer body parsed
            else external (ExternalServiceError.api_error status (text_or_empty body)))
          ≡ ok response
        → WasAnswered (RangeOutcome.answered status body parsed) response
    by_status true s h = parsed-WasAnswered status body parsed response s h
    by_status false s h = absurd (ground arith)

check_address_risk-WasAnswered :
    (p : RangeComplianceProvider) (key : String) (outcome : RangeOutcome) (response : RiskResponse)
    → p.api_key ≡ some key
    → check_address_risk p outcome ≡ ok response
    → WasAnswered outcome response
unfolding check_address_risk
check_address_risk-WasAnswered p key outcome response keyed h =
    read_answer-WasAnswered outcome response (
      sym (ap (λ (k : Option String). check_address_risk (record p { api_key = k }) outcome) keyed)
      ∙ h)

-- With a key, the provider approves a request only if the API answered with a success status (200 to
-- 299) and a body that was read and parsed, with a score below the threshold; anything else, a
-- failure of the network or of the API included, is a rejection, and the provider never fails.
pub approval_needs_answer :
    (p : RangeComplianceProvider) (key : String) (request : SubmitTransferRequest)
    (outcome : RangeOutcome)
    → p.api_key ≡ some key
    → (check_compliance p request outcome ≡ ok ComplianceStatus.rejected)
      ⊎ ((response : RiskResponse) × WasAnswered outcome response
          × (int_leb p.risk_threshold response.risk_score ≡ false)
          × (check_compliance p request outcome ≡ ok ComplianceStatus.approved))
unfolding check_compliance decide_risk evaluate_risk
approval_needs_answer p key request outcome keyed = by_answer (check_address_risk p outcome) refl
  where
    with_key :
        check_compliance p request outcome
        ≡ decide_risk p (some key) request (check_address_risk p outcome)
    with_key = ap (λ k. decide_risk p k request (check_address_risk p outcome)) keyed

    answered :
        (response : RiskResponse)
        → check_address_risk p outcome ≡ ok response
        → check_compliance p request outcome ≡ ok (evaluate_risk p response)
    answered response e = with_key ∙ ap (decide_risk p (some key) request) e

    by_score :
        (response : RiskResponse)
        → check_address_risk p outcome ≡ ok response
        → WasAnswered outcome response
        → (b c : Bool) → int_leb p.risk_threshold response.risk_score ≡ b
        → text_indicates_risk p.risk_threshold response.risk_level ≡ c
        → (check_compliance p request outcome ≡ ok ComplianceStatus.rejected)
          ⊎ ((response : RiskResponse) × WasAnswered outcome response
              × (int_leb p.risk_threshold response.risk_score ≡ false)
              × (check_compliance p request outcome ≡ ok ComplianceStatus.approved))
    by_score response e a true c f g = inl (
        answered response e
        ∙ ap
            (λ x.
              ok (status_of_risk (x || text_indicates_risk p.risk_threshold response.risk_level)))
            f)
    by_score response e a false true f g = inl (
        answered response e
        ∙ ap (λ x. ok (status_of_risk x))
            (ap (λ x. x || text_indicates_risk p.risk_threshold response.risk_level) f ∙ g))
    by_score response e a false false f g = inr (
      response,
      a,
      f,
      answered response e
          ∙ ap (λ x. ok (status_of_risk x))
              (ap (λ x. x || text_indicates_risk p.risk_threshold response.risk_level) f ∙ g),
    )

    by_answer :
        (r : Result RiskResponse)
        → check_address_risk p outcome ≡ r
        → (check_compliance p request outcome ≡ ok ComplianceStatus.rejected)
          ⊎ ((response : RiskResponse) × WasAnswered outcome response
              × (int_leb p.risk_threshold response.risk_score ≡ false)
              × (check_compliance p request outcome ≡ ok ComplianceStatus.approved))
    by_answer (err x) e = inl (with_key ∙ ap (decide_risk p (some key) request) e)
    by_answer (ok response) e =
        by_score response e (check_address_risk-WasAnswered p key outcome response keyed e) _ _ refl
          refl
