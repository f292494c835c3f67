-- ===== src/Risk/Screening.antt =====
-- What the wallet check of src/app/risk_service.rs answers and which wallets it lists.
use solana_compliance_relaye.Prelude.{
  ℤ, pos, int_leb, ℕ, suc, ◌≡◌, refl, ap, ◌∙◌, Bool, true, false, none, some, List, String, is_some,
  str_eq_self, inl, inr, Option-cases, ◌&&◌,
}
use solana_compliance_relaye.Domain.Transfer.{WalletRiskProfile}
use solana_compliance_relaye.Runtime.{
  Env, World, Result, ok, err, RiskResponse, Action, continue, bind-ok, pure, gets, ask, attempt,
  ◌>>=◌,
}
use solana_compliance_relaye.Database.Table.{find_where}
use solana_compliance_relaye.Database.Statement.{statement}
use solana_compliance_relaye.Database.Sessions.{
  has_fresh_profile, get_risk_profile, upsert_risk_profile, upsert_rows,
}
use solana_compliance_relaye.Blocklist.{lookup, check_in, check_address, add_address}
use solana_compliance_relaye.Blocklist.Cache.{lookup-insert}
use solana_compliance_relaye.Service.Submit.{is_unlisted}
use solana_compliance_relaye.Risk.{
  RiskCheckResult, analysis, default_risk_threshold, list_address, auto_block_risky,
  query_providers, from_cache_or_query, unless_listed, check_wallet_risk, profile_of, score_in,
}

-- When the database answers and holds a profile of a wallet that is fresh enough, a check asks no
-- provider: a listed wallet is reported with its reason, without a look at the database, and any
-- other wallet from its profile.
pub check_wallet_risk_order :
    (env : Env) (ttl : ℕ) (address : String) (p : WalletRiskProfile) (w : World)
    → env.fault w.tick ≡ none
    → find_where (has_fresh_profile address ttl (env.clock w.tick)) w.profiles ≡ some p
    → check_wallet_risk env ttl address w ≡ elim (check_address address w) [
      | some reason ↦ (ok (RiskCheckResult.blocked address reason), w)
      | none ↦ (
        ok (RiskCheckResult.analyzed (analysis p true p.updated_at)),
        record w { tick = suc w.tick },
      )
    ]
unfolding check_wallet_risk unless_listed gets pure ◌>>=◌ get_risk_profile statement
    from_cache_or_query
check_wallet_risk_order env ttl address p w up fresh =
    elim (Option-cases (check_address address w)) [
      | inl e ↦ rw (e, up, fresh) refl
      | inr (reason, e) ↦ rw e refl
    ]

list_address_lists :
    (env : Env) (ttl : ℕ) (up : (n : ℕ) → env.fault n ≡ none) (b : Bool) (a reason : String)
    (w : World) {store : List (String × String)}
    → w.blocklist ≡ some store
    → lookup a store ≡ none
    → is_some (check_address a (list_address env ttl b a reason w).1) ≡ b
unfolding list_address add_address statement attempt pure ◌>>=◌ check_address check_in
list_address_lists env ttl up false a reason w {store} cached unlisted = rw (cached, unlisted) refl
list_address_lists env ttl up true a reason w {store} cached unlisted =
    rw (up w.tick, cached, lookup-insert a a reason store, str_eq_self a) refl

auto_block_lists :
    (env : Env) (ttl : ℕ) (up : (n : ℕ) → env.fault n ≡ none) (p : WalletRiskProfile) (score : ℤ)
    (w : World) {store : List (String × String)}
    → w.blocklist ≡ some store
    → lookup p.address store ≡ none
    → is_some (check_address p.address (auto_block_risky env ttl p (some score) w).1)
      ≡ int_leb default_risk_threshold score
unfolding auto_block_risky gets ◌>>=◌ check_in
auto_block_lists env ttl up p score w {store} cached unlisted =
    list_address_lists env ttl up _ p.address _ w cached unlisted
    ∙ ap (λ b. int_leb default_risk_threshold score && b) open_address
    ∙ and_true (int_leb default_risk_threshold score)
  where
    open_address : is_unlisted w.blocklist p.address ≡ true
    open_address =
        ap (λ o. is_unlisted o p.address) cached
        ∙ ap (λ o. elim o [ none ↦ true | some _ ↦ false ]) unlisted

    and_true : (b : Bool) → (b && true) ≡ b
    and_true true = refl
    and_true false = refl

-- A last step that only returns leaves the world as it is.
world-pure :
    (m : Action (Unit {0})) (x : RiskCheckResult) (w : World) → ((m >>= λ _. pure x) w).1 ≡ (m w).1
unfolding ◌>>=◌ pure continue
world-pure m x w = by_result (m w).0
  where
    by_result : (r : Result (Unit {0})) → (continue r (λ _. pure x) (m w).1).1 ≡ (m w).1
    by_result (ok _) = refl
    by_result (err _) = refl

query_providers_lists :
    (env : Env) (ttl : ℕ) (up : (n : ℕ) → env.fault n ≡ none) (a : String) (answer : RiskResponse)
    (w : World) {store : List (String × String)}
    → w.blocklist ≡ some store
    → lookup a store ≡ none
    → env.check_address_risk w.tick a ≡ ok answer
    → is_some (check_address a (query_providers env ttl a w).1)
      ≡ int_leb default_risk_threshold answer.risk_score
unfolding query_providers profile_of upsert_risk_profile statement attempt ask ◌>>=◌
query_providers_lists env ttl up a answer w cached unlisted answered =
    ap (λ v. is_some (check_address a v))
      (ap (λ x. x.1) chain
        ∙ world-pure (auto_block_risky env ttl p p.risk_score)
            (RiskCheckResult.analyzed (analysis p false (env.clock (suc (suc w.tick))))) v)
    ∙ ap (λ o. is_some (check_address a (auto_block_risky env ttl p o v).1)) (ap score_in answered)
    ∙ auto_block_lists env ttl up p answer.risk_score v cached unlisted
  where
    p : WalletRiskProfile
    p =
        profile_of a (env.check_address_risk w.tick a) (env.check_wallet_assets (suc w.tick) a)
          (env.clock (suc (suc w.tick)))

    v : World
    v = record w {
      profiles = upsert_rows p (env.clock (suc (suc (suc w.tick)))) w.profiles;
      tick = suc (suc (suc (suc w.tick)));
    }

    stored :
        attempt (upsert_risk_profile env p) (record w { tick = suc (suc (suc w.tick)) })
        ≡ (ok (ok tt), v)
    stored = rw (up (suc (suc (suc w.tick)))) refl

    chain :
        query_providers env ttl a w
        ≡ (auto_block_risky env ttl p p.risk_score >>= λ _.
              pure (RiskCheckResult.analyzed (analysis p false (env.clock (suc (suc w.tick))))))
            v
    chain =
        bind-ok (attempt (upsert_risk_profile env p))
          (λ _. auto_block_risky env ttl p p.risk_score >>= λ _.
            pure (RiskCheckResult.analyzed (analysis p false (env.clock (suc (suc w.tick))))))
          stored

-- On a service with a blocklist, after a check of a wallet that is neither listed nor freshly
-- cached, when the database answers and the risk provider returns a score, the wallet is on the
-- blocklist exactly when its score reaches 6, whatever the threshold of the compliance provider is configured
-- to be.
pub risky_wallet_is_listed :
    (env : Env) (ttl : ℕ) (a : String) (answer : RiskResponse) (store : List (String × String))
    (w : World)
    → ((n : ℕ) → env.fault n ≡ none)
    → w.blocklist ≡ some store
    → lookup a store ≡ none
    → find_where (has_fresh_profile a ttl (env.clock w.tick)) w.profiles ≡ none
    → env.check_address_risk (suc w.tick) a ≡ ok answer
    → is_some (check_address a (check_wallet_risk env ttl a w).1)
      ≡ int_leb (pos 6) answer.risk_score
unfolding check_wallet_risk unless_listed from_cache_or_query gets get_risk_profile statement ◌>>=◌
    check_address
risky_wallet_is_listed env ttl a answer store w up cached unlisted stale answered =
    rw (ap (λ o. check_in o a) cached ∙ unlisted, up w.tick, stale)
      (query_providers_lists env ttl up a answer (record w { tick = suc w.tick }) cached unlisted
        answered)
