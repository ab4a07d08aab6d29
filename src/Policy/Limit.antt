-- ===== src/Policy/Limit.antt =====
-- When the rate limit stops a request.
use traefik_plugin.Base.{
  Bool, true, false, ◌||◌, not, Option, none, some, Bytes, ◌≡◌, ◌⊎◌, inl, inr, refl, ap, arith,
  Bool-cases,
}
use traefik_plugin.Base.Int.{is_positive}
use traefik_plugin.Http.{Headers, Request}
use traefik_plugin.Plugin.{
  GatewayPlugin, Services, RateLimitResult, Outcome, forwarded, forward, resolve_rate_limit,
  too_many_requests,
}
use traefik_plugin.Policy.{apply_rate_limit, limit_and_forward, finish, rate_decision, admitted}
use traefik_plugin.Snapshot.{CompiledEndpoint}

module _ {S : Type 0} (services : Services S) (p : GatewayPlugin) (ep : CompiledEndpoint)
    (key plan : Bytes) (w : Headers) (req : Request) (s : S) where
  abbrev pub checked : Option RateLimitResult × S
  checked =
      services.check key ep.uid (resolve_rate_limit p.config ep plan).0
        (resolve_rate_limit p.config ep plan).1 s

  -- The rate limit stands between a caller without "*" and the backend, and the limiter says no.
  pub record IsLimited (wildcard : Bool) (result : RateLimitResult) : Type 0 where
    pub ordinary : wildcard ≡ false
    pub enabled : p.config.disable_rate_limit ≡ false
    pub present : p.has_rate_limiter ≡ true
    pub positive : is_positive (resolve_rate_limit p.config ep plan).0 ≡ true
    pub answered : checked.0 ≡ some result
    pub exhausted : result.allowed ≡ false

  abbrev pub Verdict : Bool → Outcome × S → Type 0
  Verdict wildcard out =
      ((result : RateLimitResult) × IsLimited wildcard result
        × (out ≡ (too_many_requests w result (services.now checked.1), checked.1)))
      ⊎ (((result : RateLimitResult) → ¬ IsLimited wildcard result)
          × (w' : Headers) × (s' : S) × (out ≡ (forwarded req w', s')))

  decided :
      (o : Option RateLimitResult)
      → checked.0 ≡ o
      → p.config.disable_rate_limit ≡ false
      → p.has_rate_limiter ≡ true
      → is_positive (resolve_rate_limit p.config ep plan).0 ≡ true
      → Verdict false (finish services req (rate_decision services w (o, checked.1)))
  unfolding forward
  decided none e on there positive = inr ((λ r l. ground (arith, l.answered)), w, checked.1, refl)
  decided (some result) e on there positive = elim (Bool-cases result.allowed) [
    | inl ok ↦ rw ok (inr ((λ r l. ground (arith, l.answered, l.exhausted)), _, checked.1, refl))
    | inr over ↦ simp over (
        inl (
          result,
          record {
            ordinary = refl;
            enabled = on;
            present = there;
            positive = positive;
            answered = e;
            exhausted = over;
          },
          refl,
        ))
  ]

  skipped :
      apply_rate_limit services p ep key plan w s ≡ (admitted w, s)
      → ((result : RateLimitResult) → ¬ IsLimited false result)
      → Verdict false (finish services req (apply_rate_limit services p ep key plan w s))
  unfolding forward
  skipped e never = inr (never, w, s, ap (finish services req) e)

  -- A request is answered with a rate-limit error exactly when its caller holds no "*", the limiter
  -- is present and enabled, the limit is positive and the limiter says that it is exhausted; in all
  -- other cases, a failing limiter included, it goes on to the backend unchanged.
  pub limit_and_forward-limited :
      (wildcard : Bool)
      → Verdict wildcard (limit_and_forward services p ep wildcard key plan w req s)
  unfolding limit_and_forward apply_rate_limit forward
  limit_and_forward-limited true = inr ((λ r l. cc l.ordinary), w, s, refl)
  limit_and_forward-limited false =
      elim (Bool-cases (p.config.disable_rate_limit || not p.has_rate_limiter)) [
        | inl off ↦ skipped (rw off) (λ r l. ground (arith, l.enabled, l.present))
        | inr on ↦ elim (Bool-cases (is_positive (resolve_rate_limit p.config ep plan).0)) [
          | inr none_left ↦ skipped (rw (on, none_left)) (λ r l. ground (arith, l.positive))
          | inl positive ↦
              rw (on, positive) (decided checked.0 refl (ground arith) (ground arith) positive)
        ]
      ]
