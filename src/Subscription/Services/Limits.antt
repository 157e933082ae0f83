-- ===== src/Subscription/Services/Limits.antt =====
-- The limits of src/server/ua_services_subscription.c.
use opcua_tsn_lo_i.Base.{
  ℕ, zero, suc, ◌+◌, ◌*◌, ◌^◌, ◌≤◌, ◌<◌, ◌≡◌, ◌⊎◌, ◌%◌, ◌∙◌, inl, inr, ltb, if◌then◌else◌,
  Bool-cases, true, false, arith, leb, length,
}
use opcua_tsn_lo_i.Subscription.{Subscription}
use opcua_tsn_lo_i.Subscription.Publish.{good}
use opcua_tsn_lo_i.Subscription.Services.{
  Session, Config, SubscriptionRequest, bounded_value, interval_within, set_subscription_settings,
  add_subscription, service_create_subscription,
}

-- A client asks for that many subscriptions, one after the other.
unfoldable pub create_many : {V : Type 0} → Config → SubscriptionRequest → ℕ → Session V → Session V
create_many config request zero ses = ses
create_many config request (suc n) ses =
    create_many config request n (service_create_subscription config true request ses).0

one_more :
    {V : Type 0} (config : Config) (request : SubscriptionRequest) (ses : Session V)
    → ses.num_publish_req < config.max_subscriptions_per_session
    → (let r = service_create_subscription config true request ses in
        (r.1 ≡ good)
        × (length r.0.subscriptions ≡ length ses.subscriptions + 1)
        × (r.0.num_publish_req ≡ ses.num_publish_req))
unfolding service_create_subscription add_subscription
one_more config request ses h =
    let below : leb config.max_subscriptions_per_session ses.num_publish_req ≡ false =
      ground arith in
    ground arith

-- The limit on the number of subscriptions of a session does not limit it: where there is memory,
-- a client that has fewer publish requests queued than that many subscriptions are allowed gets as
-- many subscriptions as it asks for, however many it has.
pub create_many_unlimited :
    {V : Type 0} (config : Config) (request : SubscriptionRequest) (n : ℕ) (ses : Session V)
    → ses.num_publish_req < config.max_subscriptions_per_session
    → length (create_many config request n ses).subscriptions ≡ length ses.subscriptions + n
unfolding create_many
create_many_unlimited config request zero ses h = omega arith
create_many_unlimited config request (suc n) ses h =
    let r = one_more config request ses h in
    create_many_unlimited config request n (service_create_subscription config true request ses).0
      (omega (arith, r.2))
    ∙ omega (arith, r.1)

-- What the server asks of the settings of a subscription. Only three keep-alive counts may exceed
-- the largest lifetime.
pub record IsRevised {V : Type 0} (config : Config) (s : Subscription V) : Type 0 where
  pub keep_alive :
      (config.min_keep_alive_count ≤ s.max_keep_alive_count)
      × (s.max_keep_alive_count ≤ config.max_keep_alive_count)
  pub life_time : 3 * s.max_keep_alive_count ≤ s.life_time_count
  pub life_time_min : config.min_life_time_count ≤ s.life_time_count
  pub life_time_max :
      (s.life_time_count ≤ config.max_life_time_count)
      ⊎ (s.life_time_count ≡ 3 * s.max_keep_alive_count)
  pub some_notifications : 1 ≤ s.notifications_per_publish
  pub notifications : s.notifications_per_publish ≤ config.max_notifications_per_publish
  pub interval_max : config.double_less config.interval_max s.publishing_interval ≡ false
  pub interval_min : config.double_less s.publishing_interval config.interval_min ≡ false
  pub interval_number : config.double_equal s.publishing_interval s.publishing_interval ≡ true

-- What the limits on the publishing interval have to be: a range of two numbers, of which none is
-- less than itself.
pub record IsRange (config : Config) : Type 0 where
  pub min : config.double_less config.interval_min config.interval_min ≡ false
  pub max : config.double_less config.interval_max config.interval_max ≡ false
  pub ordered : config.double_less config.interval_max config.interval_min ≡ false
  pub min_number : config.double_equal config.interval_min config.interval_min ≡ true
  pub max_number : config.double_equal config.interval_max config.interval_max ≡ true

IsWithin : Config → ℕ → Type 0
IsWithin config v =
    (config.double_less config.interval_max v ≡ false)
    × (config.double_less v config.interval_min ≡ false)
    × (config.double_equal v v ≡ true)

interval_within-IsWithin :
    (config : Config) (v : ℕ) → IsRange config → IsWithin config (interval_within config v)
unfolding interval_within IsWithin
interval_within-IsWithin config v r = elim (Bool-cases (config.double_equal v v)) [
  | inr nan ↦ rw (nan, interval_within) (r.ordered, r.min, r.min_number)
  | inl number ↦ elim (Bool-cases (config.double_less config.interval_max v)) [
    | inl above ↦ rw (number, above, interval_within) (r.max, r.ordered, r.max_number)
    | inr h ↦ elim (Bool-cases (config.double_less v config.interval_min)) [
      | inl below ↦ rw (number, h, below, interval_within) (r.ordered, r.min, r.min_number)
      | inr k ↦ rw (number, h, k, interval_within) (h, k, number)
    ]
  ]
]

-- The larger of the two is the first one, or it is the second.
life_time_cases :
    (life thrice max : ℕ)
    → life ≤ max
    → ((if ltb life thrice then thrice else life) ≤ max)
      ⊎ ((if ltb life thrice then thrice else life) ≡ thrice)
life_time_cases life thrice max h = elim (Bool-cases (ltb life thrice)) [
  | inl e ↦ inr (ground arith)
  | inr e ↦ inl (ground arith)
]

-- Whatever a client asks for, the keep-alive count, the publishing interval and the number of
-- notifications in a response that a subscription gets are within the limits of the server, also
-- where the client asks for NaN as interval. The lifetime is at least three times the keep-alive
-- count, it is not below its limit, and it exceeds its limit only where it is three times the
-- keep-alive count. If the limits are ranges, three times the largest keep-alive count does not
-- overflow, and the server allows for a notification in a response.
pub settings-IsRevised :
    {V : Type 0} (config : Config) (request : SubscriptionRequest) (s : Subscription V)
    → config.min_keep_alive_count ≤ config.max_keep_alive_count
    → config.min_life_time_count ≤ config.max_life_time_count
    → IsRange config
    → 3 * config.max_keep_alive_count < 2 ^ 32
    → 1 ≤ config.max_notifications_per_publish
    → IsRevised config (set_subscription_settings config request s)
unfolding set_subscription_settings bounded_value IsWithin
settings-IsRevised config request s h l r b m =
    let (above, below, number) =
      interval_within-IsWithin config request.requested_publishing_interval r in
    record {
      keep_alive = (ground arith, ground arith);
      life_time = ground arith;
      life_time_min = ground arith;
      life_time_max =
          let keep =
            bounded_value config.min_keep_alive_count config.max_keep_alive_count
              request.requested_max_keep_alive_count in
          let k : 3 * keep < 2 ^ 32 = ground arith in
          let e : (3 * keep) % 2 ^ 32 ≡ 3 * keep = omega arith in
          elim (life_time_cases
            (bounded_value config.min_life_time_count config.max_life_time_count
              request.requested_lifetime_count)
            ((3 * keep) % 2 ^ 32) config.max_life_time_count (ground arith)) [
              | inl q ↦ inl q
              | inr q ↦ inr (q ∙ e)
            ];
      some_notifications = ground arith;
      notifications = ground arith;
      interval_max = above;
      interval_min = below;
      interval_number = number;
    }
