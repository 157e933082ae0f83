-- ===== src/Subscription/Services/Publishing/Queued.antt =====
-- Service_Publish of src/server/ua_services_subscription.c once a request is queued: which subscription
-- it serves.
use opcua_tsn_lo_i.Base.{
  ℕ, ◌+◌, ◌<◌, ◌≡◌, ◌⊎◌, refl, sym, ap, subst, ◌∙◌, true, some, List, [], ◌∷◌, ◌++◌, arith, ◌==◌,
  ==_iff, length, inl, inr, Bool-cases, append_assoc,
}
use opcua_tsn_lo_i.Subscription.{increment, Subscription}
use opcua_tsn_lo_i.Subscription.Publish.{PublishEntry, PublishResponse, Server, publish}
use opcua_tsn_lo_i.Subscription.Services.{Config, Session}
use opcua_tsn_lo_i.Subscription.Services.Publishing.{
  is_late, immediate, publish_on, queue_and_publish,
}
use opcua_tsn_lo_i.Subscription.Services.Publishing.Ranks.{
  rank, listed, turns, AreDistinct, AllLate,
}
use opcua_tsn_lo_i.Subscription.Services.Publishing.Turns.{immediate-comes_up}
use opcua_tsn_lo_i.Subscription.Services.Publishing.Alike.{
  SameIds, SameIds-length, SameIds-listed, SameIds-turns,
}
use opcua_tsn_lo_i.Subscription.Services.Publishing.Waiting.{IsWaiting}
use opcua_tsn_lo_i.Subscription.Services.Publishing.Standing.{publish_on-Stands, publish_on-sent}

-- `c` is a late subscription of the session that is published, and is then the last one seen. It is
-- subscription `i`, or `i` goes on waiting, and either `c` is deleted, so that there is one
-- subscription fewer, or fewer subscriptions than before are ahead of `i`.
pub record Serves {V : Type 0} (server : Server) (i : ℕ) (ses : Session V)
    (r : List (PublishResponse V) × Session V) (c : Subscription V) : Type 0 where
  pub waiting : is_late c ≡ true
  pub there : listed c.subscription_id ses.subscriptions ≡ true
  pub published :
      (before : List (PublishResponse V)) × (queue : List PublishEntry) × (num : ℕ) × (r.0
        ≡ before ++ (publish server queue num c).sent)
  pub last_seen : r.1.last_seen_subscription_id ≡ c.subscription_id
  pub turn :
      (c.subscription_id ≡ i)
      ⊎ (IsWaiting i r.1.subscriptions
          × ((length r.1.subscriptions + 1 ≡ length ses.subscriptions)
              ⊎ (rank i (turns r.1.last_seen_subscription_id r.1.subscriptions)
                  < rank i (turns ses.last_seen_subscription_id ses.subscriptions))))

module _ {V : Type 0} where
  -- The session once the request is queued.
  abbrev queued : PublishEntry → Session V → Session V
  queued entry ses = record ses {
    response_queue = ses.response_queue ++ entry ∷ [];
    num_publish_req = increment ses.num_publish_req;
  }

  queue_and_publish_found :
      (config : Config) (server : Server) (entry : PublishEntry) (ses : Session V)
      (c : Subscription V)
      → immediate (queued entry ses) ≡ some c
      → queue_and_publish config server entry ses
        ≡ publish_on config server c
            (record (queued entry ses) { last_seen_subscription_id = c.subscription_id })
  unfolding queue_and_publish
  queue_and_publish_found config server entry ses c f = rw (f, queue_and_publish) refl

  -- What `Service_Publish` does once the acknowledgements are done.
  pub queue_and_publish-Serves :
      (config : Config) (server : Server) (entry : PublishEntry) (ses : Session V) (i : ℕ)
      → AreDistinct ses.subscriptions
      → listed i ses.subscriptions ≡ true
      → AllLate i ses.subscriptions
      → (c : Subscription V) × Serves server i ses (queue_and_publish config server entry ses) c
  queue_and_publish-Serves config server entry ses i d h l =
      let (c, f, w, there, t) = immediate-comes_up (queued entry ses) i d h l in
      let seen = record (queued entry ses) { last_seen_subscription_id = c.subscription_id } in
      let (last, stands, goes_on) = publish_on-Stands config server c seen there in
      (
        c,
        subst (λ r. Serves server i ses r c)
            (sym (queue_and_publish_found config server entry ses c f))
            (record {
              waiting = w;
              there = there;
              published = ([], _, _, publish_on-sent config server c seen);
              last_seen = last;
              turn = elim t [
                | inl e ↦ inl e
                | inr q ↦ elim (Bool-cases (c.subscription_id == i)) [
                  | inl e ↦ inl ((==_iff c.subscription_id i).0 e)
                  | inr e ↦ inr (
                    goes_on i (λ g. ground arith) (d, h, l),
                    elim stands [
                      | inr z ↦ inl z
                      | inl same ↦ inr (
                          rw last
                            (rw (SameIds-turns i c.subscription_id _ ses.subscriptions same) q))
                    ],
                  )
                ]
              ];
            }),
      )

  -- The acknowledgements and an answer before do not matter.
  pub Serves-before :
      (server : Server) (i : ℕ) (ses : Session V) (xs : List (Subscription V))
      (before : List (PublishResponse V)) (r : List (PublishResponse V) × Session V)
      (c : Subscription V)
      → SameIds xs ses.subscriptions
      → Serves server i (record ses { subscriptions = xs }) r c
      → Serves server i ses (before ++ r.0, r.1) c
  Serves-before server i ses xs before r c same k = record {
    waiting = k.waiting;
    there = sym (SameIds-listed c.subscription_id xs ses.subscriptions same) ∙ k.there;
    published =
        let (more, queue, num, e) = k.published in
        (
          before ++ more,
          queue,
          num,
          ap (λ rs. before ++ rs) e
              ∙ sym (append_assoc before more (publish server queue num c).sent),
        );
    last_seen = k.last_seen;
    turn = elim k.turn [
      | inl e ↦ inl e
      | inr (w, inl e) ↦ inr (w, inl (e ∙ SameIds-length xs ses.subscriptions same))
      | inr (w, inr e) ↦ inr (
        w,
        inr (
            subst (λ n. rank i (turns r.1.last_seen_subscription_id r.1.subscriptions) < n)
              (SameIds-turns i ses.last_seen_subscription_id xs ses.subscriptions same) e),
      )
    ];
  }
