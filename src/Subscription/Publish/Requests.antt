-- ===== src/Subscription/Publish/Requests.antt =====
-- UA_Subscription_publish of src/server/ua_subscription.c: what becomes of the publish requests.
use opcua_tsn_lo_i.Base.{
  ℕ, ◌+◌, ◌^◌, ◌<◌, ◌≡◌, refl, Bool, true, false, List, [], ◌∷◌, arith, length,
}
use opcua_tsn_lo_i.Codec.DataValues.{DataValue}
use opcua_tsn_lo_i.Subscription.{Subscription}
use opcua_tsn_lo_i.Subscription.Publish.Outcomes.{Each, waited, responded, publish_one-Each}
use opcua_tsn_lo_i.Subscription.Publish.{
  PublishEntry, PublishResponse, Server, Outcome, waits, answers, Published, respond, publish_one,
  publish, proceed,
}

-- A response answers that request, with its handle and the results of its acknowledgements.
abbrev pub Answers : {V : Type 0} → PublishEntry → PublishResponse V → Type 0
Answers pre r =
    (r.request_id ≡ pre.request_id)
    × (r.request_handle ≡ pre.request_handle)
    × (r.results ≡ pre.results)

-- The responses answer the first requests in their order, and the other requests are left.
abbrev pub AnswersInOrder :
    {V : Type 0} → List PublishEntry → List (PublishResponse V) → List PublishEntry → Type 0
AnswersInOrder queue [] rest = queue ≡ rest
AnswersInOrder [] (r ∷ rs) rest = ⊥
AnswersInOrder (pre ∷ queue) (r ∷ rs) rest = Answers pre r × AnswersInOrder queue rs rest

module _ {V : Type 0} where
  respond-Answers :
      (server : Server) (left : ℕ) (pre : PublishEntry) (k : ℕ) (more : Bool)
      (items : List (ℕ × DataValue V)) (s : Subscription V)
      → Answers pre (respond server left pre k more items s).0
  unfolding respond
  respond-Answers server left pre k more items s = (refl, refl, refl)

  publish_one-Answers :
      (server : Server) (left : ℕ) (pre : PublishEntry) (s : Subscription V)
      → Each (λ s'. Unit {0}) (λ r s' more. Answers pre r) (publish_one server left pre s)
  publish_one-Answers server left pre s =
      publish_one-Each _ _ server left pre s (λ n. tt) (λ n. tt)
        (λ h n. respond-Answers server left pre 0 _ [] _)
        (λ items s' h e. respond-Answers server left pre _ _ items s')

  abbrev Handles : List PublishEntry → Published V → Type 0
  Handles queue r =
      AnswersInOrder queue r.sent r.response_queue × (r.num_publish_req ≡ length r.response_queue)

  proceed-Handles :
      (pre : PublishEntry) (rest : List PublishEntry) (again : Subscription V → Published V)
      (o : Outcome V)
      → length rest + 1 < 2 ^ 32
      → ((s : Subscription V) → Handles rest (again s))
      → Each (λ s'. Unit {0}) (λ r s' more. Answers pre r) o
      → Handles (pre ∷ rest) (proceed pre rest (length rest + 1) again o)
  unfolding proceed
  proceed-Handles pre rest again (waits s) b h (waited a) = (refl, omega arith)
  proceed-Handles pre rest again (answers r s true) b h (responded a) = ((a, (h s).0), (h s).1)
  proceed-Handles pre rest again (answers r s false) b h (responded a) = ((a, refl), omega arith)

  Handles-publish :
      (server : Server) (queue : List PublishEntry) (num : ℕ) (s : Subscription V)
      → num ≡ length queue
      → length queue < 2 ^ 32
      → Handles queue (publish server queue num s)
  unfolding publish
  Handles-publish server [] num s e h = (refl, e)
  Handles-publish server (pre ∷ rest) num s e h =
      let n : num ≡ length rest + 1 = omega arith in
      rw n (
        proceed-Handles pre rest _ _ (omega arith)
          (λ s'. Handles-publish server rest _ s' (omega arith) (omega arith))
          (publish_one-Answers server (length rest) pre s))

  -- `UA_Subscription_publish` loses no publish request and answers none twice: it answers the
  -- oldest ones in the order of their arrival, each response with the identifier, the handle and
  -- the acknowledgements' results of its request, and leaves the others queued in their order.
  -- The number of requests that the session keeps stays right.
  pub publish-AnswersInOrder :
      (server : Server) (queue : List PublishEntry) (s : Subscription V)
      → length queue < 2 ^ 32
      → (let r = publish server queue (length queue) s in
          AnswersInOrder queue r.sent r.response_queue
          × (r.num_publish_req ≡ length r.response_queue))
  publish-AnswersInOrder server queue s h = Handles-publish server queue (length queue) s refl h
