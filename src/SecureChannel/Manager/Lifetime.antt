-- ===== src/SecureChannel/Manager/Lifetime.antt =====
-- The two clocks of src/server/ua_securechannel_manager.c: a channel is opened by the wall clock,
-- and times out by the monotonic clock.
use opcua_tsn_lo_i.Base.{
  ℕ, ◌≤◌, ◌≡◌, refl, ap, ◌∙◌, Bool, true, false, List, [], ◌∷◌, arith, ltb, map, All, Bool-cases,
  inl, inr,
}
use opcua_tsn_lo_i.SecureChannel.{Result, good, SecureChannel}
use opcua_tsn_lo_i.SecureChannel.Manager.{
  ChannelEntry, Manager, OpenRequest, has_timed_out, cleanup_loop, cleanup_timed_out, open_channel,
}

-- The channel has a connection, and UA_SecureChannelManager_open has opened it at a time of the
-- wall clock that is not before `now`.
pub record OpenedAfter (max_lifetime now : ℕ) (e : ChannelEntry) : Type 0 where
  pub without_security : Bool
  pub request : OpenRequest
  pub channel : SecureChannel
  pub manager : Manager
  pub opening : (open_channel max_lifetime without_security request channel manager).2 ≡ good
  pub result : e.channel ≡ (open_channel max_lifetime without_security request channel manager).0
  pub clock : now ≤ request.now
  pub connection : e.connected ≡ true

module _ (max_lifetime now : ℕ) where
  opened_at :
      (without_security : Bool) (request : OpenRequest) (c : SecureChannel) (cm : Manager)
      → (open_channel max_lifetime without_security request c cm).2 ≡ good
      → (open_channel max_lifetime without_security request c cm).0.security_token.created_at
        ≡ request.now
  unfolding open_channel
  opened_at without_security request c cm h = ground (arith, h)

  not_timed_out : (e : ChannelEntry) → OpenedAfter max_lifetime now e → has_timed_out now e ≡ false
  unfolding has_timed_out
  not_timed_out e o =
      let t : e.channel.security_token.created_at ≡ o.request.now =
        ap (λ (c : SecureChannel). c.security_token.created_at) o.result
        ∙ opened_at o.without_security o.request o.channel o.manager o.opening in
      ground (arith, t, o.clock, o.connection)

  loop_keeps :
      (delayed keys : ℕ → Result) (es : List ChannelEntry) (n : ℕ)
      → All (OpenedAfter max_lifetime now) es
      → map (λ e. e.address) (cleanup_loop delayed keys now es n).0 ≡ map (λ e. e.address) es
  unfolding cleanup_loop
  loop_keeps delayed keys [] n o = refl
  loop_keeps delayed keys (e ∷ es) n o =
      let t = not_timed_out e o.0 in
      let ih = loop_keeps delayed keys es n o.1 in
      elim (Bool-cases (ltb 0 e.channel.next_security_token.token_id)) [
        | inl u ↦ rw (t, u) (ap (λ is. e.address ∷ is) ih)
        | inr u ↦ rw (t, u) (ap (λ is. e.address ∷ is) ih)
      ]

  -- A channel with a connection never times out before its token is renewed, as long as the
  -- monotonic clock is behind what the wall clock was when the channel was opened: the time of
  -- opening is of the wall clock, whatever the lifetime, and is compared with the monotonic clock.
  -- If all channels are of that kind, the removal of those that have timed out removes none.
  pub cleanup_timed_out-keeps_opened :
      (delayed keys : ℕ → Result) (cm : Manager)
      → All (OpenedAfter max_lifetime now) cm.channels
      → map (λ e. e.address) (cleanup_timed_out delayed keys now cm).channels
        ≡ map (λ e. e.address) cm.channels
  unfolding cleanup_timed_out
  cleanup_timed_out-keeps_opened delayed keys cm o =
      loop_keeps delayed keys cm.channels cm.current_channel_count o
