-- ===== src/SecureChannel/Manager/Capacity.antt =====
-- How many channels a server has, and for how long, of src/server/ua_securechannel_manager.c.
use opcua_tsn_lo_i.Base.{
  ℕ, ◌+◌, ◌^◌, ◌≤◌, ◌<◌, ◌≡◌, inl, inr, refl, Bool, true, false, ◌&&◌, some, List, [], ◌∷◌, arith,
  ltb, length, Bool-cases, Option-cases,
}
use opcua_tsn_lo_i.SecureChannel.{Result, good, is_good}
use opcua_tsn_lo_i.SecureChannel.Manager.{
  ChannelEntry, Manager, one_less, unlink, remove_secure_channel, has_timed_out, cleanup_loop,
  cleanup_timed_out, first_without_session, purge_first_channel_without_session, Creation,
  add_channel, create, get_channel, close,
}

-- The count of channels is right, and within the limit.
pub record IsBounded (max : ℕ) (cm : Manager) : Type 0 where
  pub counted : cm.current_channel_count ≡ length cm.channels
  pub within : length cm.channels ≤ max

length-unlink_first :
    (e : ChannelEntry) (es : List ChannelEntry)
    → first_without_session es ≡ some e
    → length (unlink e.address es) + 1 ≡ length es
unfolding first_without_session unlink
length-unlink_first e [] f = cc
length-unlink_first e (x ∷ es) f = ground (arith, length-unlink_first e es)

length-unlink_found :
    (i : ℕ) (e : ChannelEntry) (es : List ChannelEntry)
    → get_channel i es ≡ some e
    → length (unlink e.address es) + 1 ≡ length es
unfolding get_channel unlink
length-unlink_found i e [] f = cc
length-unlink_found i e (x ∷ es) f = ground (arith, length-unlink_found i e es)

cleanup_loop_counts :
    (delayed keys : ℕ → Result) (now : ℕ) (es : List ChannelEntry) (n : ℕ)
    → length es ≤ n
    → n < 2 ^ 32
    → (let r = cleanup_loop delayed keys now es n in
        (r.1 + length es ≡ n + length r.0) × (length r.0 ≤ length es))
unfolding cleanup_loop
cleanup_loop_counts delayed keys now [] n h b = (refl, omega arith)
cleanup_loop_counts delayed keys now (e ∷ es) n h b =
    elim (Bool-cases (has_timed_out now e && is_good (delayed e.address))) [
      | inl t ↦
          let ih =
            cleanup_loop_counts delayed keys now es (one_less n) (omega arith) (omega arith) in
          rw t (omega (arith, ih), omega (arith, ih))
      | inr t ↦
          let ih = cleanup_loop_counts delayed keys now es n (omega arith) b in
          rw t (omega (arith, ih), omega (arith, ih))
    ]

module _ (max max_lifetime : ℕ) (narrow : max < 2 ^ 32) where
  remove-IsBounded :
      (delayed : Result) (e : ChannelEntry) (cm : Manager)
      → length (unlink e.address cm.channels) + 1 ≡ length cm.channels
      → IsBounded max cm
      → IsBounded max (remove_secure_channel delayed e cm).0
  unfolding remove_secure_channel
  remove-IsBounded delayed e cm u k = elim (Bool-cases (is_good delayed)) [
    | inl t ↦ rw t (record {
      counted = omega (arith, k.counted, k.within, u);
      within = omega (arith, k.within, u);
    })
    | inr t ↦ rw t k
  ]

  add-IsBounded :
      (given : Creation) (cm : Manager)
      → cm.current_channel_count ≡ length cm.channels
      → length cm.channels < max
      → IsBounded max (add_channel max_lifetime given cm).0
  unfolding add_channel
  add-IsBounded given cm c h = elim (Bool-cases given.memory) [
    | inr f ↦ rw f (record { counted = c; within = omega arith })
    | inl t ↦ elim (Bool-cases (is_good given.channel_init)) [
      | inr f ↦ rw (t, f) (record { counted = c; within = omega arith })
      | inl f ↦ rw (t, f) (record { counted = omega arith; within = omega arith })
    ]
  ]

  purged-room :
      (delayed : ℕ → Result) (cm : Manager)
      → ((i : ℕ) → delayed i ≡ good)
      → IsBounded max cm
      → (purge_first_channel_without_session delayed cm).1 ≡ true
      → (let cm' = (purge_first_channel_without_session delayed cm).0 in
          (cm'.current_channel_count ≡ length cm'.channels) × (length cm'.channels < max))
  unfolding purge_first_channel_without_session remove_secure_channel
  purged-room delayed cm d k h = elim (Option-cases (first_without_session cm.channels)) [
    | inl n ↦
        let z : (purge_first_channel_without_session delayed cm).1 ≡ false =
          rw (purge_first_channel_without_session, n) refl in
        absurd (ground (arith, h, z))
    | inr (e, f) ↦
        let u = length-unlink_first e cm.channels f in
        rw (purge_first_channel_without_session, f, remove_secure_channel, d e.address)
          (omega (arith, k.counted, k.within, u), omega (arith, k.within, u))
  ]

  purged-none :
      (delayed : ℕ → Result) (cm : Manager)
      → (purge_first_channel_without_session delayed cm).1 ≡ false
      → IsBounded max cm
      → IsBounded max (purge_first_channel_without_session delayed cm).0
  unfolding purge_first_channel_without_session
  purged-none delayed cm h k = elim (Option-cases (first_without_session cm.channels)) [
    | inl n ↦ rw (purge_first_channel_without_session, n) k
    | inr (e, f) ↦
        let z : (purge_first_channel_without_session delayed cm).1 ≡ true =
          rw (purge_first_channel_without_session, f) refl in
        absurd (ground (arith, h, z))
  ]

  -- The server never has more channels than it may have, and its count of them stays right, however
  -- channels are created, closed, and removed when they have timed out. For a creation there is
  -- memory to remove a channel in favour of the new one; for the others the removal may fail.
  pub create-IsBounded :
      (cm : Manager) (delayed removals keys : ℕ → Result) (given : Creation) (attached : Bool)
      (now i : ℕ)
      → ((j : ℕ) → delayed j ≡ good)
      → IsBounded max cm
      → IsBounded max (create max max_lifetime delayed given attached cm).0
        × IsBounded max (close removals i cm).0
        × IsBounded max (cleanup_timed_out removals keys now cm)
  unfolding create close cleanup_timed_out
  create-IsBounded cm delayed removals keys given attached now i d k =
      let purged = purge_first_channel_without_session delayed cm in
      let counts =
        cleanup_loop_counts removals keys now cm.channels cm.current_channel_count
          (omega (arith, k.counted)) (omega (arith, k.counted, k.within)) in
      (
        elim (Bool-cases attached) [
          | inl a ↦ rw a k
          | inr a ↦ elim (Bool-cases (ltb cm.current_channel_count max)) [
            | inl t ↦ rw (a, t) (add-IsBounded given cm k.counted (ground (arith, k.counted)))
            | inr t ↦ elim (Bool-cases purged.1) [
              | inl p ↦
                  let r = purged-room delayed cm d k p in
                  rw (a, t, p) (add-IsBounded given purged.0 r.0 r.1)
              | inr p ↦ rw (a, t, p) (purged-none delayed cm p k)
            ]
          ]
        ],
        elim (Option-cases (get_channel i cm.channels)) [
          | inl n ↦ rw (close, n) k
          | inr (e, f) ↦
              rw (close, f)
                (remove-IsBounded (removals e.address) e cm (length-unlink_found i e cm.channels f)
                  k)
        ],
        record {
          counted = omega (arith, counts, k.counted);
          within = omega (arith, counts, k.within);
        },
      )
