-- ===== src/SecureChannel/Replay.antt =====
-- The sequence numbers of the chunks that a channel receives, of src/ua_securechannel.c.
use opcua_tsn_lo_i.Base.{
  ℕ, suc, ◌+◌, ◌-◌, ◌%◌, ◌^◌, ◌≤◌, ◌<◌, ◌≡◌, ◌≢◌, ◌⊎◌, inl, sym, List, [], ◌∷◌, arith, length, All,
  subst,
}
use opcua_tsn_lo_i.SecureChannel.{
  good, SecureChannel, process_sequence_number_asym, process_sequence_number_sym,
}

-- The next number, or a roll over from the last thousand numbers to the first.
abbrev pub Follows : ℕ → ℕ → Type 0
Follows n m = (m ≡ (n + 1) % 2 ^ 32) ⊎ ((4294966270 < n) × (m < 1024))

-- The channel takes these sequence numbers, one after the other, and none is refused.
pub data Accepts : List ℕ → SecureChannel → SecureChannel → Type 0 where
  accepts_none : (c : SecureChannel) → Accepts [] c c
  accepts_one :
      (n : ℕ) (ns : List ℕ) (c d : SecureChannel)
      → (process_sequence_number_sym n c).1 ≡ good
      → Accepts ns (process_sequence_number_sym n c).0 d
      → Accepts (n ∷ ns) c d

-- What an accepted number says.
accepted :
    (n : ℕ) (c : SecureChannel)
    → n < 2 ^ 32
    → c.receive_sequence_number < 2 ^ 32
    → (process_sequence_number_sym n c).1 ≡ good
    → ((process_sequence_number_sym n c).0.receive_sequence_number ≡ n)
      × Follows c.receive_sequence_number n
unfolding process_sequence_number_sym
accepted n c small below h = ground arith

-- `m` comes `k` numbers behind `n`, or the numbers have rolled over in between.
abbrev pub Behind : ℕ → ℕ → ℕ → Type 0
Behind n k m = (m ≡ n + k) ⊎ (m + 4294965248 ≤ n + k)

Behind-step : (n k r m : ℕ) → r < 2 ^ 32 → Behind n k r → Follows r m → Behind n (suc k) m
Behind-step n k r m h b f = grind arith

not_again :
    (n k : ℕ) (ns : List ℕ) (c d : SecureChannel)
    → All (λ m. m < 2 ^ 32) ns
    → c.receive_sequence_number < 2 ^ 32
    → Behind n k c.receive_sequence_number
    → k + length ns < 4294965248
    → Accepts ns c d
    → All (λ m. m ≢ n) ns
not_again n k [] c d small below b h a = tt
not_again n k (m ∷ ns) c d small below b h (accepts_one _ _ _ _ g rest) =
    let (r, f) = accepted m c small.0 below g in
    let b' = Behind-step n k c.receive_sequence_number m below b f in
    (
      λ e. grind arith,
      not_again n (suc k) ns (process_sequence_number_sym m c).0 d small.1
          (subst (λ x. x < 2 ^ 32) (sym r) small.0) (subst (Behind n (suc k)) (sym r) b')
          (omega arith) rest,
    )

-- Once a channel has taken a MSG or CLO chunk with a sequence number, it refuses such a chunk with
-- that number as long as it has taken fewer than 4294965248 chunks since, all of them MSG or CLO
-- chunks: whatever sequence numbers it takes, one after the other, they are all different from that
-- one. An OPN message ends this, as it sets the number anew, whatever it is: after an OPN message
-- with the number before that one, the channel takes that one again.
pub process_sequence_number_sym-takes_once :
    (n : ℕ) (ns : List ℕ) (c d : SecureChannel)
    → c.receive_sequence_number < 2 ^ 32
    → All (λ m. m < 2 ^ 32) (n ∷ ns)
    → length ns < 4294965248
    → Accepts (n ∷ ns) c d
    → All (λ m. m ≢ n) ns
      × ((process_sequence_number_sym n
            (process_sequence_number_asym ((n + 2 ^ 32 - 1) % 2 ^ 32) d).0).1
          ≡ good)
unfolding process_sequence_number_sym process_sequence_number_asym
process_sequence_number_sym-takes_once n ns c d below small h (accepts_one _ _ _ _ g rest) =
    let r = (accepted n c small.0 below g).0 in
    (
      not_again n 0 ns (process_sequence_number_sym n c).0 d small.1
          (subst (λ x. x < 2 ^ 32) (sym r) small.0) (inl (omega (arith, r))) (omega arith) rest,
      ground (arith, small.0),
    )
