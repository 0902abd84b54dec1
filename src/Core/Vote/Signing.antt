-- ===== src/Core/Vote/Signing.antt =====
-- core/vote.go `SignBytes`, `Validate`: what the signature of a vote covers.
use theta_protocol_subchain.Prelude.{ℕ, ◌≡◌, refl, true, false, some, arith, List}
use theta_protocol_subchain.Core.Vote.{Crypto, Vote, sign_bytes, validate_vote}

-- Two votes that agree but for their heights pass `Validate` together: neither the height nor the
-- height of the main chain is signed or tested.
validate_vote_heights :
    (c : Crypto) (v : Vote) (height mainchain_height : ℕ)
    → validate_vote c (record v { height = height; mainchain_height = mainchain_height })
      ≡ validate_vote c v
unfolding validate_vote sign_bytes
validate_vote_heights c v height mainchain_height = refl

-- A vote passes `Validate` only if it names a block and a voter, and carries a signature of the
-- voter, not an empty one, on its block, epoch and voter.
validate_vote-eq_true :
    (c : Crypto) (v : Vote)
    → validate_vote c v ≡ true
    → (¬ (v.block ≡ 0))
      × (¬ (v.id ≡ 0))
      × (sig : List ℕ) × (v.signature ≡ some sig)
      × (c.is_empty_signature sig ≡ false)
      × (c.verify sig (c.encode_vote v.block 0 0 v.epoch v.id) v.id ≡ true)
unfolding validate_vote sign_bytes
validate_vote-eq_true c v h = ground arith
