-- ===== src/Core/Certificate/Quorum.antt =====
-- core/vote.go `CommitCertificate.IsValid` and core/validator.go `HasMajority`: two majorities overlap.
use theta_protocol_subchain.Prelude.{In-any}
use theta_protocol_subchain.Prelude.{any-In}
use theta_protocol_subchain.Prelude.{
  ℕ, ◌+◌, ◌*◌, ◌≤◌, ◌<◌, ◌≡◌, refl, inl, inr, Bool, true, false, ◌&&◌, none, some, List, [], ◌∷◌,
  arith, ◌==◌, if◌then◌else◌, ltb→lt, ==→eq, Bool-cases, All, All-In, In, any,
}
use theta_protocol_subchain.Prelude.Sorting.{sort_by, IsDistinct, sort_by-IsDistinct, In-of_sort_by}
use theta_protocol_subchain.Core.Validator.{
  Validator, ValidatorSet, find_validator, get_validator, sum_stake, total_stake,
}
use theta_protocol_subchain.Core.Vote.{
  Crypto, Vote, vote_id, VoteSet, validate_vote, sorted_votes, unique_voter,
}
use theta_protocol_subchain.Core.Vote.Latest.{unique_voter-IsDistinct}
use theta_protocol_subchain.Core.Certificate.{
  stake_of_voter, voted_stake, has_majority_votes, has_majority, all_votes_for, is_valid_votes,
  is_valid,
}
use theta_protocol_subchain.Core.Vote.Latest.{unique_voter_lem, unique_voter-IsDistinct}

-- The stake of the validators whose addresses pass the test.
pub stake_where : (ℕ → Bool) → List Validator → ℕ
stake_where p [] = 0
stake_where p (v ∷ vs) = (if p v.address then v.stake else 0) + stake_where p vs

-- Whether one of the votes is by this voter.
abbrev pub has_voted : List Vote → ℕ → Bool
has_voted ws i = any (λ (w : Vote). w.id == i) ws

-- Whether one of the votes is a valid vote of this voter for the block.
abbrev pub has_signed : Crypto → ℕ → List Vote → ℕ → Bool
has_signed c hash ws i = any (λ (w : Vote). w.id == i && (w.block == hash && validate_vote c w)) ws

sum_stake_from : (acc : ℕ) (vs : List Validator) → sum_stake acc vs ≡ acc + sum_stake 0 vs
unfolding sum_stake
sum_stake_from acc [] = omega arith
sum_stake_from acc (v ∷ vs) =
    omega (arith, sum_stake_from (acc + v.stake) vs, sum_stake_from (0 + v.stake) vs)

-- Two sets of voters that pass a test each overlap in what the total cannot hold.
overlap :
    (p q : ℕ → Bool) (vs : List Validator)
    → stake_where p vs + stake_where q vs ≤ sum_stake 0 vs + stake_where (λ i. p i && q i) vs
unfolding stake_where sum_stake
overlap p q [] = omega arith
overlap p q (v ∷ vs) = ground (arith, overlap p q vs, sum_stake_from (0 + v.stake) vs)

stake_where-le_total : (p : ℕ → Bool) (vs : List Validator) → stake_where p vs ≤ sum_stake 0 vs
unfolding stake_where sum_stake
stake_where-le_total p [] = omega arith
stake_where-le_total p (v ∷ vs) =
    ground (arith, stake_where-le_total p vs, sum_stake_from (0 + v.stake) vs)

stake_where_mono :
    (p q : ℕ → Bool) (vs : List Validator)
    → ((i : ℕ) → p i ≡ true → q i ≡ true)
    → stake_where p vs ≤ stake_where q vs
unfolding stake_where
stake_where_mono p q [] h = omega arith
stake_where_mono p q (v ∷ vs) h = ground (arith, h v.address, stake_where_mono p q vs h)

-- What `GetValidator` finds counts among those of its address.
find_validator-le :
    (i : ℕ) (vs : List Validator)
    → elim (find_validator i vs) [ none ↦ 0 | some v ↦ v.stake ] ≤ stake_where (λ j. i == j) vs
unfolding find_validator stake_where
find_validator-le i [] = omega arith
find_validator-le i (v ∷ vs) = ground (arith, find_validator-le i vs)

stake_of_voter-le :
    (s : ValidatorSet) (i : ℕ) → stake_of_voter s i ≤ stake_where (λ j. i == j) s.validators
unfolding stake_of_voter get_validator
stake_of_voter-le s i = find_validator-le i s.validators

stake_where-add :
    (w : Vote) (ws : List Vote) (vs : List Validator)
    → has_voted ws w.id ≡ false
    → stake_where (λ j. w.id == j) vs + stake_where (has_voted ws) vs
      ≡ stake_where (has_voted (w ∷ ws)) vs
unfolding stake_where any
stake_where-add w ws [] h = omega arith
stake_where-add w ws (v ∷ vs) h = elim (Bool-cases (w.id == v.address)) [
  | inl same ↦
      let absent : has_voted ws v.address ≡ false = rw (==→eq _ _ same) at h in
      ground (arith, stake_where-add w ws vs h)
  | inr other ↦ ground (arith, stake_where-add w ws vs h)
]

voted_stake_from :
    (s : ValidatorSet) (acc : ℕ) (ws : List Vote) → voted_stake s acc ws ≡ acc + voted_stake s 0 ws
unfolding voted_stake
voted_stake_from s acc [] = omega arith
voted_stake_from s acc (w ∷ ws) = omega (
  arith,
  voted_stake_from s (acc + stake_of_voter s w.id) ws,
  voted_stake_from s (0 + stake_of_voter s w.id) ws,
)

IsFresh-has_voted :
    (w : Vote) (ws : List Vote) → All (λ u. ¬ (w.id ≡ u.id)) ws → has_voted ws w.id ≡ false
unfolding any
IsFresh-has_voted w [] h = refl
IsFresh-has_voted w (u ∷ us) h = ground (arith, IsFresh-has_voted w us h.1)

-- Votes of distinct voters count no stake twice.
voted_stake-le :
    (s : ValidatorSet) (ws : List Vote)
    → IsDistinct vote_id ws
    → voted_stake s 0 ws ≤ stake_where (has_voted ws) s.validators
unfolding voted_stake
voted_stake-le s [] h = omega arith
voted_stake-le s (w ∷ ws) h = omega (
  arith,
  voted_stake_from s (0 + stake_of_voter s w.id) ws,
  stake_of_voter-le s w.id,
  stake_where-add w ws s.validators (IsFresh-has_voted w ws h.0),
  voted_stake-le s ws h.1,
)

-- For votes of distinct voters, the voted stake is no more than the total.
voted_stake-le_total :
    (s : ValidatorSet) (ws : List Vote) → IsDistinct vote_id ws → voted_stake s 0 ws ≤ total_stake s
unfolding total_stake
voted_stake-le_total s ws h =
    omega (arith, voted_stake-le s ws h, stake_where-le_total (has_voted ws) s.validators)

In-sorted_votes : (w : Vote) (votes : VoteSet) → In w (sorted_votes votes) → In w votes.votes
unfolding sorted_votes
In-sorted_votes w votes i = In-of_sort_by vote_id w votes.votes i

pub has_majority_lem :
    (s : ValidatorSet) (votes : VoteSet)
    → IsDistinct vote_id votes.votes
    → has_majority s votes ≡ true
    → total_stake s * 2 < stake_where (has_voted (sorted_votes votes)) s.validators * 3
unfolding has_majority has_majority_votes sorted_votes
has_majority_lem s votes d h = omega (
  arith,
  ltb→lt _ _ h,
  voted_stake-le s (sort_by vote_id votes.votes) (sort_by-IsDistinct vote_id votes.votes d),
)

-- The latest votes of a set have a majority only if its voters have, each counted once.
pub has_majority-unique_voter :
    (s : ValidatorSet) (votes : VoteSet)
    → has_majority s (unique_voter votes) ≡ true
    → total_stake s * 2 < stake_where (has_voted votes.votes) s.validators * 3
has_majority-unique_voter s votes h =
    let latest = unique_voter votes in
    let kept =
      stake_where_mono (has_voted (sorted_votes latest)) (has_voted votes.votes) s.validators
        (λ i voted.
          let (w, there, same) = any-In (λ (w : Vote). w.id == i) (sorted_votes latest) voted in
          let stored =
            All-In (λ v. In v votes.votes) w latest.votes (unique_voter_lem votes).1
              (In-sorted_votes w latest there) in
          In-any (λ (w : Vote). w.id == i) w votes.votes stored same) in
    omega (arith, has_majority_lem s latest (unique_voter-IsDistinct votes) h, kept)

-- Two sets of votes, each with one vote for each voter and each with a majority of one validator
-- set, have voters in common whose stake is more than a third of the total.
majorities_overlap :
    (s : ValidatorSet) (a b : VoteSet)
    → IsDistinct vote_id a.votes
    → IsDistinct vote_id b.votes
    → has_majority s a ≡ true
    → has_majority s b ≡ true
    → total_stake s
      < stake_where (λ i. has_voted (sorted_votes a) i && has_voted (sorted_votes b) i) s.validators
        * 3
unfolding total_stake
majorities_overlap s a b da db ha hb = omega (
  arith,
  has_majority_lem s a da ha,
  has_majority_lem s b db hb,
  overlap (has_voted (sorted_votes a)) (has_voted (sorted_votes b)) s.validators,
)

-- A voter among votes that all pass the tests of `IsValid` has signed for the block.
all_votes_for-In :
    (c : Crypto) (hash : ℕ) (ws : List Vote) (w : Vote)
    → all_votes_for c hash ws ≡ true
    → In w ws
    → (w.block == hash && validate_vote c w) ≡ true
unfolding all_votes_for
all_votes_for-In c hash [] w h i = absurd i
all_votes_for-In c hash (v ∷ vs) w h (inl e) = rw e (ground arith)
all_votes_for-In c hash (v ∷ vs) w h (inr i) = all_votes_for-In c hash vs w (ground arith) i

voters_signed :
    (c : Crypto) (hash : ℕ) (votes : VoteSet) (i : ℕ)
    → all_votes_for c hash (sorted_votes (unique_voter votes)) ≡ true
    → has_voted (sorted_votes (unique_voter votes)) i ≡ true
    → has_signed c hash votes.votes i ≡ true
unfolding sorted_votes
voters_signed c hash votes i all h =
    let kept = (unique_voter votes).votes in
    let (w, listed, by) = any-In _ (sort_by vote_id kept) h in
    In-any _ w votes.votes
      (All-In _ w _ (unique_voter_lem votes).1 (In-of_sort_by vote_id w kept listed))
      (ground (arith, all_votes_for-In c hash (sort_by vote_id kept) w all listed))

-- What a certificate that `IsValid` accepts contains.
is_valid_votes-eq_true :
    (c : Crypto) (s : ValidatorSet) (hash : ℕ) (votes : VoteSet)
    → is_valid_votes c s hash votes ≡ true
    → (all_votes_for c hash (sorted_votes (unique_voter votes)) ≡ true)
      × (has_majority s (unique_voter votes) ≡ true)
unfolding is_valid_votes
is_valid_votes-eq_true c s hash votes h = ground arith

signed_by_majority :
    (c : Crypto) (s : ValidatorSet) (hash : ℕ) (votes : VoteSet)
    → is_valid_votes c s hash votes ≡ true
    → total_stake s * 2 < stake_where (has_signed c hash votes.votes) s.validators * 3
signed_by_majority c s hash votes h =
    let parts = is_valid_votes-eq_true c s hash votes h in
    omega (
      arith,
      has_majority_lem s (unique_voter votes) (unique_voter-IsDistinct votes) parts.1,
      stake_where_mono (has_voted (sorted_votes (unique_voter votes)))
          (has_signed c hash votes.votes) s.validators (λ i. voters_signed c hash votes i parts.0),
    )

-- Accountable safety: if two certificates, for any two blocks, are valid under one validator set,
-- then validators with more than a third of the total stake have each signed a valid vote for
-- both.
pub valid_certificates_overlap :
    (c : Crypto) (s : ValidatorSet) (hash hash' : ℕ) (a b : VoteSet)
    → is_valid c (record { votes = some a; block_hash = hash }) s ≡ true
    → is_valid c (record { votes = some b; block_hash = hash' }) s ≡ true
    → total_stake s
      < stake_where (λ i. has_signed c hash a.votes i && has_signed c hash' b.votes i) s.validators
        * 3
unfolding is_valid total_stake
valid_certificates_overlap c s hash hash' a b ha hb = omega (
  arith,
  signed_by_majority c s hash a ha,
  signed_by_majority c s hash' b hb,
  overlap (has_signed c hash a.votes) (has_signed c hash' b.votes) s.validators,
)
