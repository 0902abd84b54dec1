-- ===== src/Consensus/State.antt =====
-- consensus/state.go: the consensus state and its persistence. Writes to the database succeed.
use theta_protocol_subchain.Prelude.{
  ℕ, ◌≡◌, ap, ◌∙◌, Option, none, some, List, [], ◌∷◌, ◌==◌, if◌then◌else◌,
}
use theta_protocol_subchain.Core.Vote.{Vote, VoteSet, new_vote_set, add_vote, unique_voter}
use theta_protocol_subchain.Core.Block.{Proposal}

-- What is stored under "cs/ss". The event that `getSummary` leaves out is not
-- kept here either. What RLP reads of a stub that was written is a parameter where stubs are read; nil
-- blocks, votes and signatures need not come back as nil.
pub record StateStub : Type 0 where
  pub root : ℕ
  pub highest_cc_block : ℕ
  pub last_finalized_block : ℕ
  pub last_proposal : Proposal
  pub last_vote : Vote
  pub epoch : ℕ

-- The state, the hash of the chain's root, and the two entries of its database: the stub, and the
-- epoch votes under "cs/ev", `none` where the key is missing.
pub record State : Type 0 where
  pub root : ℕ
  pub highest_cc_block : ℕ
  pub last_finalized_block : ℕ
  pub last_proposal : Proposal
  pub last_vote : Vote
  pub epoch : ℕ
  pub stub : Option StateStub
  pub epoch_votes : Option VoteSet

abbrev pub no_vote : Vote
no_vote = record {
  block = 0;
  height = 0;
  mainchain_height = 0;
  epoch = 0;
  id = 0;
  signature = none;
}

abbrev pub no_proposal : Proposal
no_proposal = record { block = none; proposer_id = 0; votes = none }

unfoldable pub get_summary : State → StateStub
get_summary s = record {
  root = s.root;
  highest_cc_block = s.highest_cc_block;
  last_finalized_block = s.last_finalized_block;
  last_proposal = s.last_proposal;
  last_vote = s.last_vote;
  epoch = s.epoch;
}

unfoldable pub commit : State → State
unfolding get_summary
commit s = record s { stub = some (get_summary s) }

module _ (recode : StateStub → StateStub) where
  -- A missing stub reads as the zero stub, whose root is the empty hash.
  unfoldable pub load : State → State
  load s = elim s.stub [
    | none ↦
        if 0 == s.root
        then record s {
          last_proposal = no_proposal;
          last_vote = no_vote;
          epoch = 0;
          last_finalized_block = 0;
          highest_cc_block = 0;
        }
        else s
    | some written ↦
        let stub = recode written in
        if stub.root == s.root
        then record s {
          last_proposal = stub.last_proposal;
          last_vote = stub.last_vote;
          epoch = stub.epoch;
          last_finalized_block = stub.last_finalized_block;
          highest_cc_block = stub.highest_cc_block;
        }
        else s
  ]

  -- From the database, the hash of the chain's root and its epoch.
  unfoldable pub new_state : Option StateStub → Option VoteSet → ℕ → ℕ → State
  unfolding load
  new_state stub epoch_votes root epoch = load (record {
    root = root;
    highest_cc_block = root;
    last_finalized_block = root;
    last_proposal = no_proposal;
    last_vote = no_vote;
    epoch = epoch;
    stub = stub;
    epoch_votes = epoch_votes;
  })

unfoldable pub set_epoch : State → ℕ → State
unfolding commit
set_epoch s epoch = commit (record s { epoch = epoch })

unfoldable pub set_last_proposal : State → Proposal → State
unfolding commit
set_last_proposal s p = commit (record s { last_proposal = p })

unfoldable pub set_last_vote : State → Vote → State
unfolding commit
set_last_vote s v = commit (record s { last_vote = v })

unfoldable pub set_highest_cc_block : State → ℕ → State
unfolding commit
set_highest_cc_block s hash = commit (record s { highest_cc_block = hash })

unfoldable pub set_last_finalized_block : State → ℕ → State
unfolding commit
set_last_finalized_block s hash = commit (record s { last_finalized_block = hash })

unfoldable pub add_epoch_vote : State → Vote → State
unfolding add_vote new_vote_set unique_voter
add_epoch_vote s vote =
    let before : VoteSet = elim s.epoch_votes [ none ↦ new_vote_set | some votes ↦ votes ] in
    record s { epoch_votes = some (unique_voter (add_vote before vote)) }

-- One call of a setter of the state.
pub data Setter : Type 0 where
  epoch_to highest_cc_block_to last_finalized_block_to : ℕ → Setter
  last_proposal_to : Proposal → Setter
  last_vote_to : Vote → Setter
  epoch_vote_added : Vote → Setter

unfoldable pub run_setter : State → Setter → State
unfolding set_epoch set_highest_cc_block set_last_finalized_block set_last_proposal set_last_vote
    add_epoch_vote
run_setter s (Setter.epoch_to e) = set_epoch s e
run_setter s (Setter.highest_cc_block_to h) = set_highest_cc_block s h
run_setter s (Setter.last_finalized_block_to h) = set_last_finalized_block s h
run_setter s (Setter.last_proposal_to p) = set_last_proposal s p
run_setter s (Setter.last_vote_to v) = set_last_vote s v
run_setter s (Setter.epoch_vote_added v) = add_epoch_vote s v

unfoldable pub run_setters : State → List Setter → State
unfolding run_setter
run_setters s [] = s
run_setters s (c ∷ cs) = run_setters (run_setter s c) cs

-- The state that a new process makes of the database of an old one.
unfoldable pub restart : (StateStub → StateStub) → State → ℕ → State
unfolding new_state
restart recode s root_epoch = new_state recode s.stub s.epoch_votes s.root root_epoch

-- A process that starts on the database of another one with the same root begins like it.
pub restart-database :
    (recode : StateStub → StateStub) (s s' : State) (root_epoch : ℕ)
    → s'.stub ≡ s.stub
    → s'.epoch_votes ≡ s.epoch_votes
    → s'.root ≡ s.root
    → restart recode s' root_epoch ≡ restart recode s root_epoch
unfolding restart
restart-database recode s s' root_epoch stub votes root =
    ap (λ d. new_state recode d s'.epoch_votes s'.root root_epoch) stub
    ∙ ap (λ v. new_state recode s.stub v s'.root root_epoch) votes
    ∙ ap (λ h. new_state recode s.stub s.epoch_votes h root_epoch) root
