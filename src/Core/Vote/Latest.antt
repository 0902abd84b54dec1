-- ===== src/Core/Vote/Latest.antt =====
-- core/vote.go `UniqueVoter`: what the consolidated set keeps.
use theta_protocol_subchain.Prelude.{
  ℕ, ◌≤◌, ◌≡◌, refl, sym, ap, ◌∙◌, ◌≢◌, ◌⊎◌, inl, inr, none, some, List, [], ◌∷◌, ◌++◌, arith, ◌==◌,
  if◌then◌else◌, ==→eq, Bool-cases, Option-cases, All, All-of_In, In, In-append_right, All-In,
}
use theta_protocol_subchain.Prelude.Sorting.{IsDistinct}
use mathlib.Core.Path.{subst}
use mathlib.Core.List.{append-nil, append_assoc}
use theta_protocol_subchain.Core.Vote.{
  Vote, vote_id, VoteSet, new_vote_set, same_key, same_voter, put, find, add_vote, add_votes,
  is_stale, latest_votes, unique_voter,
}

-- No vote of the list is by the voter of `v`.
abbrev IsFresh : Vote → List Vote → Type 0
IsFresh v ws = All (λ w. ¬ (v.id ≡ w.id)) ws

find-put :
    (v w : Vote) (ws : List Vote)
    → find same_voter w (put same_voter v ws)
      ≡ (if w.id == v.id then some v else find same_voter w ws)
unfolding find put same_voter
find-put v w [] = refl
find-put v w (u ∷ us) = ground (arith, find-put v w us)

In-put : (a v : Vote) (ws : List Vote) → In a (put same_voter v ws) → (a ≡ v) ⊎ In a ws
unfolding put same_voter
In-put a v [] h = h
In-put a v (w ∷ ws) h = elim (Bool-cases (v.id == w.id)) [
  | inl same ↦ elim (rw same at h) [ inl e ↦ inl e | inr i ↦ inr (inr i) ]
  | inr other ↦ elim (rw other at h) [
    | inl e ↦ inr (inl e)
    | inr i ↦ elim (In-put a v ws i) [ inl e ↦ inl e | inr j ↦ inr (inr j) ]
  ]
]

IsFresh-put :
    (u v : Vote) (ws : List Vote) → u.id ≢ v.id → IsFresh u ws → IsFresh u (put same_voter v ws)
unfolding put same_voter
IsFresh-put u v [] ne h = (ne, tt)
IsFresh-put u v (w ∷ ws) ne h = elim (Bool-cases (v.id == w.id)) [
  | inl same ↦ rw same (ne, h.1)
  | inr other ↦ rw other (h.0, IsFresh-put u v ws ne h.1)
]

put-IsDistinct :
    (v : Vote) (ws : List Vote) → IsDistinct vote_id ws → IsDistinct vote_id (put same_voter v ws)
unfolding put same_voter
put-IsDistinct v [] h = (tt, tt)
put-IsDistinct v (w ∷ ws) h = elim (Bool-cases (v.id == w.id)) [
  | inl same ↦
      rw same (subst (λ (i : ℕ). All (λ u. ¬ (i ≡ u.id)) ws) (sym (==→eq _ _ same)) h.0, h.1)
  | inr other ↦ rw other (IsFresh-put w v ws (ground arith) h.0, put-IsDistinct v ws h.1)
]

find-In : (w v : Vote) (ws : List Vote) → find same_voter w ws ≡ some v → In v ws × (v.id ≡ w.id)
unfolding find same_voter
find-In w v [] e = cc
find-In w v (u ∷ us) e = elim (Bool-cases (w.id == u.id)) [
  | inl same ↦ (inl (cc (rw same at e)), ground arith)
  | inr other ↦ let r = find-In w v us (rw other at e) in (inr r.0, r.1)
]

-- The entry for the voter of `w`, if there is one, is at least as new.
abbrev Covers : List Vote → Vote → Type 0
Covers ws w = elim (find same_voter w ws) [ none ↦ ⊥ | some v ↦ w.epoch ≤ v.epoch ]

-- One round of the loop.
abbrev step : List Vote → Vote → List Vote
step latest v = if is_stale same_voter latest v then latest else put same_voter v latest

find_same :
    (v w : Vote) (ws : List Vote) → v.id ≡ w.id → find same_voter v ws ≡ find same_voter w ws
unfolding find same_voter
find_same v w [] e = refl
find_same v w (u ∷ us) e = ground (arith, find_same v w us e)

step-Covers_self : (latest : List Vote) (v : Vote) → Covers (step latest v) v
unfolding is_stale
step-Covers_self latest v = ground (arith, find-put v v latest)

step-Covers : (latest : List Vote) (v w : Vote) → Covers latest w → Covers (step latest v) w
unfolding is_stale
step-Covers latest v w h = ground (arith, find-put v w latest, find_same v w latest)

step-IsDistinct :
    (latest : List Vote) (v : Vote) → IsDistinct vote_id latest → IsDistinct vote_id (step latest v)
step-IsDistinct latest v h = elim (Bool-cases (is_stale same_voter latest v)) [
  | inl stale ↦ rw stale h
  | inr newer ↦ rw newer (put-IsDistinct v latest h)
]

In-step : (a : Vote) (latest : List Vote) (v : Vote) → In a (step latest v) → (a ≡ v) ⊎ In a latest
In-step a latest v h = elim (Bool-cases (is_stale same_voter latest v)) [
  | inl stale ↦ inr (rw stale at h)
  | inr newer ↦ In-put a v latest (rw newer at h)
]

latest_votes-IsDistinct :
    (latest vs : List Vote)
    → IsDistinct vote_id latest
    → IsDistinct vote_id (latest_votes same_voter latest vs)
unfolding latest_votes
latest_votes-IsDistinct latest [] h = h
latest_votes-IsDistinct latest (v ∷ vs) h =
    latest_votes-IsDistinct (step latest v) vs (step-IsDistinct latest v h)

In-latest_votes :
    (a : Vote) (latest vs : List Vote)
    → In a (latest_votes same_voter latest vs)
    → In a latest ⊎ In a vs
unfolding latest_votes
In-latest_votes a latest [] h = inl h
In-latest_votes a latest (v ∷ vs) h = elim (In-latest_votes a (step latest v) vs h) [
  | inl old ↦ elim (In-step a latest v old) [ inl e ↦ inr (inl e) | inr i ↦ inl i ]
  | inr i ↦ inr (inr i)
]

latest_votes-Covers :
    (w : Vote) (latest vs : List Vote)
    → Covers latest w ⊎ In w vs
    → Covers (latest_votes same_voter latest vs) w
unfolding latest_votes
latest_votes-Covers w latest [] (inl h) = h
latest_votes-Covers w latest [] (inr i) = absurd i
latest_votes-Covers w latest (v ∷ vs) (inl h) =
    latest_votes-Covers w (step latest v) vs (inl (step-Covers latest v w h))
latest_votes-Covers w latest (v ∷ vs) (inr (inr i)) =
    latest_votes-Covers w (step latest v) vs (inr i)
latest_votes-Covers w latest (v ∷ vs) (inr (inl e)) =
    latest_votes-Covers w (step latest v) vs
      (inl (subst (λ u. Covers (step latest v) u) (sym e) (step-Covers_self latest v)))

Covers-In :
    (ws : List Vote) (w : Vote)
    → Covers ws w
    → (v : Vote) × In v ws × (v.id ≡ w.id) × (w.epoch ≤ v.epoch)
Covers-In ws w h = elim (Option-cases (find same_voter w ws)) [
  | inl missing ↦ absurd (rw (missing, Covers) at h)
  | inr (v, e) ↦ let found = find-In w v ws e in (v, found.0, found.1, rw (e, Covers) at h)
]

-- Votes of new voters are added at the end, whatever their blocks and epochs.
pub put_fresh : (v : Vote) (ws : List Vote) → IsFresh v ws → put same_key v ws ≡ ws ++ v ∷ []
unfolding put same_key
put_fresh v [] h = refl
put_fresh v (w ∷ ws) h = ground (arith, put_fresh v ws h.1)

pub IsDistinct-split :
    (ws : List Vote) (v : Vote) (vs : List Vote) → IsDistinct vote_id (ws ++ v ∷ vs) → IsFresh v ws
IsDistinct-split [] v vs h = tt
IsDistinct-split (w ∷ ws) v vs h = (
  λ e. All-In _ v (ws ++ v ∷ vs) h.0 (In-append_right v ws (v ∷ vs) (inl refl)) (sym e),
  IsDistinct-split ws v vs h.1,
)

votes-add_votes :
    (s : VoteSet) (vs : List Vote)
    → IsDistinct vote_id (s.votes ++ vs)
    → (add_votes s vs).votes ≡ s.votes ++ vs
unfolding add_votes add_vote
votes-add_votes s [] h = sym (append-nil s.votes)
votes-add_votes s (v ∷ vs) h =
    ap (λ ws. (add_votes (record { votes = ws }) vs).votes)
      (put_fresh v s.votes (IsDistinct-split s.votes v vs h))
    ∙ votes-add_votes (record { votes = s.votes ++ v ∷ [] }) vs
        (rw (append_assoc s.votes (v ∷ []) vs) h)
    ∙ append_assoc s.votes (v ∷ []) vs

votes-unique_voter : (s : VoteSet) → (unique_voter s).votes ≡ latest_votes same_voter [] s.votes
unfolding unique_voter new_vote_set
votes-unique_voter s =
    votes-add_votes (record { votes = [] }) (latest_votes same_voter [] s.votes)
      (latest_votes-IsDistinct [] s.votes tt)

-- `UniqueVoter` keeps one vote of each voter, which is one of that voter's votes of the highest
-- epoch, in whatever order the map is ranged over: no voter is left twice, every vote left was in
-- the set, and for every vote of the set a vote of its voter is left whose epoch is no lower.
pub unique_voter_lem :
    (s : VoteSet)
    → IsDistinct vote_id (unique_voter s).votes
      × All (λ v. In v s.votes) (unique_voter s).votes
      × All
          (λ w. (v : Vote) × In v (unique_voter s).votes × (v.id ≡ w.id) × (w.epoch ≤ v.epoch))
          s.votes
unique_voter_lem s = rw (votes-unique_voter s) (
  latest_votes-IsDistinct [] s.votes tt,
  All-of_In _ _
      (λ v i. elim (In-latest_votes v [] s.votes i) [ inl none_yet ↦ absurd none_yet | inr j ↦ j ]),
  All-of_In _ s.votes (λ w i. Covers-In _ w (latest_votes-Covers w [] s.votes (inr i))),
)

pub unique_voter-IsDistinct : (s : VoteSet) → IsDistinct vote_id (unique_voter s).votes
unique_voter-IsDistinct s = (unique_voter_lem s).0
