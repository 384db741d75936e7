-- ===== src/Lifecycle/Milestone.antt =====
-- server/src/modules/milestones/milestone.state-machine.ts: the words of a milestone's status and the moves between them.
use pactagent.Prelude.{
  ℕ, zero, suc, true, ◌≡◌, refl, sym, ap, ◌∙◌, Bool, ◌↔◌, nat_beq, nat_beq_iff, Eq, List, [], ◌∷◌,
  contains,
}
use pactagent.Errors.{Result, invalid_request, require}

pub data MilestoneStatus : Type 0 where
  pending funding_required funded in_progress proof_submitted under_review approved released
        rejected disputed refunded cancelled expired :
      MilestoneStatus

-- The place of a word in the list, by which words are compared.
abbrev pub milestone_tag : MilestoneStatus → ℕ
milestone_tag pending = 0
milestone_tag funding_required = 1
milestone_tag funded = 2
milestone_tag in_progress = 3
milestone_tag proof_submitted = 4
milestone_tag under_review = 5
milestone_tag approved = 6
milestone_tag released = 7
milestone_tag rejected = 8
milestone_tag disputed = 9
milestone_tag refunded = 10
milestone_tag cancelled = 11
milestone_tag expired = 12

milestone_of_tag : ℕ → MilestoneStatus
milestone_of_tag zero = pending
milestone_of_tag (suc zero) = funding_required
milestone_of_tag (suc (suc zero)) = funded
milestone_of_tag (suc (suc (suc zero))) = in_progress
milestone_of_tag (suc (suc (suc (suc zero)))) = proof_submitted
milestone_of_tag (suc (suc (suc (suc (suc zero))))) = under_review
milestone_of_tag (suc (suc (suc (suc (suc (suc zero)))))) = approved
milestone_of_tag (suc (suc (suc (suc (suc (suc (suc zero))))))) = released
milestone_of_tag (suc (suc (suc (suc (suc (suc (suc (suc zero)))))))) = rejected
milestone_of_tag (suc (suc (suc (suc (suc (suc (suc (suc (suc zero))))))))) = disputed
milestone_of_tag (suc (suc (suc (suc (suc (suc (suc (suc (suc (suc zero)))))))))) = refunded
milestone_of_tag (suc (suc (suc (suc (suc (suc (suc (suc (suc (suc (suc zero))))))))))) = cancelled
milestone_of_tag _ = expired

milestone_of_tag-tag : (s : MilestoneStatus) → milestone_of_tag (milestone_tag s) ≡ s
unfolding milestone_of_tag
milestone_of_tag-tag pending = refl
milestone_of_tag-tag funding_required = refl
milestone_of_tag-tag funded = refl
milestone_of_tag-tag in_progress = refl
milestone_of_tag-tag proof_submitted = refl
milestone_of_tag-tag under_review = refl
milestone_of_tag-tag approved = refl
milestone_of_tag-tag released = refl
milestone_of_tag-tag rejected = refl
milestone_of_tag-tag disputed = refl
milestone_of_tag-tag refunded = refl
milestone_of_tag-tag cancelled = refl
milestone_of_tag-tag expired = refl

pub milestone_beq_iff :
    (a b : MilestoneStatus) → (nat_beq (milestone_tag a) (milestone_tag b) ≡ true) ↔ (a ≡ b)
milestone_beq_iff a b = (
  λ h.
      sym (milestone_of_tag-tag a)
      ∙ ap milestone_of_tag ((nat_beq_iff _ _).0 h)
      ∙ milestone_of_tag-tag b,
  λ h. (nat_beq_iff _ _).1 (ap milestone_tag h),
)

instance abbrev pub milestone_eq : Eq MilestoneStatus
milestone_eq = record {
  beq = λ a b. nat_beq (milestone_tag a) (milestone_tag b);
  beq_iff = milestone_beq_iff;
}

-- `VALID_TRANSITIONS`
abbrev pub milestone_transitions : MilestoneStatus → List MilestoneStatus
milestone_transitions pending = funding_required ∷ funded ∷ in_progress ∷ []
milestone_transitions funding_required = funded ∷ refunded ∷ []
milestone_transitions funded = in_progress ∷ disputed ∷ refunded ∷ []
milestone_transitions in_progress = proof_submitted ∷ disputed ∷ []
milestone_transitions proof_submitted = under_review ∷ []
milestone_transitions under_review = approved ∷ rejected ∷ disputed ∷ []
milestone_transitions approved = released ∷ []
milestone_transitions released = []
milestone_transitions rejected = in_progress ∷ []
milestone_transitions disputed = approved ∷ released ∷ refunded ∷ []
milestone_transitions refunded = []
milestone_transitions cancelled = []
milestone_transitions expired = []

-- `canTransitionMilestone`
abbrev pub can_transition_milestone : MilestoneStatus → MilestoneStatus → Bool
can_transition_milestone from to = contains (milestone_transitions from) to

-- `assertMilestoneTransition`
abbrev pub assert_milestone_transition : MilestoneStatus → MilestoneStatus → Result (Unit {0})
assert_milestone_transition from to =
    require (can_transition_milestone from to) (invalid_request "invalid_state_transition")
