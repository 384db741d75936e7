-- ===== src/Lifecycle/Agreement.antt =====
-- server/src/modules/agreements/agreement.state-machine.ts: the words of a agreement's status and the moves between them.
use pactagent.Prelude.{
  ℕ, zero, suc, true, ◌≡◌, refl, sym, ap, ◌∙◌, Bool, ◌↔◌, nat_beq, nat_beq_iff, Eq, List, [], ◌∷◌,
  contains,
}
use pactagent.Errors.{Result, invalid_request, require}

pub data AgreementStatus : Type 0 where
  draft pending_acceptance accepted funding_required funded in_progress proof_submitted under_review
        approved release_pending released rejected disputed cancelled refunded expired :
      AgreementStatus

-- The place of a word in the list, by which words are compared.
abbrev pub agreement_tag : AgreementStatus → ℕ
agreement_tag draft = 0
agreement_tag pending_acceptance = 1
agreement_tag accepted = 2
agreement_tag funding_required = 3
agreement_tag funded = 4
agreement_tag in_progress = 5
agreement_tag proof_submitted = 6
agreement_tag under_review = 7
agreement_tag approved = 8
agreement_tag release_pending = 9
agreement_tag released = 10
agreement_tag rejected = 11
agreement_tag disputed = 12
agreement_tag cancelled = 13
agreement_tag refunded = 14
agreement_tag expired = 15

agreement_of_tag : ℕ → AgreementStatus
agreement_of_tag zero = draft
agreement_of_tag (suc zero) = pending_acceptance
agreement_of_tag (suc (suc zero)) = accepted
agreement_of_tag (suc (suc (suc zero))) = funding_required
agreement_of_tag (suc (suc (suc (suc zero)))) = funded
agreement_of_tag (suc (suc (suc (suc (suc zero))))) = in_progress
agreement_of_tag (suc (suc (suc (suc (suc (suc zero)))))) = proof_submitted
agreement_of_tag (suc (suc (suc (suc (suc (suc (suc zero))))))) = under_review
agreement_of_tag (suc (suc (suc (suc (suc (suc (suc (suc zero)))))))) = approved
agreement_of_tag (suc (suc (suc (suc (suc (suc (suc (suc (suc zero))))))))) = release_pending
agreement_of_tag (suc (suc (suc (suc (suc (suc (suc (suc (suc (suc zero)))))))))) = released
agreement_of_tag (suc (suc (suc (suc (suc (suc (suc (suc (suc (suc (suc zero))))))))))) = rejected
agreement_of_tag (suc (suc (suc (suc (suc (suc (suc (suc (suc (suc (suc (suc zero)))))))))))) =
    disputed
agreement_of_tag
      (suc (suc (suc (suc (suc (suc (suc (suc (suc (suc (suc (suc (suc zero))))))))))))) =
    cancelled
agreement_of_tag
      (suc (suc (suc (suc (suc (suc (suc (suc (suc (suc (suc (suc (suc (suc zero)))))))))))))) =
    refunded
agreement_of_tag _ = expired

agreement_of_tag-tag : (s : AgreementStatus) → agreement_of_tag (agreement_tag s) ≡ s
unfolding agreement_of_tag
agreement_of_tag-tag draft = refl
agreement_of_tag-tag pending_acceptance = refl
agreement_of_tag-tag accepted = refl
agreement_of_tag-tag funding_required = refl
agreement_of_tag-tag funded = refl
agreement_of_tag-tag in_progress = refl
agreement_of_tag-tag proof_submitted = refl
agreement_of_tag-tag under_review = refl
agreement_of_tag-tag approved = refl
agreement_of_tag-tag release_pending = refl
agreement_of_tag-tag released = refl
agreement_of_tag-tag rejected = refl
agreement_of_tag-tag disputed = refl
agreement_of_tag-tag cancelled = refl
agreement_of_tag-tag refunded = refl
agreement_of_tag-tag expired = refl

pub agreement_beq_iff :
    (a b : AgreementStatus) → (nat_beq (agreement_tag a) (agreement_tag b) ≡ true) ↔ (a ≡ b)
agreement_beq_iff a b = (
  λ h.
      sym (agreement_of_tag-tag a)
      ∙ ap agreement_of_tag ((nat_beq_iff _ _).0 h)
      ∙ agreement_of_tag-tag b,
  λ h. (nat_beq_iff _ _).1 (ap agreement_tag h),
)

instance abbrev pub agreement_eq : Eq AgreementStatus
agreement_eq = record {
  beq = λ a b. nat_beq (agreement_tag a) (agreement_tag b);
  beq_iff = agreement_beq_iff;
}

-- `VALID_TRANSITIONS`
abbrev pub agreement_transitions : AgreementStatus → List AgreementStatus
agreement_transitions draft = pending_acceptance ∷ []
agreement_transitions pending_acceptance = accepted ∷ []
agreement_transitions accepted = funding_required ∷ []
agreement_transitions funding_required = funded ∷ cancelled ∷ []
agreement_transitions funded = in_progress ∷ refunded ∷ disputed ∷ []
agreement_transitions in_progress = proof_submitted ∷ disputed ∷ []
agreement_transitions proof_submitted = under_review ∷ []
agreement_transitions under_review = approved ∷ rejected ∷ disputed ∷ []
agreement_transitions approved = release_pending ∷ []
agreement_transitions release_pending = released ∷ []
agreement_transitions released = []
agreement_transitions rejected = in_progress ∷ []
agreement_transitions disputed = approved ∷ refunded ∷ released ∷ []
agreement_transitions cancelled = []
agreement_transitions refunded = []
agreement_transitions expired = cancelled ∷ []

-- `canTransitionAgreement`
abbrev pub can_transition_agreement : AgreementStatus → AgreementStatus → Bool
can_transition_agreement from to = contains (agreement_transitions from) to

-- `assertAgreementTransition`
abbrev pub assert_agreement_transition : AgreementStatus → AgreementStatus → Result (Unit {0})
assert_agreement_transition from to =
    require (can_transition_agreement from to) (invalid_request "invalid_state_transition")
