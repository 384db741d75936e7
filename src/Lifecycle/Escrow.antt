-- ===== src/Lifecycle/Escrow.antt =====
-- server/src/modules/escrows/escrow.state-machine.ts: the words of a escrow's status and the moves between them.
use pactagent.Prelude.{
  ℕ, zero, suc, true, ◌≡◌, refl, sym, ap, ◌∙◌, Bool, ◌↔◌, nat_beq, nat_beq_iff, Eq, List, [], ◌∷◌,
  contains,
}
use pactagent.Errors.{Result, invalid_request, require}

pub data EscrowStatus : Type 0 where
  not_created awaiting_funding funding_detected funded release_pending released refund_pending
        refunded reconciliation_required failed :
      EscrowStatus

-- The place of a word in the list, by which words are compared.
abbrev pub escrow_tag : EscrowStatus → ℕ
escrow_tag not_created = 0
escrow_tag awaiting_funding = 1
escrow_tag funding_detected = 2
escrow_tag funded = 3
escrow_tag release_pending = 4
escrow_tag released = 5
escrow_tag refund_pending = 6
escrow_tag refunded = 7
escrow_tag reconciliation_required = 8
escrow_tag failed = 9

escrow_of_tag : ℕ → EscrowStatus
escrow_of_tag zero = not_created
escrow_of_tag (suc zero) = awaiting_funding
escrow_of_tag (suc (suc zero)) = funding_detected
escrow_of_tag (suc (suc (suc zero))) = funded
escrow_of_tag (suc (suc (suc (suc zero)))) = release_pending
escrow_of_tag (suc (suc (suc (suc (suc zero))))) = released
escrow_of_tag (suc (suc (suc (suc (suc (suc zero)))))) = refund_pending
escrow_of_tag (suc (suc (suc (suc (suc (suc (suc zero))))))) = refunded
escrow_of_tag (suc (suc (suc (suc (suc (suc (suc (suc zero)))))))) = reconciliation_required
escrow_of_tag _ = failed

escrow_of_tag-tag : (s : EscrowStatus) → escrow_of_tag (escrow_tag s) ≡ s
unfolding escrow_of_tag
escrow_of_tag-tag not_created = refl
escrow_of_tag-tag awaiting_funding = refl
escrow_of_tag-tag funding_detected = refl
escrow_of_tag-tag funded = refl
escrow_of_tag-tag release_pending = refl
escrow_of_tag-tag released = refl
escrow_of_tag-tag refund_pending = refl
escrow_of_tag-tag refunded = refl
escrow_of_tag-tag reconciliation_required = refl
escrow_of_tag-tag failed = refl

pub escrow_beq_iff : (a b : EscrowStatus) → (nat_beq (escrow_tag a) (escrow_tag b) ≡ true) ↔ (a ≡ b)
escrow_beq_iff a b = (
  λ h. sym (escrow_of_tag-tag a) ∙ ap escrow_of_tag ((nat_beq_iff _ _).0 h) ∙ escrow_of_tag-tag b,
  λ h. (nat_beq_iff _ _).1 (ap escrow_tag h),
)

instance abbrev pub escrow_eq : Eq EscrowStatus
escrow_eq = record { beq = λ a b. nat_beq (escrow_tag a) (escrow_tag b); beq_iff = escrow_beq_iff }

-- `VALID_TRANSITIONS`
abbrev pub escrow_transitions : EscrowStatus → List EscrowStatus
escrow_transitions not_created = awaiting_funding ∷ reconciliation_required ∷ failed ∷ []
escrow_transitions awaiting_funding =
    funding_detected ∷ funded ∷ reconciliation_required ∷ failed ∷ []
escrow_transitions funding_detected = funded ∷ reconciliation_required ∷ failed ∷ []
escrow_transitions funded = release_pending ∷ refund_pending ∷ reconciliation_required ∷ []
escrow_transitions release_pending = released ∷ reconciliation_required ∷ failed ∷ []
escrow_transitions released = reconciliation_required ∷ []
escrow_transitions refund_pending = refunded ∷ reconciliation_required ∷ failed ∷ []
escrow_transitions refunded = reconciliation_required ∷ []
escrow_transitions reconciliation_required =
    awaiting_funding ∷ funding_detected ∷ funded ∷ release_pending ∷ released ∷ refund_pending
    ∷ refunded ∷ failed ∷ []
escrow_transitions failed = funded ∷ []

-- `canTransitionEscrow`
abbrev pub can_transition_escrow : EscrowStatus → EscrowStatus → Bool
can_transition_escrow from to = contains (escrow_transitions from) to

-- `assertEscrowTransition`
abbrev pub assert_escrow_transition : EscrowStatus → EscrowStatus → Result (Unit {0})
assert_escrow_transition from to =
    require (can_transition_escrow from to) (invalid_request "invalid_state_transition")
