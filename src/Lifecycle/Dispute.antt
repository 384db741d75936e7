-- ===== src/Lifecycle/Dispute.antt =====
-- server/src/modules/disputes/dispute.state-machine.ts: the words of a dispute's status.
use pactagent.Prelude.{ℕ, zero, suc, true, ◌≡◌, refl, sym, ap, ◌∙◌, ◌↔◌, nat_beq, nat_beq_iff, Eq}

pub data DisputeStatus : Type 0 where
  opened awaiting_response under_review resolved_release resolved_refund resolved_split cancelled :
      DisputeStatus

-- The place of a word in the list, by which words are compared.
abbrev pub dispute_tag : DisputeStatus → ℕ
dispute_tag opened = 0
dispute_tag awaiting_response = 1
dispute_tag under_review = 2
dispute_tag resolved_release = 3
dispute_tag resolved_refund = 4
dispute_tag resolved_split = 5
dispute_tag cancelled = 6

dispute_of_tag : ℕ → DisputeStatus
dispute_of_tag zero = opened
dispute_of_tag (suc zero) = awaiting_response
dispute_of_tag (suc (suc zero)) = under_review
dispute_of_tag (suc (suc (suc zero))) = resolved_release
dispute_of_tag (suc (suc (suc (suc zero)))) = resolved_refund
dispute_of_tag (suc (suc (suc (suc (suc zero))))) = resolved_split
dispute_of_tag _ = cancelled

dispute_of_tag-tag : (s : DisputeStatus) → dispute_of_tag (dispute_tag s) ≡ s
unfolding dispute_of_tag
dispute_of_tag-tag opened = refl
dispute_of_tag-tag awaiting_response = refl
dispute_of_tag-tag under_review = refl
dispute_of_tag-tag resolved_release = refl
dispute_of_tag-tag resolved_refund = refl
dispute_of_tag-tag resolved_split = refl
dispute_of_tag-tag cancelled = refl

pub dispute_beq_iff :
    (a b : DisputeStatus) → (nat_beq (dispute_tag a) (dispute_tag b) ≡ true) ↔ (a ≡ b)
dispute_beq_iff a b = (
  λ h.
      sym (dispute_of_tag-tag a) ∙ ap dispute_of_tag ((nat_beq_iff _ _).0 h) ∙ dispute_of_tag-tag b,
  λ h. (nat_beq_iff _ _).1 (ap dispute_tag h),
)

instance abbrev pub dispute_eq : Eq DisputeStatus
dispute_eq = record {
  beq = λ a b. nat_beq (dispute_tag a) (dispute_tag b);
  beq_iff = dispute_beq_iff;
}
