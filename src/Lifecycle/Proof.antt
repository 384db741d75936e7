-- ===== src/Lifecycle/Proof.antt =====
-- server/src/modules/proofs/proof.lifecycle.ts: the words of a proof's status.
use pactagent.Prelude.{ℕ, zero, suc, true, ◌≡◌, refl, sym, ap, ◌∙◌, ◌↔◌, nat_beq, nat_beq_iff, Eq}

pub data ProofStatus : Type 0 where
  submitted under_review accepted rejected needs_changes disputed : ProofStatus

-- The place of a word in the list, by which words are compared.
abbrev pub proof_tag : ProofStatus → ℕ
proof_tag submitted = 0
proof_tag under_review = 1
proof_tag accepted = 2
proof_tag rejected = 3
proof_tag needs_changes = 4
proof_tag disputed = 5

proof_of_tag : ℕ → ProofStatus
proof_of_tag zero = submitted
proof_of_tag (suc zero) = under_review
proof_of_tag (suc (suc zero)) = accepted
proof_of_tag (suc (suc (suc zero))) = rejected
proof_of_tag (suc (suc (suc (suc zero)))) = needs_changes
proof_of_tag _ = disputed

proof_of_tag-tag : (s : ProofStatus) → proof_of_tag (proof_tag s) ≡ s
unfolding proof_of_tag
proof_of_tag-tag submitted = refl
proof_of_tag-tag under_review = refl
proof_of_tag-tag accepted = refl
proof_of_tag-tag rejected = refl
proof_of_tag-tag needs_changes = refl
proof_of_tag-tag disputed = refl

pub proof_beq_iff : (a b : ProofStatus) → (nat_beq (proof_tag a) (proof_tag b) ≡ true) ↔ (a ≡ b)
proof_beq_iff a b = (
  λ h. sym (proof_of_tag-tag a) ∙ ap proof_of_tag ((nat_beq_iff _ _).0 h) ∙ proof_of_tag-tag b,
  λ h. (nat_beq_iff _ _).1 (ap proof_tag h),
)

instance abbrev pub proof_eq : Eq ProofStatus
proof_eq = record { beq = λ a b. nat_beq (proof_tag a) (proof_tag b); beq_iff = proof_beq_iff }
