-- ===== src/Lifecycle/Reachability.antt =====
-- What the life cycles allow over any number of moves.
use pactagent.Prelude.{◌≡◌, Bool, true, false, ◌⊎◌, ◌&&◌, List, [], ◌∷◌, arith, contains, inr}
use pactagent.Lifecycle.Agreement.{AgreementStatus, agreement_eq, can_transition_agreement}
use pactagent.Lifecycle.Escrow.{EscrowStatus, escrow_eq, can_transition_escrow}
use pactagent.Lifecycle.Chains.{AgreementChain, path_end}

-- The states in which no money has been put under the agreement.
abbrev is_unfunded : AgreementStatus → Bool
is_unfunded AgreementStatus.draft = true
is_unfunded AgreementStatus.pending_acceptance = true
is_unfunded AgreementStatus.accepted = true
is_unfunded AgreementStatus.funding_required = true
is_unfunded AgreementStatus.cancelled = true
is_unfunded AgreementStatus.expired = true
is_unfunded _ = false

leave_unfunded :
    (s t : AgreementStatus)
    → can_transition_agreement s t ≡ true
    → is_unfunded s ≡ true
    → (t ≡ AgreementStatus.funded) ⊎ (is_unfunded t ≡ true)
leave_unfunded s t h u = ground arith

-- Neither approved nor disputed so far, nor past that.
abbrev is_unsettled : AgreementStatus → Bool
is_unsettled AgreementStatus.approved = false
is_unsettled AgreementStatus.disputed = false
is_unsettled AgreementStatus.release_pending = false
is_unsettled AgreementStatus.released = false
is_unsettled _ = true

leave_unsettled :
    (s t : AgreementStatus)
    → can_transition_agreement s t ≡ true
    → (is_unsettled s ≡ true)
    → (t ≡ AgreementStatus.approved) ⊎ ((t ≡ AgreementStatus.disputed) ⊎ (is_unsettled t ≡ true))
leave_unsettled s t h u = ground arith

needs_funded :
    (s : AgreementStatus) (path : List AgreementStatus)
    → AgreementChain s path
    → is_unfunded s ≡ true
    → (contains path AgreementStatus.funded ≡ true) ⊎ (is_unfunded (path_end s path) ≡ true)
needs_funded s [] c u = inr u
needs_funded s (t ∷ path) c u = ground (arith, leave_unfunded s t c.0 u, needs_funded t path c.1)

needs_decision :
    (s : AgreementStatus) (path : List AgreementStatus)
    → AgreementChain s path
    → is_unsettled s ≡ true
    → (contains path AgreementStatus.approved ≡ true)
      ⊎ ((contains path AgreementStatus.disputed ≡ true) ⊎ (is_unsettled (path_end s path) ≡ true))
needs_decision s [] c u = inr (inr u)
needs_decision s (t ∷ path) c u =
    ground (arith, leave_unsettled s t c.0 u, needs_decision t path c.1)

-- Whatever moves take an agreement from `draft` to `released`, it has been `funded` on the way, and
-- it has been `approved` or `disputed`.
pub released_needs_funding :
    (path : List AgreementStatus)
    → AgreementChain AgreementStatus.draft path
    → path_end AgreementStatus.draft path ≡ AgreementStatus.released
    → (contains path AgreementStatus.funded ≡ true)
      × ((contains path AgreementStatus.approved ≡ true)
          ⊎ (contains path AgreementStatus.disputed ≡ true))
released_needs_funding path c e = (
  ground (arith, needs_funded AgreementStatus.draft path c),
  ground (arith, needs_decision AgreementStatus.draft path c),
)

-- Each status of the path follows the one before it by a move that the escrow's table allows.
abbrev pub EscrowChain : EscrowStatus → List EscrowStatus → Type 0
EscrowChain from [] = Unit
EscrowChain from (to ∷ path) = (can_transition_escrow from to ≡ true) × EscrowChain to path

-- An escrow's history that does not pass `reconciliation_required` never holds both `released` and
-- `refunded`.
pub settles_once :
    (s : EscrowStatus) (path : List EscrowStatus)
    → EscrowChain s path
    → contains path EscrowStatus.reconciliation_required ≡ false
    → (contains (s ∷ path) EscrowStatus.released && contains (s ∷ path) EscrowStatus.refunded)
      ≡ false
settles_once EscrowStatus.released [] c n = ground arith
settles_once s [] c n = ground arith
settles_once EscrowStatus.released (t ∷ path) c n = ground arith
settles_once s (t ∷ path) c n = ground (arith, settles_once t path c.1)
