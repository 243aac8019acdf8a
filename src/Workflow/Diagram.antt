-- ===== src/Workflow/Diagram.antt =====
-- The diagram of the statuses of internal/common/constants/deal_status, as the API moves a deal.
use tam_backend.Prelude.{
  lookup, modify, lookup-modify_ne, lookup-modify-some, ℕ, ◌≡◌, refl, ◌∙◌, subst, ◌⊎◌, inl, inr,
  Bool, some, ℕ_discrete,
}
use tam_backend.Common.DealStatus.{
  DealStatus, draft, pending, discussion, in_progress, awaiting_approval, awaiting_approval_time,
  awaiting_publication, canceled, expired,
}
use tam_backend.Storage.Schema.{Deal}
use tam_backend.Storage.Deals.{Deals, update_deal}
use tam_backend.Storage.Deals.Update.{update_deal-cases}

-- The statuses from which a deal can be cancelled.
pub data IsOpen : DealStatus → Type 0 where
  open_draft : IsOpen draft
  open_pending : IsOpen pending
  open_discussion : IsOpen discussion
  open_in_progress : IsOpen in_progress
  open_awaiting_approval : IsOpen awaiting_approval
  open_awaiting_approval_time : IsOpen awaiting_approval_time
  open_awaiting_publication : IsOpen awaiting_publication

infix 40 ◌⟶◌
pub data ◌⟶◌ : DealStatus → DealStatus → Type 0 where
  make : draft ⟶ pending
  make_late : draft ⟶ expired
  accept : pending ⟶ in_progress
  propose : in_progress ⟶ awaiting_approval_time
  propose_late : in_progress ⟶ expired
  decline : awaiting_approval_time ⟶ in_progress
  approve : awaiting_approval_time ⟶ awaiting_publication
  cancel : {s : DealStatus} → IsOpen s → s ⟶ canceled

-- What a request may do to a deal: nothing to its parties, its price and the mark of its refund, and
-- to its status nothing or a step along the diagram.
pub record Advances (d : Deal) (d' : Deal) : Type 0 where
  pub same_advertiser : d'.advertiser_customer_id ≡ d.advertiser_customer_id
  pub same_manager : d'.channel_manager_id ≡ d.channel_manager_id
  pub same_price : d'.ton_price ≡ d.ton_price
  pub same_refund : d'.balance_refunded ≡ d.balance_refunded
  pub step : (d'.status ≡ d.status) ⊎ (d.status ⟶ d'.status)

pub Advances-refl : (d : Deal) → Advances d d
Advances-refl d = record {
  same_advertiser = refl;
  same_manager = refl;
  same_price = refl;
  same_refund = refl;
  step = inl refl;
}

-- The deal `j`, which was `d`, is still in the table and has advanced from `d`.
abbrev pub Row : ℕ → Deal → Deals → Type 0
Row j d ds = (d' : Deal) × (lookup j ds ≡ some d') × Advances d d'

pub Row-update_deal :
    (up : Bool) (id : ℕ) (f : Deal → Deal) (ds : Deals) (j : ℕ) (d : Deal)
    → lookup j ds ≡ some d
    → (j ≡ id → Advances d (f d))
    → Row j d (update_deal up id f ds).1
Row-update_deal up id f ds j d e adv = elim (update_deal-cases up id f ds) [
  | inl (x, r) ↦ rw r (d, e, Advances-refl d)
  | inr (d₀, e₀, r) ↦ elim (ℕ_discrete j id) [
    | yes p ↦ rw r (
      f d,
      subst (λ k. lookup j (modify k f ds) ≡ some (f d)) p (lookup-modify-some j f ds d e),
      adv p,
    )
    | no p ↦ rw r (d, lookup-modify_ne id f j ds p ∙ e, Advances-refl d)
  ]
]
