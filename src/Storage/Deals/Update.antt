-- ===== src/Storage/Deals/Update.antt =====
-- What `UpdateDeal` and the queries of internal/modules/storage/deals.go return.
use tam_backend.Prelude.{
  Option-cases, lookup, modify, ℕ, ◌≡◌, refl, ◌⊎◌, inl, inr, Bool, true, false, none, some,
}
use tam_backend.Common.Errors.{Error, internal_error, not_found}
use tam_backend.Storage.Schema.{Deal}
use tam_backend.Storage.Deals.{Deals, update_deal}

-- An update fails and changes nothing, or finds its deal and changes that row.
pub update_deal-cases :
    (up : Bool) (id : ℕ) (f : Deal → Deal) (ds : Deals)
    → ((e : Error) × (update_deal up id f ds ≡ (some e, ds)))
      ⊎ ((d : Deal) × (lookup id ds ≡ some d) × (update_deal up id f ds ≡ (none, modify id f ds)))
unfolding update_deal
update_deal-cases false id f ds = inl (internal_error, refl)
update_deal-cases true id f ds = elim (Option-cases (lookup id ds)) [
  | inl e ↦ inl (not_found, rw e)
  | inr (d, e) ↦ inr (d, e, rw e)
]

-- A served update of a deal that exists.
pub update_deal-served :
    (id : ℕ) (f : Deal → Deal) (ds : Deals) (d : Deal)
    → lookup id ds ≡ some d
    → update_deal true id f ds ≡ (none, modify id f ds)
unfolding update_deal
update_deal-served id f ds d e = rw e

pub update_deal-down :
    (id : ℕ) (f : Deal → Deal) (ds : Deals) → update_deal false id f ds ≡ (some internal_error, ds)
unfolding update_deal
update_deal-down id f ds = refl

pub update_deal-missing :
    (id : ℕ) (f : Deal → Deal) (ds : Deals)
    → lookup id ds ≡ none
    → update_deal true id f ds ≡ (some not_found, ds)
unfolding update_deal
update_deal-missing id f ds e = rw e refl
