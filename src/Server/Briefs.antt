-- ===== src/Server/Briefs.antt =====
-- The routes of briefs: internal/modules/server/brief_handlers.go over
-- internal/modules/storage/briefs.go and `GetCustomerBriefs` of storage/customers.go. A row of
-- `briefs` has no column but its key and times, so the table is the list of its keys. An answer is an
-- error or what the handler sends.
pub mod Unlisted
use tam_backend.Prelude.{
  ◌==◌, if◌then◌else◌, filter, any, lookup, ℕ, Bool, not, Option, none, some, List, [], ◌∷◌, map,
}
use tam_backend.Common.Errors.{
  unauthorized, internal_error, not_found, invalid_uuid, Result, ok, err,
}
use tam_backend.Storage.Customers.{Customers}
use tam_backend.Server.Outcome.{Answers}

-- A row of `customers_briefs`.
pub record CustomerBrief : Type 0 where
  pub of_customer : ℕ
  pub of_brief : ℕ

pub record BriefTables : Type 0 where
  pub briefs : List ℕ
  pub customer_briefs : List CustomerBrief

-- `CreateBrief`; the key is the database's choice.
abbrev pub create_brief : Bool → ℕ → BriefTables → Result BriefTables
create_brief up id t = if up then ok (record t { briefs = id ∷ t.briefs }) else err internal_error

-- `AddBriefCustomer`, which the foreign keys refuse without the two rows.
unfoldable pub add_brief_customer : Bool → ℕ → ℕ → Customers → BriefTables → Result BriefTables
add_brief_customer up brief customer cs t =
    if not up then err internal_error else elim (lookup customer cs) [
      | none ↦ err internal_error
      | some c ↦
          if any (λ b. brief == b) t.briefs
          then ok (record t {
            customer_briefs =
                record { of_customer = customer; of_brief = brief } ∷ t.customer_briefs;
          })
          else err internal_error
    ]

-- `GetBrief`.
abbrev pub find_brief : Bool → ℕ → BriefTables → Result ℕ
find_brief up id t =
    if not up
    then err internal_error
    else if any (λ b. id == b) t.briefs
    then ok id
    else err not_found

-- A link with its edge `Brief`, which is nil unless the query loads it.
pub record LoadedBrief : Type 0 where
  pub link : CustomerBrief
  pub brief_edge : Option ℕ

-- `GetCustomerBriefs`: `WithCustomerBriefs` loads the links and no edges of theirs.
unfoldable pub get_customer_briefs : Bool → ℕ → Customers → BriefTables → Result (List LoadedBrief)
get_customer_briefs up customer cs t =
    if not up then err internal_error else elim (lookup customer cs) [
      | none ↦ err not_found
      | some c ↦ ok (
          map (λ l. record { link = l; brief_edge = none })
            (filter (λ l. customer == l.of_customer) t.customer_briefs))
    ]

-- The handler's loop over the links.
abbrev pub loaded_briefs : List LoadedBrief → List ℕ
loaded_briefs [] = []
loaded_briefs (l ∷ ls) = elim l.brief_edge [
  | none ↦ loaded_briefs ls
  | some b ↦ b ∷ loaded_briefs ls
]

-- The tables after a request, and the answer.
abbrev pub BriefAnswer {ℓ} : Type ℓ → Type ℓ
BriefAnswer A = Result A × BriefTables

-- `AddBrief`: the row, and then its link in a statement of its own.
unfoldable pub add_brief : Answers → ℕ → Option ℕ → Customers → BriefTables → BriefAnswer ℕ
add_brief up id none cs t = (err unauthorized, t)
add_brief up id (some u) cs t = elim (create_brief (up 0) id t) [
  | err _ ↦ (err internal_error, t)
  | ok t' ↦ elim (add_brief_customer (up 1) id u cs t') [
    | err _ ↦ (err internal_error, t')
    | ok t'' ↦ (ok id, t'')
  ]
]

-- `GetBrief` of the server; `id` is `none` if it is no UUID. There is no test of whose brief it is.
unfoldable pub get_brief : Answers → Option ℕ → BriefTables → Result ℕ
get_brief up none t = err invalid_uuid
get_brief up (some id) t = elim (find_brief (up 0) id t) [
  | err not_found ↦ err not_found
  | err _ ↦ err internal_error
  | ok b ↦ ok b
]

-- `ListBriefs`.
unfoldable pub list_briefs : Answers → Option ℕ → Customers → BriefTables → Result (List ℕ)
list_briefs up none cs t = err unauthorized
list_briefs up (some u) cs t = elim (get_customer_briefs (up 0) u cs t) [
  | err _ ↦ err internal_error
  | ok ls ↦ ok (loaded_briefs ls)
]

-- `UpdateBrief`, a placeholder in the source: the status of success, and no change.
abbrev pub update_brief : Option ℕ → Result ℕ
update_brief none = err invalid_uuid
update_brief (some id) = ok 204
