-- ===== src/Server/Briefs/Unlisted.antt =====
-- A brief that has been added by internal/modules/server/brief_handlers.go, and the list of briefs.
use tam_backend.Prelude.{
  ◌==◌, ==_refl, Bool-cases, Option-cases, filter, any, lookup, ℕ, ◌≡◌, refl, sym, ◌∙◌, subst, inl,
  inr, Bool, true, ◌&&◌, none, some, List, [], ◌∷◌, map,
}
use tam_backend.Common.Errors.{ok, Result-cases}
use tam_backend.Storage.Customers.{Customers}
use tam_backend.Server.Outcome.{Answers}
use tam_backend.Server.Briefs.{
  CustomerBrief, BriefTables, LoadedBrief, get_customer_briefs, loaded_briefs, add_brief,
  add_brief_customer, get_brief, list_briefs,
}

no_edges :
    (ls : List CustomerBrief)
    → loaded_briefs (map (λ l. record { link = l; brief_edge = none }) ls) ≡ []
no_edges [] = refl
no_edges (l ∷ ls) = no_edges ls

loaded-empty :
    (up : Bool) (u : ℕ) (cs : Customers) (t : BriefTables) (ls : List LoadedBrief)
    → get_customer_briefs up u cs t ≡ ok ls
    → loaded_briefs ls ≡ []
unfolding get_customer_briefs
loaded-empty up u cs t ls h = elim (Bool-cases up) [
  | inr e ↦ let bad = rw (e, get_customer_briefs) at h in cc
  | inl e ↦ elim (Option-cases (lookup u cs)) [
    | inl l ↦ let bad = rw (e, l, get_customer_briefs) at h in cc
    | inr (c, l) ↦
        let mine = filter (λ l. u == l.of_customer) t.customer_briefs in
        let found = rw (e, l, get_customer_briefs) at h in
        let same : map (λ l. record { link = l; brief_edge = none }) mine ≡ ls = cc in
        subst (λ x. loaded_briefs x ≡ []) same (no_edges mine)
  ]
]

list_briefs-empty :
    (up : Answers) (u : ℕ) (cs : Customers) (t : BriefTables) (found : List ℕ)
    → list_briefs up (some u) cs t ≡ ok found
    → found ≡ []
unfolding list_briefs
list_briefs-empty up u cs t found h = elim (Result-cases (get_customer_briefs (up 0) u cs t)) [
  | inl (e, p) ↦ let bad = rw (p, list_briefs) at h in cc
  | inr (ls, p) ↦
      let answered = rw (p, list_briefs) at h in
      let same : loaded_briefs ls ≡ found = cc in sym same ∙ loaded-empty (up 0) u cs t ls p
]

add_brief-stored :
    (up : Answers) (id u b : ℕ) (cs : Customers) (t : BriefTables)
    → (add_brief up id (some u) cs t).0 ≡ ok b
    → let t' = (add_brief up id (some u) cs t).1 in
      (any (λ l. u == l.of_customer && id == l.of_brief) t'.customer_briefs ≡ true)
      × (get_brief (λ n. true) (some id) t' ≡ ok id)
unfolding add_brief add_brief_customer get_brief
add_brief-stored up id u b cs t h = elim (Bool-cases (up 0)) [
  | inr e ↦ let bad = rw (e, add_brief) at h in cc
  | inl e ↦ elim (Bool-cases (up 1)) [
    | inr f ↦ let bad = rw (e, f, add_brief) at h in cc
    | inl f ↦ elim (Option-cases (lookup u cs)) [
      | inl l ↦ let bad = rw (e, f, l, add_brief) at h in cc
      | inr (c, l) ↦
          rw (e, f, l, add_brief)
            (rw (==_refl id, ==_refl u) (rw (==_refl id) refl, rw (==_refl id, get_brief) refl))
    ]
  ]
]

-- A brief that AddBrief has answered with is stored with a link to the user and can be got by its key,
-- and yet every later ListBriefs of the user that succeeds is empty, whatever customers, briefs and
-- links there are by then.
pub add_brief-unlisted :
    (up again : Answers) (id u b : ℕ) (cs cs_then : Customers) (t t_then : BriefTables)
    (found : List ℕ)
    → (add_brief up id (some u) cs t).0 ≡ ok b
    → list_briefs again (some u) cs_then t_then ≡ ok found
    → let t' = (add_brief up id (some u) cs t).1 in
      (any (λ l. u == l.of_customer && id == l.of_brief) t'.customer_briefs ≡ true)
      × (get_brief (λ n. true) (some id) t' ≡ ok id)
      × (found ≡ [])
add_brief-unlisted up again id u b cs cs_then t t_then found added listed =
    let (stored, got) = add_brief-stored up id u b cs t added in
    (stored, got, list_briefs-empty again u cs_then t_then found listed)
