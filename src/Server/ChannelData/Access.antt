-- ===== src/Server/ChannelData/Access.antt =====
-- Who changes a channel, and what a served change of its data leaves.
use tam_backend.Prelude.{
  Bool-cases, Option-cases, filter, any, Text, ℕ, suc, ◌≡◌, refl, ◌⊎◌, inl, inr, Bool, true, false,
  Option, some, List, [], ◌∷◌,
}
use tam_backend.Common.Errors.{
  Error, unauthorized, internal_error, not_found, no_channel_access, Result, ok, err, Result-cases,
}
use tam_backend.Storage.Schema.{CustomerChannel, Db}
use tam_backend.Storage.Channels.{is_link, only_link, get_customer_channel}
use tam_backend.Server.Outcome.{Outcome, Answers, refuse}
use tam_backend.Server.Access.{authorization}
use tam_backend.Server.ChannelData.{
  Catalogue, ChannelRoute, channel_of, handle_channel, with_link, require_channel_access,
  serve_channel,
}

filter-any :
    (p : CustomerChannel → Bool) (ccs : List CustomerChannel) (cc : CustomerChannel)
    → only_link (filter p ccs) ≡ ok cc
    → any p ccs ≡ true
unfolding only_link
filter-any p [] link h = cc
filter-any p (x ∷ ccs) link h = elim (Bool-cases (p x)) [
  | inl e ↦ rw e refl
  | inr e ↦ rw e (filter-any p ccs link (rw e at h))
]

get_customer_channel-ok :
    (up : Bool) (u id : ℕ) (db : Db) (cc : CustomerChannel)
    → get_customer_channel up u id db ≡ ok cc
    → any (is_link u id) db.customer_channels ≡ true
unfolding get_customer_channel
get_customer_channel-ok false u id db link h = cc
get_customer_channel-ok true u id db link h = filter-any (is_link u id) db.customer_channels link h

-- The caller has a valid token and a link to the channel that the request names.
pub record MayChange (validate_jwt : Text → Option ℕ) (header : Text) (route : ChannelRoute)
    (db : Db) : Type 0 where
  pub token : Text
  pub user : ℕ
  pub channel : ℕ
  pub has_token : authorization header ≡ some token
  pub token_is_valid : validate_jwt token ≡ some user
  pub names : channel_of route ≡ ok channel
  pub is_linked : any (is_link user channel) db.customer_channels ≡ true

abbrev pub Refused : Outcome → Db → Type 0
Refused o db = (e : Error) × (o ≡ refuse e db)

with_link-cases :
    (cat : Catalogue) (up : Answers) (route : ChannelRoute) (db : Db) (r : Result CustomerChannel)
    → Refused (with_link cat up route db r) db
      ⊎ ((link : CustomerChannel) × (r ≡ ok link)
          × (with_link cat up route db r ≡ handle_channel cat (λ n. up (suc n)) route db))
unfolding with_link
with_link-cases cat up route db (err not_found) = inl (no_channel_access, refl)
with_link-cases cat up route db (err _) = inl (internal_error, refl)
with_link-cases cat up route db (ok link) = inr (link, refl, refl)

require_channel_access-linked :
    (cat : Catalogue) (up : Answers) (u : ℕ) (route : ChannelRoute) (db : Db)
    → Refused (require_channel_access cat up u route db) db
      ⊎ ((id : ℕ) × (channel_of route ≡ ok id)
          × (any (is_link u id) db.customer_channels ≡ true)
          × (require_channel_access cat up u route db
              ≡ handle_channel cat (λ n. up (suc n)) route db))
unfolding require_channel_access
require_channel_access-linked cat up u route db = elim (Result-cases (channel_of route)) [
  | inl (e, q) ↦ inl (e, rw (q, require_channel_access))
  | inr (id, q) ↦ elim (with_link-cases cat up route db (get_customer_channel (up 0) u id db)) [
    | inl (e, r) ↦ inl (e, rw (q, r, require_channel_access))
    | inr (link, f, r) ↦
        inr
          (id, q, get_customer_channel-ok (up 0) u id db link f, rw (q, r, require_channel_access))
  ]
]

-- A request to change the data of a channel, or to delete it, is refused with an error and leaves
-- the database as it was, with no message sent, unless its token is valid for a user who has a link
-- to the channel that the request names.
pub serve_channel-MayChange :
    (validate_jwt : Text → Option ℕ) (cat : Catalogue) (up : Answers) (header : Text)
    (route : ChannelRoute) (db : Db)
    → Refused (serve_channel validate_jwt cat up header route db) db
      ⊎ MayChange validate_jwt header route db
unfolding serve_channel
serve_channel-MayChange validate_jwt cat up header route db =
    elim (Option-cases (authorization header)) [
      | inl a ↦ inl (unauthorized, rw (a, serve_channel))
      | inr (token, a) ↦ elim (Option-cases (validate_jwt token)) [
        | inl j ↦ inl (unauthorized, rw (a, j, serve_channel))
        | inr (u, j) ↦ elim (require_channel_access-linked cat up u route db) [
          | inl (e, r) ↦ inl (e, rw (a, j, r, serve_channel))
          | inr (id, n, l, r) ↦ inr (record {
            token = token;
            user = u;
            channel = id;
            has_token = a;
            token_is_valid = j;
            names = n;
            is_linked = l;
          })
        ]
      ]
    ]
