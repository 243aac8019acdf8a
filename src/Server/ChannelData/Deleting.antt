-- ===== src/Server/ChannelData/Deleting.antt =====
-- What is left of the deals of a channel that `DeleteChannel` deletes.
use tam_backend.Prelude.{
  ◌==◌, Table, lookup, ℕ, ◌≡◌, sym, subst, ◌≢◌, Bool, true, not, some, [], ◌∷◌, arith,
}
use tam_backend.Storage.Schema.{Deal, Db}
use tam_backend.Storage.Channels.{keep_rows, delete_channel}
use tam_backend.Server.Outcome.{success, Answers}
use tam_backend.Server.ChannelData.{delete_channel_handler}

module _ {ℓ} {A : Type ℓ} (keep : ℕ → A → Bool) where
  lookup-keep_rows_kept :
      (i : ℕ) (v : A) (t : Table A) → lookup i (keep_rows keep t) ≡ some v → keep i v ≡ true
  unfolding keep_rows
  lookup-keep_rows_kept i v [] h = cc
  lookup-keep_rows_kept i v ((j, w) ∷ t) h = ground (arith, lookup-keep_rows_kept i v t)

  lookup-keep_rows :
      (i : ℕ) (v : A) (t : Table A)
      → lookup i t ≡ some v
      → keep i v ≡ true
      → lookup i (keep_rows keep t) ≡ some v
  unfolding keep_rows
  lookup-keep_rows i v [] h k = cc
  lookup-keep_rows i v ((j, w) ∷ t) h k = ground (arith, lookup-keep_rows i v t)

delete_channel_handler-success :
    (up : Answers) (id : ℕ) (db : Db) (code : ℕ)
    → (delete_channel_handler up id db).reply ≡ success code
    → ((delete_channel_handler up id db).db.deals
        ≡ keep_rows (λ j d. not (d.channel_id == id)) db.deals)
      × ((delete_channel_handler up id db).db.customers ≡ db.customers)
unfolding delete_channel_handler delete_channel
delete_channel_handler-success up id db code h = ground arith

not_channel : (a b : ℕ) → not (a == b) ≡ true → a ≢ b
not_channel a b h e = ground arith

-- A served `DeleteChannel` leaves no deal of the channel, whatever its status, keeps every deal of
-- another channel, and leaves all customers as they were: the price that a deleted deal has locked
-- stays locked.
pub delete_channel_handler-deals :
    (up : Answers) (id : ℕ) (db : Db) (code : ℕ)
    → (delete_channel_handler up id db).reply ≡ success code
    → ((i : ℕ) (d : Deal)
        → lookup i (delete_channel_handler up id db).db.deals ≡ some d
        → d.channel_id ≢ id)
      × ((i : ℕ) (d : Deal)
          → lookup i db.deals ≡ some d
          → d.channel_id ≢ id
          → lookup i (delete_channel_handler up id db).db.deals ≡ some d)
      × ((delete_channel_handler up id db).db.customers ≡ db.customers)
delete_channel_handler-deals up id db code h =
    let (deals, customers) = delete_channel_handler-success up id db code h in
    let keep = λ (j : ℕ) (d : Deal). not (d.channel_id == id) in
    (
      (λ i d e.
          not_channel d.channel_id id
            (lookup-keep_rows_kept keep i d db.deals (subst (λ t. lookup i t ≡ some d) deals e))),
      (λ i d e ne.
          subst (λ t. lookup i t ≡ some d) (sym deals)
            (lookup-keep_rows keep i d db.deals e (ground (arith, ne)))),
      customers,
    )
