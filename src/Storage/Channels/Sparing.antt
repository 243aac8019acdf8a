-- ===== src/Storage/Channels/Sparing.antt =====
-- The writes of internal/modules/storage to channels and links, seen from the customers.
use tam_backend.Prelude.{
  Bool-cases, Option-cases, lookup, ℕ, ◌≡◌, refl, inl, inr, Bool, true, false,
}
use tam_backend.Common.Errors.{Result, ok, err, Result-cases}
use tam_backend.Storage.Schema.{Channel, Role, Db}
use tam_backend.Storage.Channels.{
  channel_by_tg_id, create_channel, update_channel, get_customer_channel, add_customer_channel,
  update_customer_channel_role, delete_channel,
}

-- A statement that succeeds leaves the customers as they are.
abbrev pub Spares : Db → Result Db → Type 0
Spares db (err e) = Unit
Spares db (ok db') = db'.customers ≡ db.customers

pub update_channel-Spares :
    (up : Bool) (id : ℕ) (f : Channel → Channel) (db : Db) → Spares db (update_channel up id f db)
unfolding update_channel
update_channel-Spares up id f db = elim (Bool-cases up) [
  | inr e ↦ rw e tt
  | inl e ↦ elim (Option-cases (lookup id db.channels)) [
    | inl l ↦ rw (e, l) tt
    | inr (c, l) ↦ rw (e, l) refl
  ]
]

pub delete_channel-Spares : (up : Bool) (id : ℕ) (db : Db) → Spares db (delete_channel up id db)
unfolding delete_channel
delete_channel-Spares true id db = refl
delete_channel-Spares false id db = tt

pub create_channel-Spares :
    (up : Bool) (id : ℕ) (c : Channel) (db : Db) → Spares db (create_channel up id c db)
unfolding create_channel
create_channel-Spares up id c db = elim (Bool-cases up) [
  | inr e ↦ rw e tt
  | inl e ↦ elim (Option-cases (channel_by_tg_id c.tg_id db.channels)) [
    | inl l ↦ rw (e, l) refl
    | inr (x, l) ↦ rw (e, l) tt
  ]
]

pub add_customer_channel-Spares :
    (up : Bool) (u id : ℕ) (r : Role) (db : Db) → Spares db (add_customer_channel up u id r db)
unfolding add_customer_channel
add_customer_channel-Spares up u id r db = elim (Bool-cases up) [
  | inr e ↦ rw e tt
  | inl e ↦ elim (Option-cases (lookup u db.customers)) [
    | inl l ↦ rw (e, l) tt
    | inr (x, l) ↦ elim (Option-cases (lookup id db.channels)) [
      | inl k ↦ rw (e, l, k) tt
      | inr (y, k) ↦ rw (e, l, k) refl
    ]
  ]
]

pub update_customer_channel_role-Spares :
    (read_up write_up : Bool) (u id : ℕ) (r : Role) (db : Db)
    → Spares db (update_customer_channel_role read_up write_up u id r db)
unfolding update_customer_channel_role
update_customer_channel_role-Spares read_up write_up u id r db =
    elim (Result-cases (get_customer_channel read_up u id db)) [
      | inl (e, p) ↦ rw (p, update_customer_channel_role) tt
      | inr (l, p) ↦ elim (Bool-cases write_up) [
        | inl w ↦ rw (p, w, update_customer_channel_role) refl
        | inr w ↦ rw (p, w, update_customer_channel_role) tt
      ]
    ]
