-- ===== src/Bot/Publishing/Pictures.antt =====
-- The order of the pictures of a post in `sendContent`.
use mathlib.Core.List.{Permᴰ}
use tam_backend.Prelude.{
  ◌==◌, ==_iff, Bool-cases, All, Text, ℕ, ◌≡◌, refl, sym, ap, ◌∙◌, subst, ◌≢◌, inl, inr, List, [],
  ◌∷◌, arith,
}
use tam_backend.Storage.Schema.{MediaItem}
use tam_backend.Bot.Publishing.{insert_item, Post, no_images, sort_items, send_content}

-- Each picture is the one of its message in the chat.
abbrev pub FromChat : (ℕ → MediaItem) → List MediaItem → Type 0
FromChat chat = All (λ (i : MediaItem). chat i.msg_id ≡ i)

insert_item_comm_ne :
    (a b : MediaItem) (is : List MediaItem)
    → a.msg_id ≢ b.msg_id
    → insert_item a (insert_item b is) ≡ insert_item b (insert_item a is)
unfolding insert_item
insert_item_comm_ne a b [] ne = ground arith
insert_item_comm_ne a b (j ∷ js) ne = ground (arith, insert_item_comm_ne a b js ne)

insert_item_comm :
    (chat : ℕ → MediaItem) (a b : MediaItem) (is : List MediaItem)
    → chat a.msg_id ≡ a
    → chat b.msg_id ≡ b
    → insert_item a (insert_item b is) ≡ insert_item b (insert_item a is)
insert_item_comm chat a b is from_a from_b = elim (Bool-cases (a.msg_id == b.msg_id)) [
  | inr e ↦ insert_item_comm_ne a b is (ground (arith, e))
  | inl e ↦ let same : a ≡ b = sym from_a ∙ ap chat ((==_iff a.msg_id b.msg_id).0 e) ∙ from_b in cc
]

FromChat-Permᴰ :
    (chat : ℕ → MediaItem) {xs ys : List MediaItem}
    → Permᴰ xs ys
    → FromChat chat xs
    → FromChat chat ys
FromChat-Permᴰ chat Permᴰ.nil from = from
FromChat-Permᴰ chat (Permᴰ.cons e p) from =
    (subst (λ (i : MediaItem). chat i.msg_id ≡ i) e from.0, FromChat-Permᴰ chat p from.1)
FromChat-Permᴰ chat (Permᴰ.swap e f) from = (
  subst (λ (i : MediaItem). chat i.msg_id ≡ i) f from.1.0,
  (subst (λ (i : MediaItem). chat i.msg_id ≡ i) e from.0, from.1.1),
)
FromChat-Permᴰ chat (Permᴰ.trans p q) from = FromChat-Permᴰ chat q (FromChat-Permᴰ chat p from)

sort_items-Permᴰ :
    (chat : ℕ → MediaItem) {xs ys : List MediaItem}
    → Permᴰ xs ys
    → FromChat chat xs
    → sort_items xs ≡ sort_items ys
unfolding sort_items
sort_items-Permᴰ chat Permᴰ.nil from = refl
sort_items-Permᴰ chat (Permᴰ.cons e p) from =
    λ i. insert_item (e i) (sort_items-Permᴰ chat p from.1 i)
sort_items-Permᴰ chat (Permᴰ.swap {a} {b} {l} e f) from =
    insert_item_comm chat a b (sort_items l) from.0 from.1.0
    ∙ (λ i. insert_item (f i) (insert_item (e i) (sort_items l)))
sort_items-Permᴰ chat (Permᴰ.trans p q) from =
    sort_items-Permᴰ chat p from ∙ sort_items-Permᴰ chat q (FromChat-Permᴰ chat p from)

no_images-Permᴰ : {xs ys : List MediaItem} → Permᴰ xs ys → no_images xs ≡ no_images ys
no_images-Permᴰ Permᴰ.nil = refl
no_images-Permᴰ (Permᴰ.cons e p) = refl
no_images-Permᴰ (Permᴰ.swap e f) = refl
no_images-Permᴰ (Permᴰ.trans p q) = no_images-Permᴰ p ∙ no_images-Permᴰ q

-- If every picture is that of its message, a text goes out with the same post, or fails alike, for
-- every order in which its pictures are stored.
pub send_content-perm :
    (post : Post) (chat : ℕ → MediaItem) (text : Text) (xs ys : List MediaItem)
    → Permᴰ xs ys
    → FromChat chat xs
    → send_content post (record { message_text = text; message_images = xs })
      ≡ send_content post (record { message_text = text; message_images = ys })
unfolding send_content
send_content-perm post chat text xs ys p from =
    rw (no_images-Permᴰ p, sort_items-Permᴰ chat p from) refl
