-- ===== src/Bot/Drafting/Albums.antt =====
-- How `onMedia` collects the pictures of an album, which Telegram sends one by one.
use tam_backend.Storage.Schema.{MediaItem}
use tam_backend.Prelude.{
  if◌then◌else◌, All, lookup, Text, text_eq, text_eq_refl, is_empty, ℕ, ◌≡◌, refl, ap, ◌∙◌, true,
  false, some, List, [], ◌∷◌, ◌++◌, map, append_assoc, append-nil, arith,
}
use tam_backend.Bot.States.{
  Draft, StateData, draft_data, States, set_state, get_state, draft_of, lookup-upsert_self,
}
use tam_backend.Bot.Publishing.{Post}
use tam_backend.Bot.Drafting.{drafting, Media, add_item, add_media, with_media, on_media}

-- The pictures arrive one after the other, and the database serves all.
abbrev pub send_all : Post → ℕ → List Media → States → States
send_all post user [] states = states
send_all post user (m ∷ ms) states =
    send_all post user ms (on_media post true (λ n. true) user m states)

-- The last caption that is not empty, or the text of before.
abbrev pub last_caption : Text → List Media → Text
last_caption t [] = t
last_caption t (m ∷ ms) = last_caption (if is_empty m.caption then t else m.caption) ms

-- Every picture is of the album.
abbrev pub OfAlbum : Text → List Media → Type 0
OfAlbum a = All (λ m. m.album ≡ a)

abbrev pub items : List Media → List MediaItem
items = map (λ (m : Media). m.media_item)

on_media-served :
    (post : Post) (user k : ℕ) (d : StateData) (m : Media) (states : States)
    → is_empty m.album ≡ false
    → lookup user states ≡ some (drafting k d)
    → lookup user (on_media post true (λ n. true) user m states)
      ≡ some (drafting k (draft_data (add_media m (draft_of d))))
unfolding on_media get_state with_media set_state
on_media-served post user k d m states e l =
    rw (l, e) (lookup-upsert_self user (drafting k (draft_data (add_media m (draft_of d)))) states)

-- A further picture of the album.
add_media-same :
    (m : Media) (d : Draft)
    → is_empty m.album ≡ false
    → text_eq d.album_id m.album ≡ true
    → add_media m d ≡ record d {
      images = d.images ++ (m.media_item ∷ []);
      text = if is_empty m.caption then d.text else m.caption;
    }
unfolding add_media add_item
add_media-same m d e s = ground (arith, e, s)

-- The first picture of another album.
add_media-new :
    (m : Media) (d : Draft)
    → is_empty m.album ≡ false
    → text_eq d.album_id m.album ≡ false
    → add_media m d ≡ record d {
      album_id = m.album;
      images = m.media_item ∷ [];
      text = if is_empty m.caption then [] else m.caption;
    }
unfolding add_media add_item
add_media-new m d e s = ground (arith, e, s)

module _ (post : Post) (user k : ℕ) (a : Text) (named : is_empty a ≡ false) where
  remaining_pictures :
      (d : Draft) (ms : List Media) (states : States)
      → OfAlbum a ms
      → d.album_id ≡ a
      → lookup user states ≡ some (drafting k (draft_data d))
      → lookup user (send_all post user ms states)
        ≡ some (
            drafting k (
              draft_data
                (record d { images = d.images ++ items ms; text = last_caption d.text ms })))
  remaining_pictures d [] states of same l = simp (append-nil, l)
  remaining_pictures d (m ∷ ms) states of same l =
      let d' : Draft = record d {
        images = d.images ++ (m.media_item ∷ []);
        text = if is_empty m.caption then d.text else m.caption;
      } in
      let album : is_empty m.album ≡ false = rw of.0 named in
      let again : text_eq d.album_id m.album ≡ true = rw (same, of.0) (text_eq_refl a) in
      let first =
        on_media-served post user k (draft_data d) m states album l
        ∙ ap (λ (x : Draft). some (drafting k (draft_data x))) (add_media-same m d album again) in
      simp append_assoc at
        (remaining_pictures d' ms (on_media post true (λ n. true) user m states) of.1 same first)

  -- If a user who is asked for a post sends the pictures of one album, another one than that of the
  -- draft before, and the database serves it, then in the end the draft has exactly these pictures,
  -- in the order in which they came, the last caption that is not empty, or no text, and the
  -- previews of before, for the same deal.
  pub send_all-collects :
      (d : StateData) (m : Media) (ms : List Media) (states : States)
      → OfAlbum a (m ∷ ms)
      → text_eq (draft_of d).album_id a ≡ false
      → lookup user states ≡ some (drafting k d)
      → lookup user (send_all post user (m ∷ ms) states)
        ≡ some (
            drafting k (
              draft_data (record {
                text = last_caption [] (m ∷ ms);
                images = items (m ∷ ms);
                album_id = a;
                preview_ids = (draft_of d).preview_ids;
              })))
  send_all-collects d m ms states of other l =
      let d' : Draft = record {
        text = if is_empty m.caption then [] else m.caption;
        images = m.media_item ∷ [];
        album_id = a;
        preview_ids = (draft_of d).preview_ids;
      } in
      let album : is_empty m.album ≡ false = rw of.0 named in
      let new : text_eq (draft_of d).album_id m.album ≡ false = rw of.0 other in
      let first =
        on_media-served post user k d m states album l
        ∙ ap (λ (x : Draft). some (drafting k (draft_data x)))
            (add_media-new m (draft_of d) album new)
        ∙ ap (λ (x : Text). some (drafting k (draft_data (record d' { album_id = x })))) of.0 in
      remaining_pictures d' ms (on_media post true (λ n. true) user m states) of.1 refl first
