-- ===== src/Bot/Dialogs/Isolation.antt =====
-- A user's chat with the bot and the states of the other users.
use tam_backend.Prelude.{
  ◌==◌, ==_iff, Bool-cases, Option-cases, lookup, Text, is_empty, ℕ, ◌≡◌, refl, sym, ◌∙◌, subst,
  ◌≢◌, inl, inr, Bool, not, ◌&&◌, Option, none, some, [], ◌∷◌, arith,
}
use tam_backend.Common.Errors.{Result-cases}
use tam_backend.Storage.Deals.{DealsUpdated, update_deal}
use tam_backend.Storage.Views.{get_deal}
use tam_backend.Bot.States.{
  BotStateKind, idle, awaiting_dialog_message, awaiting_post_content, admin_mode, empty_draft,
  StateData, no_data, draft_data, dialog_data, BotState, States, upsert, set_state, get_state,
  without_user, clear_state, draft_of,
}
use tam_backend.Bot.Publishing.{Post, send_content}
use tam_backend.Bot.Dialogs.{
  in_dialog, handle_answer, send_dialog, handle_dialog_message, handle_admin_mode, route_text,
  with_text, on_text, cancel_state, handle_cancel, Chatting, text_sent, media_sent, answer_pressed,
  cancel_pressed, accept_pressed, timer_fired, chat,
}
use tam_backend.Bot.Drafting.{
  drafting, msg_of, show_post, handle_post_content, Media, add_media, awaits_post, with_media,
  on_media, album_timer, has_data, accepted_target, old_target, set_target, Desk, after_save,
  with_accepted, accept_post,
}

-- The sender of a dialog is the user whose state it is.
abbrev pub IsOwn : ℕ → StateData → Type 0
IsOwn user no_data = Unit
IsOwn user (draft_data d) = Unit
IsOwn user (dialog_data sender recipient) = sender ≡ user

abbrev pub AllOwn : States → Type 0
AllOwn [] = Unit
AllOwn ((u, s) ∷ t) = IsOwn u s.state_data × AllOwn t

-- The states of the other users are as before, and every dialog still has its own user as sender.
abbrev pub Isolated : ℕ → States → States → Type 0
Isolated user before after = AllOwn after × ((v : ℕ) → v ≢ user → lookup v after ≡ lookup v before)

Isolated-refl : (user : ℕ) (states : States) → AllOwn states → Isolated user states states
Isolated-refl user states own = (own, λ v ne. refl)

Isolated-trans :
    (user : ℕ) (a b c : States) → Isolated user a b → Isolated user b c → Isolated user a c
Isolated-trans user a b c p q = (q.0, λ v ne. q.1 v ne ∙ p.1 v ne)

module _ (user : ℕ) (s : BotState) (own_s : IsOwn user s.state_data) where
  upsert-AllOwn : (t : States) → AllOwn t → AllOwn (upsert user s t)
  unfolding upsert
  upsert-AllOwn [] own = (own_s, own)
  upsert-AllOwn ((u, x) ∷ t) own = elim (Bool-cases (user == u)) [
    | inl e ↦ rw e (subst (λ n. IsOwn n s.state_data) ((==_iff user u).0 e) own_s, own.1)
    | inr e ↦ rw e (own.0, upsert-AllOwn t own.1)
  ]

  lookup-upsert_ne : (v : ℕ) (t : States) → v ≢ user → lookup v (upsert user s t) ≡ lookup v t
  unfolding upsert
  lookup-upsert_ne v [] ne = ground arith
  lookup-upsert_ne v ((u, x) ∷ t) ne = ground (arith, lookup-upsert_ne v t)

  set_state-Isolated :
      (write_up read_up : Bool) (t : States)
      → AllOwn t
      → Isolated user t (set_state write_up read_up user s t).1
  unfolding set_state
  set_state-Isolated write_up read_up t own = elim (Bool-cases write_up) [
    | inr e ↦ rw e (Isolated-refl user t own)
    | inl e ↦ elim (Bool-cases read_up) [
      | inl f ↦ rw (e, f) (upsert-AllOwn t own, λ v ne. lookup-upsert_ne v t ne)
      | inr f ↦ rw (e, f) (upsert-AllOwn t own, λ v ne. lookup-upsert_ne v t ne)
    ]
  ]

module _ (user : ℕ) where
  without_user-AllOwn : (t : States) → AllOwn t → AllOwn (without_user user t)
  unfolding without_user
  without_user-AllOwn [] own = own
  without_user-AllOwn ((u, x) ∷ t) own = elim (Bool-cases (user == u)) [
    | inl e ↦ rw e (without_user-AllOwn t own.1)
    | inr e ↦ rw e (own.0, without_user-AllOwn t own.1)
  ]

  lookup-without_user_ne :
      (v : ℕ) (t : States) → v ≢ user → lookup v (without_user user t) ≡ lookup v t
  unfolding without_user
  lookup-without_user_ne v [] ne = refl
  lookup-without_user_ne v ((u, x) ∷ t) ne = ground (arith, lookup-without_user_ne v t)

  clear_state-Isolated :
      (up : Bool) (t : States) → AllOwn t → Isolated user t (clear_state up user t).1
  unfolding clear_state
  clear_state-Isolated up t own = elim (Bool-cases up) [
    | inl e ↦ rw e (without_user-AllOwn t own, λ v ne. lookup-without_user_ne v t ne)
    | inr e ↦ rw e (Isolated-refl user t own)
  ]

  lookup-IsOwn :
      (s : BotState) (t : States) → AllOwn t → lookup user t ≡ some s → IsOwn user s.state_data
  lookup-IsOwn s [] own l = cc
  lookup-IsOwn s ((u, x) ∷ t) own l = elim (Bool-cases (user == u)) [
    | inl e ↦
        let same : x ≡ s = ground (arith, e) in
        subst (λ (y : BotState). IsOwn user y.state_data) same
          (subst (λ n. IsOwn n x.state_data) (sym ((==_iff user u).0 e)) own.0)
    | inr e ↦ lookup-IsOwn s t own.1 (ground (arith, e))
  ]

module _ (post : Post) (up : ℕ → Bool) (user : ℕ) where
  show_post-Isolated :
      (s : BotState) (t : States) → AllOwn t → Isolated user t (show_post post up user s t)
  unfolding show_post
  show_post-Isolated s t own =
      elim (Option-cases (send_content post (msg_of (draft_of s.state_data)))) [
        | inl e ↦ rw (e, show_post) (Isolated-refl user t own)
        | inr (ids, e) ↦
            let d = record (draft_of s.state_data) { preview_ids = ids } in
            rw (e, show_post)
              (set_state-Isolated user (drafting s.deal_id (draft_data d)) tt (up 2) (up 3) t own)
      ]

  handle_post_content-Isolated :
      (s : BotState) (text : Text) (t : States)
      → AllOwn t
      → Isolated user t (handle_post_content post up user s text t)
  unfolding handle_post_content
  handle_post_content-Isolated s text t own =
      let s' = drafting s.deal_id (draft_data (record empty_draft { text = text })) in
      let first = set_state-Isolated user s' tt (up 0) (up 1) t own in
      elim (Result-cases (set_state (up 0) (up 1) user s' t).0) [
        | inl (e, f) ↦ rw (f, handle_post_content) first
        | inr (n, f) ↦
            rw (f, handle_post_content)
              (Isolated-trans user t (set_state (up 0) (up 1) user s' t).1
                (show_post post up user n (set_state (up 0) (up 1) user s' t).1) first
                (show_post-Isolated n (set_state (up 0) (up 1) user s' t).1 first.0))
      ]

  with_media-Isolated :
      (m : Media) (s : Option BotState) (t : States)
      → AllOwn t
      → Isolated user t (with_media post up user m t s)
  unfolding with_media
  with_media-Isolated m none t own = Isolated-refl user t own
  with_media-Isolated m (some s) t own =
      let s' = drafting s.deal_id (draft_data (add_media m (draft_of s.state_data))) in
      let t' = (set_state (up 0) (up 1) user s' t).1 in
      let first = set_state-Isolated user s' tt (up 0) (up 1) t own in
      elim (Bool-cases (awaits_post s.state)) [
        | inr e ↦ rw e (Isolated-refl user t own)
        | inl e ↦ elim (Result-cases (set_state (up 0) (up 1) user s' t).0) [
          | inl (x, f) ↦ rw (e, f) first
          | inr (n, f) ↦ elim (Bool-cases (is_empty m.album)) [
            | inr g ↦ rw (e, f, g) first
            | inl g ↦
                rw (e, f, g)
                  (Isolated-trans user t t' (show_post post up user n t') first
                    (show_post-Isolated n t' first.0))
          ]
        ]
      ]

  on_media-Isolated :
      (read_up : Bool) (m : Media) (t : States)
      → AllOwn t
      → Isolated user t (on_media post read_up up user m t)
  unfolding on_media
  on_media-Isolated read_up m t own = elim (Result-cases (get_state read_up user t)) [
    | inl (x, f) ↦ rw (f, on_media) (Isolated-refl user t own)
    | inr (s, f) ↦ rw (f, on_media) (with_media-Isolated m s t own)
  ]

  album_timer-Isolated :
      (read_up : Bool) (t : States)
      → AllOwn t
      → Isolated user t (album_timer post read_up up user t)
  unfolding album_timer
  album_timer-Isolated read_up t own = elim (Result-cases (get_state read_up user t)) [
    | inl (x, f) ↦ rw (f, album_timer) (Isolated-refl user t own)
    | inr (s, f) ↦ elim (Option-cases s) [
      | inl g ↦ rw (f, g, album_timer) (Isolated-refl user t own)
      | inr (b, g) ↦ rw (f, g, album_timer) (show_post-Isolated b t own)
    ]
  ]

module _ (up : ℕ → Bool) (user : ℕ) where
  cancel_state-Isolated :
      (s : Option BotState) (t : States) → AllOwn t → Isolated user t (cancel_state up user t s)
  unfolding cancel_state
  cancel_state-Isolated none t own = clear_state-Isolated user (up 1) t own
  cancel_state-Isolated (some s) t own =
      elim (Bool-cases (awaits_post s.state && not (s.deal_id == 0))) [
        | inl e ↦ rw e (set_state-Isolated user (drafting s.deal_id no_data) tt (up 1) (up 2) t own)
        | inr e ↦ rw e (clear_state-Isolated user (up 1) t own)
      ]

  handle_cancel-Isolated : (t : States) → AllOwn t → Isolated user t (handle_cancel up user t)
  unfolding handle_cancel
  handle_cancel-Isolated t own = elim (Result-cases (get_state (up 0) user t)) [
    | inl (x, f) ↦ rw (f, handle_cancel) (cancel_state-Isolated none t own)
    | inr (s, f) ↦ rw (f, handle_cancel) (cancel_state-Isolated s t own)
  ]

  handle_answer-Isolated :
      (a : Option (ℕ × ℕ)) (t : States) → AllOwn t → Isolated user t (handle_answer up user a t)
  unfolding handle_answer
  handle_answer-Isolated none t own = Isolated-refl user t own
  handle_answer-Isolated (some (r, k)) t own =
      set_state-Isolated user (in_dialog k user r) refl (up 0) (up 1) t own

  send_dialog-Isolated :
      (deliver : ℕ → Bool) (recipient : ℕ) (text : Text) (t : States) (s : Option BotState)
      → AllOwn t
      → Isolated user t (send_dialog deliver up user recipient text t s).0
  unfolding send_dialog
  send_dialog-Isolated deliver recipient text t none own = Isolated-refl user t own
  send_dialog-Isolated deliver recipient text t (some s) own =
      elim (Bool-cases (deliver recipient)) [
        | inl e ↦ rw e (clear_state-Isolated user (up 1) t own)
        | inr e ↦ rw e (Isolated-refl user t own)
      ]

  handle_dialog_message-Isolated :
      (deliver : ℕ → Bool) (text : Text) (d : StateData) (t : States)
      → IsOwn user d
      → AllOwn t
      → Isolated user t (handle_dialog_message deliver up text d t).0
  unfolding handle_dialog_message
  handle_dialog_message-Isolated deliver text no_data t own_d own = Isolated-refl user t own
  handle_dialog_message-Isolated deliver text (draft_data d) t own_d own = Isolated-refl user t own
  handle_dialog_message-Isolated deliver text (dialog_data sender recipient) t own_d own =
      elim (Result-cases (get_state (up 0) sender t)) [
        | inl (x, f) ↦ rw (f, handle_dialog_message) (Isolated-refl user t own)
        | inr (s, f) ↦
            rw (f, own_d, handle_dialog_message)
              (send_dialog-Isolated deliver recipient text t s own)
      ]

  route_text-Isolated :
      (post : Post) (deliver : ℕ → Bool) (text : Text) (t : States) (s : BotState)
      (k : BotStateKind)
      → IsOwn user s.state_data
      → AllOwn t
      → Isolated user t (route_text post deliver up user text t s k).0
  unfolding route_text handle_admin_mode
  route_text-Isolated post deliver text t s awaiting_dialog_message own_s own =
      handle_dialog_message-Isolated deliver text s.state_data t own_s own
  route_text-Isolated post deliver text t s awaiting_post_content own_s own =
      handle_post_content-Isolated post up user s text t own
  route_text-Isolated post deliver text t s admin_mode own_s own =
      clear_state-Isolated user (up 0) t own
  route_text-Isolated post deliver text t s idle own_s own = Isolated-refl user t own

  on_text-Isolated :
      (post : Post) (deliver : ℕ → Bool) (read_up : Bool) (text : Text) (t : States)
      → AllOwn t
      → Isolated user t (on_text post deliver read_up up user text t).0
  unfolding on_text with_text get_state
  on_text-Isolated post deliver read_up text t own = elim (Bool-cases read_up) [
    | inr e ↦ rw e (Isolated-refl user t own)
    | inl e ↦ elim (Option-cases (lookup user t)) [
      | inl f ↦ rw (e, f) (Isolated-refl user t own)
      | inr (s, f) ↦
          rw (e, f)
            (route_text-Isolated post deliver text t s s.state (lookup-IsOwn user s t own f) own)
    ]
  ]

module _ (up : ℕ → Bool) (user : ℕ) where
  after_save-Isolated :
      (desk : Desk) (r : DealsUpdated)
      → AllOwn desk.desk_states
      → Isolated user desk.desk_states
          (after_save up user desk.desk_states desk.desk_db r).desk_states
  after_save-Isolated desk (none, ds) own = clear_state-Isolated user (up 2) desk.desk_states own
  after_save-Isolated desk (some e, ds) own = Isolated-refl user desk.desk_states own

  with_accepted-Isolated :
      (post : Post) (s : Option BotState) (desk : Desk)
      → AllOwn desk.desk_states
      → Isolated user desk.desk_states (with_accepted post up user s desk).desk_states
  unfolding with_accepted
  with_accepted-Isolated post none desk own = Isolated-refl user desk.desk_states own
  with_accepted-Isolated post (some s) desk own =
      let m = msg_of (draft_of s.state_data) in
      let t = accepted_target m (old_target (get_deal (up 0) s.deal_id desk.desk_db)) in
      elim (Bool-cases (has_data s.state_data)) [
        | inr e ↦ rw e (Isolated-refl user desk.desk_states own)
        | inl e ↦ elim (Option-cases (send_content post m)) [
          | inl f ↦ rw (e, f) (Isolated-refl user desk.desk_states own)
          | inr (ids, f) ↦
              rw (e, f)
                (after_save-Isolated desk
                  (update_deal (up 1) s.deal_id (set_target t) desk.desk_db.deals) own)
        ]
      ]

  accept_post-Isolated :
      (post : Post) (read_up : Bool) (desk : Desk)
      → AllOwn desk.desk_states
      → Isolated user desk.desk_states (accept_post post read_up up user desk).desk_states
  unfolding accept_post
  accept_post-Isolated post read_up desk own =
      elim (Result-cases (get_state read_up user desk.desk_states)) [
        | inl (x, f) ↦ rw (f, accept_post) (Isolated-refl user desk.desk_states own)
        | inr (s, f) ↦ rw (f, accept_post) (with_accepted-Isolated post s desk own)
      ]

-- If every dialog state has its own user as sender, whatever a user sends or presses, the bot's
-- states of all other users stay as they are, and every dialog state still has its own user as
-- sender.
pub chat-Isolated :
    (post : Post) (deliver : ℕ → Bool) (read_up : Bool) (up : ℕ → Bool) (user : ℕ)
    (event : Chatting) (desk : Desk)
    → AllOwn desk.desk_states
    → Isolated user desk.desk_states (chat post deliver read_up up user event desk).desk_states
unfolding chat
chat-Isolated post deliver read_up up user (text_sent t) desk own =
    on_text-Isolated up user post deliver read_up t desk.desk_states own
chat-Isolated post deliver read_up up user (media_sent m) desk own =
    on_media-Isolated post up user read_up m desk.desk_states own
chat-Isolated post deliver read_up up user (answer_pressed a) desk own =
    handle_answer-Isolated up user a desk.desk_states own
chat-Isolated post deliver read_up up user cancel_pressed desk own =
    handle_cancel-Isolated up user desk.desk_states own
chat-Isolated post deliver read_up up user accept_pressed desk own =
    accept_post-Isolated up user post read_up desk own
chat-Isolated post deliver read_up up user timer_fired desk own =
    album_timer-Isolated post up user read_up desk.desk_states own
