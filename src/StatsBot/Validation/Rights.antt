-- ===== src/StatsBot/Validation/Rights.antt =====
-- What the validations of internal/modules/stats_bot/channel_validation.go show of the participants
-- of a channel, and of the channel.
use tam_backend.Prelude.{
  Option-cases, ℤ, pos, ◌≤ℤ◌, is_empty, ℕ, ◌≡◌, refl, ◌⊎◌, inl, inr, true, false, Option, none,
  some, List, [], ◌∷◌, arith,
}
use tam_backend.Common.Errors.{ok}
use tam_backend.StatsBot.Validation.{
  Participant, creator, admin, other_participant, extract_admin_info, UserRole, creator_role,
  user_role, BotErrors, text_bot, user_bot, check_bot, check_configured, Bots, check_bots,
  validate_channel_access, TgChannel, validate_channel_type, validate_channel_is_public,
  validate_channel_requirements,
}

-- A participant with a property is among the participants.
abbrev pub Some : (Participant → Type 0) → List Participant → Type 0
Some P [] = ⊥
Some P (p ∷ ps) = P p ⊎ Some P ps

abbrev pub IsCreator : ℕ → Participant → Type 0
IsCreator user (creator id) = id ≡ user
IsCreator user (admin id rights) = ⊥
IsCreator user other_participant = ⊥

abbrev pub IsAdmin : ℕ → Participant → Type 0
IsAdmin user (creator id) = id ≡ user
IsAdmin user (admin id rights) = id ≡ user
IsAdmin user other_participant = ⊥

-- The user may post, edit and delete messages.
abbrev pub Manages : ℕ → Participant → Type 0
Manages user (creator id) = id ≡ user
Manages user (admin id rights) =
    (id ≡ user)
    × (rights.post_messages ≡ true)
    × (rights.edit_messages ≡ true)
    × (rights.delete_messages ≡ true)
Manages user other_participant = ⊥

user_role-IsAdmin :
    (user : ℕ) (ps : List Participant) (r : UserRole)
    → user_role user (extract_admin_info ps) ≡ some r
    → Some (IsAdmin user) ps
unfolding user_role extract_admin_info
user_role-IsAdmin user [] r h = cc
user_role-IsAdmin user (creator id ∷ ps) r h = ground (arith, user_role-IsAdmin user ps r)
user_role-IsAdmin user (admin id rights ∷ ps) r h = ground (arith, user_role-IsAdmin user ps r)
user_role-IsAdmin user (other_participant ∷ ps) r h = inr (user_role-IsAdmin user ps r h)

user_role-IsCreator :
    (user : ℕ) (ps : List Participant)
    → user_role user (extract_admin_info ps) ≡ some creator_role
    → Some (IsCreator user) ps
unfolding user_role extract_admin_info
user_role-IsCreator user [] h = cc
user_role-IsCreator user (creator id ∷ ps) h = ground (arith, user_role-IsCreator user ps)
user_role-IsCreator user (admin id rights ∷ ps) h = ground (arith, user_role-IsCreator user ps)
user_role-IsCreator user (other_participant ∷ ps) h = inr (user_role-IsCreator user ps h)

check_bot-Manages :
    (e : BotErrors) (bot : ℕ) (ps : List Participant)
    → check_bot e bot (extract_admin_info ps) ≡ none
    → Some (Manages bot) ps
unfolding check_bot extract_admin_info
check_bot-Manages e bot [] h = cc
check_bot-Manages e bot (creator id ∷ ps) h = ground (arith, check_bot-Manages e bot ps)
check_bot-Manages e bot (admin id rights ∷ ps) h = ground (arith, check_bot-Manages e bot ps)
check_bot-Manages e bot (other_participant ∷ ps) h = inr (check_bot-Manages e bot ps h)

check_configured-Manages :
    (e : BotErrors) (bot : ℕ) (ps : List Participant)
    → check_configured e bot (extract_admin_info ps) ≡ none
    → (bot ≡ 0) ⊎ Some (Manages bot) ps
unfolding check_configured
check_configured-Manages e bot ps h = ground (arith, check_bot-Manages e bot ps)

-- The role and the two rights that a passed validation of the access shows.
abbrev pub Admitted : Bots → ℕ → List Participant → UserRole → Type 0
Admitted cfg user ps role =
    Some (IsAdmin user) ps
    × (role ≡ creator_role → Some (IsCreator user) ps)
    × ((cfg.bot_id ≡ 0) ⊎ Some (Manages cfg.bot_id) ps)
    × ((cfg.user_bot_id ≡ 0) ⊎ Some (Manages cfg.user_bot_id) ps)

check_bots-ok :
    (cfg : Bots) (ps : List Participant) (found role : UserRole)
    → check_bots cfg (extract_admin_info ps) found ≡ ok role
    → (found ≡ role)
      × ((cfg.bot_id ≡ 0) ⊎ Some (Manages cfg.bot_id) ps)
      × ((cfg.user_bot_id ≡ 0) ⊎ Some (Manages cfg.user_bot_id) ps)
unfolding check_bots
check_bots-ok cfg ps found role h =
    elim (Option-cases (check_configured text_bot cfg.bot_id (extract_admin_info ps))) [
      | inr (e, q) ↦ ground (arith, q)
      | inl q ↦
          elim (Option-cases (check_configured user_bot cfg.user_bot_id (extract_admin_info ps))) [
            | inr (e, r) ↦ ground (arith, q, r)
            | inl r ↦ (
              ground (arith, q, r),
              check_configured-Manages text_bot cfg.bot_id ps q,
              check_configured-Manages user_bot cfg.user_bot_id ps r,
            )
          ]
    ]

pub validate_channel_access-Admitted :
    (cfg : Bots) (user : ℕ) (answer : Option (List Participant)) (role : UserRole)
    → validate_channel_access cfg user answer ≡ ok role
    → (ps : List Participant) × (answer ≡ some ps) × Admitted cfg user ps role
unfolding validate_channel_access
validate_channel_access-Admitted cfg user none role h = cc
validate_channel_access-Admitted cfg user (some ps) role h =
    elim (Option-cases (user_role user (extract_admin_info ps))) [
      | inl e ↦ ground (arith, e)
      | inr (found, e) ↦
          let (same, bot, user_bot) = check_bots-ok cfg ps found role (ground (arith, e, h)) in
          (
            ps,
            refl,
            (
              user_role-IsAdmin user ps found e,
              (λ c. user_role-IsCreator user ps (cc)),
              bot,
              user_bot,
            ),
          )
    ]

pub validate_channel_requirements-none :
    (chat : Option TgChannel) (n : ℤ)
    → validate_channel_requirements chat n ≡ none
    → (c : TgChannel) × (chat ≡ some c)
      × (c.gigagroup ≡ false)
      × (c.forum ≡ false)
      × (c.megagroup ≡ false)
      × (is_empty c.username ≡ false)
      × (pos 50 ≤ℤ n)
unfolding validate_channel_requirements validate_channel_type validate_channel_is_public
validate_channel_requirements-none none n h = cc
validate_channel_requirements-none (some c) n h =
    (c, refl, ground arith, ground arith, ground arith, ground arith, ground arith)
