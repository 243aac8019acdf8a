-- ===== src/StatsBot/Posts.antt =====
-- internal/modules/stats_bot/channel_posts.go: the numbers taken from a channel's posts. Times are
-- seconds. Graphs, boosts and the ratios, which are floating-point numbers, are not modelled.
use tam_backend.Prelude.{
  if◌then◌else◌, length, ℤ, pos, leb_ℤ, ℕ, Bool, ◌&&◌, Option, none, some, List, [], ◌∷◌, map,
}
use tam_backend.StatsBot.Median.{calculate_median, sum_from, average}

-- `tg.Message` with the counts of its reactions, empty if `Reactions` is zero; `tg.MessageService`;
-- or another class.
pub record PostMessage : Type 0 where
  pub views : ℤ
  pub forwards : ℤ
  pub reactions : List ℤ
  pub date : ℤ

pub data Message : Type 0 where
  post_message : PostMessage → Message
  service_message : ℤ → Message
  other_message : Message

-- `common.PostsStats`.
pub record PostsStats : Type 0 where
  pub date_from : ℤ
  pub date_to : ℤ
  pub count : ℕ
  pub avg_views : ℤ
  pub median_views : ℤ
  pub avg_forwards : ℤ
  pub median_forwards : ℤ
  pub avg_reactions : ℤ
  pub median_reactions : ℤ

abbrev pub is_zero : ℤ → Bool
is_zero a = leb_ℤ a (pos 0) && leb_ℤ (pos 0) a

-- The posts that the loop of `getRecentPostsStats` does not pass over.
unfoldable pub viewed_posts : List Message → List PostMessage
viewed_posts [] = []
viewed_posts (post_message m ∷ ms) =
    if is_zero m.views then viewed_posts ms else m ∷ viewed_posts ms
viewed_posts (service_message d ∷ ms) = viewed_posts ms
viewed_posts (other_message ∷ ms) = viewed_posts ms

-- `reactionCount`.
abbrev pub reaction_count : PostMessage → ℤ
reaction_count m = sum_from (pos 0) m.reactions

-- `dates[len(dates)-1]`.
abbrev pub last_date : PostMessage → List PostMessage → ℤ
last_date m [] = m.date
last_date m (n ∷ ns) = last_date n ns

-- What `getRecentPostsStats` sets: the three medians and the mean of the views in the response,
-- and `Stats.Posts` if there is a post.
pub record RecentPosts : Type 0 where
  pub posts_median_views : ℤ
  pub posts_median_forwards : ℤ
  pub posts_median_reactions : ℤ
  pub posts_average_views : ℤ
  pub posts : Option PostsStats

unfoldable pub posts_stats : List PostMessage → Option PostsStats
posts_stats [] = none
posts_stats (m ∷ ms) =
    let views = map (λ (n : PostMessage). n.views) (m ∷ ms) in
    let forwards = map (λ (n : PostMessage). n.forwards) (m ∷ ms) in
    let reactions = map reaction_count (m ∷ ms) in
    some (record {
      date_from = last_date m ms;
      date_to = m.date;
      count = length (m ∷ ms);
      avg_views = average views;
      median_views = calculate_median views;
      avg_forwards = average forwards;
      median_forwards = calculate_median forwards;
      avg_reactions = average reactions;
      median_reactions = calculate_median reactions;
    })

unfoldable pub recent_posts : List Message → RecentPosts
recent_posts messages =
    let viewed = viewed_posts messages in
    record {
      posts_median_views = calculate_median (map (λ (n : PostMessage). n.views) viewed);
      posts_median_forwards = calculate_median (map (λ (n : PostMessage). n.forwards) viewed);
      posts_median_reactions = calculate_median (map reaction_count viewed);
      posts_average_views = average (map (λ (n : PostMessage). n.views) viewed);
      posts = posts_stats viewed;
    }

-- `getFirstPostInfo`: the date of the first message, 0 for the zero time.
unfoldable pub first_post_date : List Message → ℤ
first_post_date [] = pos 0
first_post_date (post_message m ∷ ms) = m.date
first_post_date (service_message d ∷ ms) = d
first_post_date (other_message ∷ ms) = pos 0
