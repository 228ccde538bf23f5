-- ===== src/Reports/Steps.antt =====
-- Blinding and unblinding change nothing that a statement about report counts reads:
-- app/domain/reports/targets.py.
use puppytalk_be.Base.{
  ℕ, Bool, true, false, Option, none, some, List, map, max, if◌then◌else◌, where_rows, ◌==◌, ◌&&◌,
}
use puppytalk_be.Db.Rows.{Post, Comment, Report, TargetType}
use puppytalk_be.Db.Statements.{update_one_returning, scalar_one_or_none}
use puppytalk_be.Db.Tables
use puppytalk_be.Db.Laws.{All-update_where, All-imp}
use puppytalk_be.Db.Triples.{
  Triple, bind_triple, Ends-any, select_triple, pure_triple, query_triple,
}
use puppytalk_be.Posts
use puppytalk_be.Comments
use puppytalk_be.Comments.Moderation
use puppytalk_be.Comments.Resync.{blindable, unblindable, mark_blinded}
use puppytalk_be.Reports.{moderation_target}
use puppytalk_be.Reports.Tally.{RowFact, OfPost, OfComment, EveryTarget}

if_keeps :
    {R : Type 0} (P : R → Type 0) (b : Bool) (f : R → R) (r : R)
    → P r
    → P (f r)
    → P (if b then f r else r)
if_keeps P true f r h k = k
if_keeps P false f r h k = h

module _ (F G : RowFact) {V : Type 0} where
  -- An UPDATE of posts, or of comments, from what each row becomes.
  pub posts_update :
      (cond : Post → Bool) (f : Post → Post) (ret : Post → Option V)
      → ((rs : List Report) (p : Post) → OfPost F rs p → OfPost G rs (if cond p then f p else p))
      → ((rs : List Report) (c : Comment) → OfComment F rs c → OfComment G rs c)
      → Triple (EveryTarget F) (update_one_returning Tables.posts cond f ret) (λ v. EveryTarget G)
  unfolding update_one_returning
  posts_update cond f ret keep others = record {
    run = λ db h.
        Ends-any (λ v. EveryTarget G)
          (scalar_one_or_none (map (λ p. ret (f p)) (where_rows cond db.posts))) _
          (λ v. (
            All-update_where (OfPost F db.reports) (OfPost G db.reports) cond f (keep db.reports)
                db.posts h.0,
            All-imp (OfComment F db.reports) (OfComment G db.reports) (others db.reports)
                db.comments h.1,
          ));
  }

  pub comments_update :
      (cond : Comment → Bool) (f : Comment → Comment) (ret : Comment → Option V)
      → ((rs : List Report) (c : Comment)
          → OfComment F rs c
          → OfComment G rs (if cond c then f c else c))
      → ((rs : List Report) (p : Post) → OfPost F rs p → OfPost G rs p)
      → Triple
          (EveryTarget F)
          (update_one_returning Tables.comments cond f ret)
          (λ v. EveryTarget G)
  unfolding update_one_returning
  comments_update cond f ret keep others = record {
    run = λ db h.
        Ends-any (λ v. EveryTarget G)
          (scalar_one_or_none (map (λ c. ret (f c)) (where_rows cond db.comments))) _
          (λ v. (
            All-imp (OfPost F db.reports) (OfPost G db.reports) (others db.reports) db.posts h.0,
            All-update_where (OfComment F db.reports) (OfComment G db.reports) cond f
                (keep db.reports) db.comments h.1,
          ));
  }

module _ (F : RowFact) where
  -- An UPDATE of columns that the statement does not read.
  posts_keep :
      {V : Type 0} (cond : Post → Bool) (f : Post → Post) (ret : Post → Option V)
      → ((rs : List Report) (p : Post) → OfPost F rs p → OfPost F rs (f p))
      → Triple (EveryTarget F) (update_one_returning Tables.posts cond f ret) (λ v. EveryTarget F)
  posts_keep cond f ret keep =
      posts_update F F cond f ret (λ rs p h. if_keeps (OfPost F rs) (cond p) f p h (keep rs p h))
        (λ rs c h. h)

  comments_keep :
      {V : Type 0} (cond : Comment → Bool) (f : Comment → Comment) (ret : Comment → Option V)
      → ((rs : List Report) (c : Comment) → OfComment F rs c → OfComment F rs (f c))
      → Triple
          (EveryTarget F)
          (update_one_returning Tables.comments cond f ret)
          (λ v. EveryTarget F)
  comments_keep cond f ret keep =
      comments_update F F cond f ret
        (λ rs c h. if_keeps (OfComment F rs) (cond c) f c h (keep rs c h)) (λ rs p h. h)

  post_row_keep :
      {V : Type 0} (now t : ℕ) (alive : Bool) (values : Post → Post) (ret : Post → Option V)
      → ((rs : List Report) (p : Post)
          → OfPost F rs p
          → OfPost F rs (values (record p { updated_at = now })))
      → Triple (EveryTarget F) (Posts.update_post_row now t alive values ret) (λ v. EveryTarget F)
  unfolding Posts.update_post_row
  post_row_keep now t alive values ret keep =
      posts_keep _ (λ p. values (record p { updated_at = now })) ret keep

  post_set_blinded :
      (now t : ℕ) → Triple (EveryTarget F) (Posts.set_blinded now t) (λ done. EveryTarget F)
  unfolding Posts.set_blinded
  post_set_blinded now t =
      bind_triple (λ v. EveryTarget F)
        (post_row_keep now t true (λ p. record p { is_blinded = true }) (λ p. some p.id)
          (λ rs p h. h))
        (λ v. pure_triple (Posts.is_some v))

  post_unblind : (now t : ℕ) → Triple (EveryTarget F) (Posts.unblind now t) (λ done. EveryTarget F)
  unfolding Posts.unblind
  post_unblind now t =
      bind_triple (λ v. EveryTarget F)
        (post_row_keep now t true (λ p. record p { is_blinded = false }) (λ p. some p.id)
          (λ rs p h. h))
        (λ v. pure_triple (Posts.is_some v))

  resync_keeps :
      (now t : ℕ) → Triple (EveryTarget F) (Moderation.resync_count now t) (λ done. EveryTarget F)
  unfolding Moderation.resync_count Comments.count_visible_for_post Posts.set_comment_count
  resync_keeps now t =
      bind_triple (λ v. EveryTarget F) (query_triple _)
        (λ value.
          bind_triple (λ v. EveryTarget F)
            (bind_triple (λ v. EveryTarget F)
              (post_row_keep now t false (λ p. record p { comment_count = max 0 value })
                (λ p. some p.id) (λ rs p h. h))
              (λ v. pure_triple (Posts.is_some v)))
            (λ v. pure_triple _))

  settle_keeps :
      (now t : ℕ) (from : Option ℕ)
      → Triple (EveryTarget F) (Moderation.settle now t from) (λ done. EveryTarget F)
  unfolding Moderation.settle Moderation.is_alive Comments.get_comment_meta
      Comments.select_comment_meta
  settle_keeps now t none =
      bind_triple (λ v. EveryTarget F)
        (select_triple
          (λ db. map Comments.comment_meta (where_rows (λ c. c.id == t && true) db.comments)))
        (λ v. pure_triple (Moderation.is_live_meta v))
  settle_keeps now t (some post_id) =
      bind_triple (λ v. EveryTarget F) (resync_keeps now post_id) (λ v. pure_triple _)

  comment_set_blinded :
      (now t : ℕ) → Triple (EveryTarget F) (Moderation.set_blinded now t) (λ done. EveryTarget F)
  unfolding Moderation.set_blinded Comments.blind_if_visible
  comment_set_blinded now t =
      bind_triple (λ v. EveryTarget F)
        (comments_keep (blindable t) (mark_blinded true now) (λ c. some c.post_id) (λ rs c h. h))
        (settle_keeps now t)

  comment_unblind :
      (now t : ℕ) → Triple (EveryTarget F) (Moderation.unblind now t) (λ done. EveryTarget F)
  unfolding Moderation.unblind Comments.unblind_if_blinded
  comment_unblind now t =
      bind_triple (λ v. EveryTarget F)
        (comments_keep (unblindable t) (mark_blinded false now) (λ c. some c.post_id) (λ rs c h. h))
        (settle_keeps now t)

  pub set_blinded_keeps :
      (ty : TargetType) (now t : ℕ)
      → Triple (EveryTarget F) ((moderation_target ty).set_blinded now t) (λ done. EveryTarget F)
  unfolding moderation_target
  set_blinded_keeps TargetType.post now t = post_set_blinded now t
  set_blinded_keeps TargetType.comment now t = comment_set_blinded now t

  pub unblind_keeps :
      (ty : TargetType) (now t : ℕ)
      → Triple (EveryTarget F) ((moderation_target ty).unblind now t) (λ done. EveryTarget F)
  unfolding moderation_target
  unblind_keeps TargetType.post now t = post_unblind now t
  unblind_keeps TargetType.comment now t = comment_unblind now t
