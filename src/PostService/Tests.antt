-- ===== src/PostService/Tests.antt =====
-- Runs of app/domain/posts/services/post_service.py on a small database, and the theorem there.
use puppytalk_be.Base.{◌≡◌, refl, err, [], ◌∷◌, map, some}
use puppytalk_be.Errors.{AppError}
use puppytalk_be.Fixtures.{sample_db}
use puppytalk_be.Posts
use puppytalk_be.PostService.{delete_post}

delete_twice :
    let db' = (delete_post 300 10 sample_db).1 in
    (delete_post 301 10 db').0 ≡ err AppError.post_not_found
unfolding delete_post Posts.soft_delete
delete_twice = refl

deletion :
    let db' = (delete_post 300 10 sample_db).1 in
    (db'.post_likes ≡ [])
    × (map (λ c. c.deleted_at) db'.comments ≡ some 300 ∷ some 300 ∷ some 300 ∷ [])
unfolding delete_post Posts.soft_delete
deletion = (refl, refl)
