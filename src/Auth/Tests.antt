-- ===== src/Auth/Tests.antt =====
-- Runs of app/domain/auth/service.py on a store that is a function of the key, and the theorems at
-- such inputs.
use puppytalk_be.Base.{ℕ, ◌≤◌, ◌≡◌, refl, arith, Option, none, some, Result, ok, List, [], ◌∷◌}
use puppytalk_be.Errors.{AppError}
use puppytalk_be.Ids.{codes, jwt_sub_to_uuid, base62_to_uuid}
use puppytalk_be.Redis.{UserStatus, Key, Value, Delivery}
use puppytalk_be.Redis.Store.{Store, store, store-IsRedis, stay, stay-IsElapse}
use puppytalk_be.Db.Single.{bit}
use puppytalk_be.Auth.{try_refresh_rotation, ensure_user_may_refresh}
use puppytalk_be.Auth.Rotation.{Deliveries, token_subject, refresh_tokens, login_store}
use puppytalk_be.Auth.SingleUse.{holds}
use puppytalk_be.Auth.Once.{Event, refresh, login, times_accepted, refresh_token_used_once}

-- Every token is of user 1 and is its own digest.
abbrev no_uuid : List ℕ → Option ℕ
no_uuid s = none

abbrev own_digest : ℕ → ℕ
own_digest t = t

abbrev of_user_1 : ℕ → Result AppError (Option (List ℕ))
of_user_1 t = ok (some (codes "1"))

abbrev all_active : ℕ → Option UserStatus
all_active u = some UserStatus.active

abbrev logged_in : Store
logged_in (Key.user_refresh u) = some (Value.digest 500)
logged_in (Key.user_status u) = none
logged_in (Key.idempotency_result f) = none
logged_in (Key.idempotency_lock f) = none
logged_in (Key.view_dedup p v) = none
logged_in Key.view_flush_lock = none

abbrev prompt : Deliveries
prompt = record {
  status_get = Delivery.answered;
  status_set = Delivery.answered;
  eval = Delivery.answered;
  digest_get = Delivery.answered;
  digest_set = Delivery.answered;
}

abbrev eval_lost : Deliveries
eval_lost = record prompt { eval = Delivery.lost_reply }

subject_1 : token_subject store no_uuid own_digest of_user_1 all_active 60 500 ≡ ok 1
unfolding token_subject jwt_sub_to_uuid base62_to_uuid
subject_1 = refl

abbrev attempts : List Event
attempts =
    refresh prompt 500 501
    ∷ refresh prompt 500 502
    ∷ login Delivery.lost_reply 1 503
    ∷ refresh eval_lost 500 504
    ∷ []

attempts-once :
    times_accepted store no_uuid own_digest of_user_1 all_active 60 900 stay 500 attempts logged_in
    ≡ 1
unfolding times_accepted refresh_tokens login_store jwt_sub_to_uuid base62_to_uuid
    ensure_user_may_refresh try_refresh_rotation
attempts-once = refl

refresh_token_used_once_example :
    times_accepted store no_uuid own_digest of_user_1 all_active 60 900 stay 500 attempts logged_in
    ≤ bit (holds store store-IsRedis 1 500 logged_in)
refresh_token_used_once_example =
    refresh_token_used_once store store-IsRedis no_uuid own_digest of_user_1 all_active 60 900 stay
      stay-IsElapse (omega arith) 500 1 subject_1 attempts logged_in
      (refl, (refl, (refl, (refl, tt))))
