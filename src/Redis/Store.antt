-- ===== src/Redis/Store.antt =====
-- A store of texts that is a function of the key: the commands have the behaviour that the services
-- rely on, with a time to live that never ends.
use puppytalk_be.Base.{
  ℕ, zero, suc, ◌≡◌, ◌≢◌, refl, ap, sym, ◌∙◌, Bool, true, false, ◌&&◌, Option, none, some, ◌==◌,
  if◌then◌else◌, inl, inr, Bool-cases, is_none, arith,
}
use puppytalk_be.Redis.{Key, Value, Redis, IsRedis, IsElapse}

abbrev pub Store : Type 0
Store = Key → Option Value

-- A number for the kind of a key, and its parts.
abbrev code : Key → ℕ × ℕ × ℕ
code (Key.user_refresh a) = (0, a, 0)
code (Key.user_status a) = (1, a, 0)
code (Key.idempotency_result a) = (2, a, 0)
code (Key.idempotency_lock a) = (3, a, 0)
code (Key.view_dedup a b) = (4, a, b)
code Key.view_flush_lock = (5, 0, 0)

abbrev decode : ℕ × ℕ × ℕ → Key
decode (zero, a, b) = Key.user_refresh a
decode (suc zero, a, b) = Key.user_status a
decode (suc (suc zero), a, b) = Key.idempotency_result a
decode (suc (suc (suc zero)), a, b) = Key.idempotency_lock a
decode (suc (suc (suc (suc zero))), a, b) = Key.view_dedup a b
decode (suc (suc (suc (suc (suc n)))), a, b) = Key.view_flush_lock

decode-code : (k : Key) → decode (code k) ≡ k
decode-code (Key.user_refresh a) = refl
decode-code (Key.user_status a) = refl
decode-code (Key.idempotency_result a) = refl
decode-code (Key.idempotency_lock a) = refl
decode-code (Key.view_dedup a b) = refl
decode-code Key.view_flush_lock = refl

abbrev same_code : ℕ × ℕ × ℕ → ℕ × ℕ × ℕ → Bool
same_code (a, b, c) (a', b', c') = a == a' && (b == b' && c == c')

same_code_refl : (c : ℕ × ℕ × ℕ) → same_code c c ≡ true
same_code_refl (a, b, c) = ground arith

same_code_eq : (c d : ℕ × ℕ × ℕ) → same_code c d ≡ true → c ≡ d
same_code_eq (a, b, c) (a', b', c') h = ground arith

abbrev pub same_key : Key → Key → Bool
same_key k j = same_code (code k) (code j)

same_key_ne : (k j : Key) → k ≢ j → same_key k j ≡ false
same_key_ne k j ne = elim (Bool-cases (same_key k j)) [
  | inl e ↦
      absurd
        (ne (sym (decode-code k) ∙ ap decode (same_code_eq (code k) (code j) e) ∙ decode-code j))
  | inr e ↦ e
]

abbrev put : Key → Option Value → Store → Store
put j v s k = if same_key k j then v else s k

abbrev pub store : Redis Store
store = record {
  get = λ k s. s k;
  set = λ j v ttl s. put j (some v) s;
  set_nx = λ j v ttl s. if is_none (s j) then (true, put j (some v) s) else (false, s);
  delete = λ j s. put j none s;
}

pub store-IsRedis : IsRedis store
store-IsRedis = record {
  get_set = λ k v ttl s pos. rw (same_code_refl (code k)) refl;
  get_set_other = λ k j v ttl s ne. rw (same_key_ne k j ne) refl;
  set_nx_lem = λ k v ttl s. refl;
  get_delete = λ k s. rw (same_code_refl (code k)) refl;
  get_delete_other = λ k j s ne. rw (same_key_ne k j ne) refl;
}

abbrev pub stay : Store → Store
stay s = s

pub stay-IsElapse : IsElapse store stay
stay-IsElapse k s = inl refl
