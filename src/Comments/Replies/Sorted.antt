-- ===== src/Comments/Replies/Sorted.antt =====
-- ORDER BY id of the replies: `_apply_id_keyset` of app/domain/comments/repository.py.
use puppytalk_be.Base.{
  ℕ, ◌≡◌, refl, arith, Bool, true, false, List, [], ◌∷◌, where_rows, ◌==◌, if◌then◌else◌, All,
  Bool-cases, inl, inr,
}
use puppytalk_be.Db.Rows.{Comment}
use puppytalk_be.Db.Laws.{All-imp}
use puppytalk_be.Comments.Replies.{ReplySort, id_before, insert_by, order_by_id}

pub before_trans :
    (sort : ReplySort) (a b c : ℕ)
    → id_before sort a b ≡ true
    → id_before sort b c ≡ true
    → id_before sort a c ≡ true
before_trans ReplySort.latest a b c h k = ground (arith, h, k)
before_trans ReplySort.oldest a b c h k = ground (arith, h, k)

pub before_asym :
    (sort : ReplySort) (a b : ℕ) → id_before sort a b ≡ true → id_before sort b a ≡ false
before_asym ReplySort.latest a b h = ground (arith, h)
before_asym ReplySort.oldest a b h = ground (arith, h)

pub before_irrefl : (sort : ReplySort) (a : ℕ) → id_before sort a a ≡ false
before_irrefl ReplySort.latest a = ground arith
before_irrefl ReplySort.oldest a = ground arith

before_total :
    (sort : ReplySort) (a b : ℕ)
    → (a == b) ≡ false
    → id_before sort a b ≡ false
    → id_before sort b a ≡ true
before_total ReplySort.latest a b ne h = ground (arith, ne, h)
before_total ReplySort.oldest a b ne h = ground (arith, ne, h)

-- The ids of a table are a key.
abbrev pub HasDistinctIds : List Comment → Type 0
HasDistinctIds [] = Unit
HasDistinctIds (c ∷ rows) = All (λ (d : Comment). (c.id == d.id) ≡ false) rows × HasDistinctIds rows

module _ (sort : ReplySort) where
  abbrev pub Before : ℕ → Comment → Type 0
  Before a d = id_before sort a d.id ≡ true

  abbrev pub IsSorted : List Comment → Type 0
  IsSorted [] = Unit
  IsSorted (c ∷ rows) = All (Before c.id) rows × IsSorted rows

  All-insert_by :
      (P : Comment → Type 0) (c : Comment) (rows : List Comment)
      → P c
      → All P rows
      → All P (insert_by sort c rows)
  All-insert_by P c [] p h = (p, tt)
  All-insert_by P c (d ∷ rows) p h = elim (Bool-cases (id_before sort c.id d.id)) [
    | inl first ↦ rw first (p, h)
    | inr later ↦ rw later (h.0, All-insert_by P c rows p h.1)
  ]

  All-order_by_id :
      (P : Comment → Type 0) (rows : List Comment) → All P rows → All P (order_by_id sort rows)
  All-order_by_id P [] h = tt
  All-order_by_id P (c ∷ rows) h =
      All-insert_by P c (order_by_id sort rows) h.0 (All-order_by_id P rows h.1)

  insert_by-IsSorted :
      (c : Comment) (rows : List Comment)
      → All (λ (d : Comment). (c.id == d.id) ≡ false) rows
      → IsSorted rows
      → IsSorted (insert_by sort c rows)
  insert_by-IsSorted c [] ne h = (tt, tt)
  insert_by-IsSorted c (d ∷ rows) ne h = elim (Bool-cases (id_before sort c.id d.id)) [
    | inl first ↦ rw first (
      (
        first,
        All-imp (Before d.id) (Before c.id) (λ e k. before_trans sort c.id d.id e.id first k) rows
            h.0,
      ),
      h,
    )
    | inr later ↦ rw later (
      All-insert_by (Before d.id) c rows (before_total sort c.id d.id ne.0 later) h.0,
      insert_by-IsSorted c rows ne.1 h.1,
    )
  ]

  pub order_by_id-IsSorted :
      (rows : List Comment) → HasDistinctIds rows → IsSorted (order_by_id sort rows)
  order_by_id-IsSorted [] h = tt
  order_by_id-IsSorted (c ∷ rows) h =
      insert_by-IsSorted c (order_by_id sort rows) (All-order_by_id _ rows h.0)
        (order_by_id-IsSorted rows h.1)

  insert_front :
      (c : Comment) (rows : List Comment)
      → All (Before c.id) rows
      → insert_by sort c rows ≡ c ∷ rows
  insert_front c [] h = refl
  insert_front c (d ∷ rows) h = rw (h.0) refl

  pub All-kept :
      (P : Comment → Type 0) (q : Comment → Bool) (rows : List Comment)
      → All P rows
      → All P (where_rows q rows)
  All-kept P q [] h = tt
  All-kept P q (r ∷ rows) h = elim (Bool-cases (q r)) [
    | inl e ↦ rw e (h.0, All-kept P q rows h.1)
    | inr e ↦ rw e (All-kept P q rows h.1)
  ]

  pub where_rows-insert_by :
      (q : Comment → Bool) (c : Comment) (rows : List Comment)
      → IsSorted rows
      → where_rows q (insert_by sort c rows)
        ≡ (if q c then insert_by sort c (where_rows q rows) else where_rows q rows)
  where_rows-insert_by q c [] h = refl
  where_rows-insert_by q c (d ∷ rows) h = elim (Bool-cases (id_before sort c.id d.id)) [
    | inl first ↦
        let behind : All (Before c.id) (d ∷ rows) = (
          first,
          All-imp (Before d.id) (Before c.id) (λ e k. before_trans sort c.id d.id e.id first k) rows
              h.0,
        ) in
        let front =
          insert_front c (where_rows q (d ∷ rows)) (All-kept (Before c.id) q (d ∷ rows) behind) in
        ground (arith, first, front)
    | inr later ↦ ground (arith, later, where_rows-insert_by q c rows h.1)
  ]
