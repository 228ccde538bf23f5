-- ===== src/Comments/Replies/Walk.antt =====
-- What is behind a cursor in the sorted replies: app/domain/comments/repository.py.
use puppytalk_be.Base.{
  ℕ, zero, suc, ◌<◌, ◌≡◌, refl, sym, ap, ◌∙◌, arith, Bool, true, false, Option, none, some, List,
  [], ◌∷◌, where_rows, take, drop, length, All, Bool-cases, inl, inr,
}
use puppytalk_be.Db.Rows.{Comment}
use puppytalk_be.Comments.Replies.{ReplySort, id_before, order_by_id, behind_cursor}
use puppytalk_be.Comments.Replies.Sorted.{
  HasDistinctIds, Before, IsSorted, order_by_id-IsSorted, where_rows-insert_by, before_trans,
  before_asym, before_irrefl, All-kept,
}

-- The id of the last row, which a client sends as the next cursor.
abbrev pub last_id : Option ℕ → List Comment → Option ℕ
last_id cursor [] = cursor
last_id cursor (c ∷ rows) = last_id (some c.id) rows

module _ (sort : ReplySort) where
  pub where_rows-order_by_id :
      (q : Comment → Bool) (rows : List Comment)
      → HasDistinctIds rows
      → order_by_id sort (where_rows q rows) ≡ where_rows q (order_by_id sort rows)
  where_rows-order_by_id q [] h = refl
  where_rows-order_by_id q (c ∷ rows) h = elim (Bool-cases (q c)) [
    | inl e ↦ ground (
      arith,
      e,
      where_rows-insert_by sort q c (order_by_id sort rows) (order_by_id-IsSorted sort rows h.1),
      where_rows-order_by_id q rows h.1,
    )
    | inr e ↦ ground (
      arith,
      e,
      where_rows-insert_by sort q c (order_by_id sort rows) (order_by_id-IsSorted sort rows h.1),
      where_rows-order_by_id q rows h.1,
    )
  ]

  where_all :
      (x : ℕ) (rows : List Comment)
      → All (Before sort x) rows
      → where_rows (behind_cursor sort (some x)) rows ≡ rows
  where_all x [] h = refl
  where_all x (c ∷ rows) h = rw (h.0) (ap (λ rest. c ∷ rest) (where_all x rows h.1))

  not_behind :
      (c : Comment) (x : ℕ) (rows : List Comment)
      → id_before sort x c.id ≡ false
      → All (Before sort c.id) rows
      → behind_cursor sort (last_id (some x) rows) c ≡ false
  not_behind c x [] h k = h
  not_behind c x (d ∷ rows) h k = not_behind c d.id rows (before_asym sort c.id d.id k.0) k.1

  All-take : (P : Comment → Type 0) (n : ℕ) (rows : List Comment) → All P rows → All P (take n rows)
  All-take P zero rows h = tt
  All-take P (suc n) [] h = tt
  All-take P (suc n) (r ∷ rows) h = (h.0, All-take P n rows h.1)

  -- Behind the last of the first `n + 1` sorted rows are the others.
  behind_last :
      (n : ℕ) (c : Comment) (rows : List Comment)
      → IsSorted sort (c ∷ rows)
      → where_rows (behind_cursor sort (last_id (some c.id) (take n rows))) (c ∷ rows) ≡ drop n rows
  behind_last zero c rows h = rw (before_irrefl sort c.id) (where_all c.id rows h.0)
  behind_last (suc n) c [] h = rw (before_irrefl sort c.id) refl
  behind_last (suc n) c (d ∷ rows) h =
      rw
        (not_behind c d.id (take n rows) (before_asym sort c.id d.id h.0.0)
          (All-take (Before sort c.id) n rows h.0.1))
        (behind_last n d rows h.1)

  still_behind :
      (a x : ℕ) (rows : List Comment) (d : Comment)
      → id_before sort a x ≡ true
      → All (Before sort a) rows
      → behind_cursor sort (last_id (some x) rows) d ≡ true
      → id_before sort a d.id ≡ true
  still_behind a x [] d h k e = before_trans sort a x d.id h e
  still_behind a x (c ∷ rows) d h k e = still_behind a c.id rows d k.0 k.1 e

  last_narrows :
      (cursor : Option ℕ) (c : Comment) (rows : List Comment) (d : Comment)
      → All (λ (e : Comment). behind_cursor sort cursor e ≡ true) (c ∷ rows)
      → behind_cursor sort (last_id (some c.id) rows) d ≡ true
      → behind_cursor sort cursor d ≡ true
  last_narrows none c rows d h e = refl
  last_narrows (some a) c rows d h e = still_behind a c.id rows d h.0 h.1 e

  where_narrow :
      (p q : Comment → Bool) (rows : List Comment)
      → ((d : Comment) → q d ≡ true → p d ≡ true)
      → where_rows q (where_rows p rows) ≡ where_rows q rows
  where_narrow p q [] imp = refl
  where_narrow p q (r ∷ rows) imp = ground (arith, imp r, where_narrow p q rows imp)

  pub All-where_true :
      (p : Comment → Bool) (rows : List Comment)
      → All (λ (e : Comment). p e ≡ true) (where_rows p rows)
  All-where_true p [] = tt
  All-where_true p (r ∷ rows) = elim (Bool-cases (p r)) [
    | inl e ↦ rw e (e, All-where_true p rows)
    | inr e ↦ rw e (All-where_true p rows)
  ]

  pub where_rows-IsSorted :
      (q : Comment → Bool) (rows : List Comment)
      → IsSorted sort rows
      → IsSorted sort (where_rows q rows)
  where_rows-IsSorted q [] h = tt
  where_rows-IsSorted q (r ∷ rows) h = elim (Bool-cases (q r)) [
    | inl e ↦ rw e (All-kept sort (Before sort r.id) q rows h.0, where_rows-IsSorted q rows h.1)
    | inr e ↦ rw e (where_rows-IsSorted q rows h.1)
  ]

  -- What is behind a page of the sorted rows is what the next request finds.
  pub next_rows :
      (cursor : Option ℕ) (n : ℕ) (all found : List Comment)
      → where_rows (behind_cursor sort cursor) all ≡ found
      → IsSorted sort found
      → All (λ (e : Comment). behind_cursor sort cursor e ≡ true) found
      → 0 < length found
      → where_rows (behind_cursor sort (last_id cursor (take (suc n) found))) all
        ≡ drop (suc n) found
  next_rows cursor n all [] e s b pos = absurd (omega (arith, pos))
  next_rows cursor n all (c ∷ found) e s b pos =
      let y = last_id (some c.id) (take n found) in
      sym (
        where_narrow (behind_cursor sort cursor) (behind_cursor sort y) all
          (λ d k. last_narrows cursor c (take n found) d (b.0, All-take _ n found b.1) k))
      ∙ ap (λ rows. where_rows (behind_cursor sort y) rows) e
      ∙ behind_last n c found s
