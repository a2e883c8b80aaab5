-- ===== src/Queue/Install.antt =====
-- The commit of a transaction makes the queue what the transaction saw.
use native.Mathlib.Nat.{mod-eq_of_lt}
use sto_layout.Base.{
  ℕ, ◌+◌, ◌-◌, ◌%◌, ◌^◌, ◌≤◌, ◌<◌, ◌≡◌, refl, sym, ◌∙◌, true, false, ◌==◌, Bool-cases, inl, inr,
  none, some, List, [], ◌∷◌, ◌++◌, append_assoc, append-nil, length, arith,
}
use sto_layout.Queue.{
  Queue, put, PushItem, no_write, one, many, full_mark, install_pushes, install_push_item,
}
use sto_layout.Queue.View.{IsQueue, count, contents, next-wrap, count-lt}
use sto_layout.Queue.Direct.{put-Puts}
use sto_layout.Queue.Trans.{own_values}

pub full_mark_lem :
    (size head : ℕ) → 0 < head → head < size → size ≤ 2 ^ 32 → full_mark size head ≡ head - 1
full_mark_lem size head pos lt small =
    let low : (head + 2 ^ 32 - 1) % 2 ^ 32 ≡ head - 1 = omega (arith, pos, lt, small) in
    rw low (mod-eq_of_lt (omega (arith, pos, lt)))

-- What pushing some values makes of a queue.
pub record Joins (size : ℕ) (q : Queue) (vs : List ℕ) (q' : Queue) : Type 0 where
  pub queue : IsQueue size q'
  pub joined : contents size q' ≡ contents size q ++ vs

-- The list of pushed values, on every branch, for a head that is not at index 0 and a buffer of at most
-- 2 ^ 32 slots: if the values fit beside what the queue holds, with one slot left over, then they join its
-- end in their order, and if they do not, the assertion fails.
pub install_pushes_lem :
    (size mark : ℕ) (q : Queue) (vs : List ℕ)
    → IsQueue size q
    → 0 < q.head
    → mark ≡ q.head - 1
    → (count size q + length vs < size
        → (q' : Queue) × (install_pushes size mark q vs ≡ some q') × Joins size q vs q')
      × (size ≤ count size q + length vs → install_pushes size mark q vs ≡ none)
unfolding install_pushes
install_pushes_lem size mark q [] w pos at = (
  λ fit. (q, refl, record { queue = w; joined = sym (append-nil (contents size q)) }),
  λ over. absurd (omega (arith, over, count-lt size q w)),
)
install_pushes_lem size mark q (v ∷ vs) w pos at = elim (Bool-cases (q.tail == mark)) [
  | inl met ↦
      let full : count size q + 1 ≡ size = ground (arith, met, at, pos, w.head_in, w.tail_in) in
      (λ fit. absurd (omega (arith, fit, full)), λ over. rw met refl)
  | inr apart ↦
      let room : count size q + 1 < size = ground (arith, apart, at, pos, w.head_in, w.tail_in) in
      let p = put-Puts size q v w room in
      let more = install_pushes_lem size mark (put size q v) vs p.queue pos at in
      (
        λ fit.
            let (q', e, j) = more.0 (omega (arith, fit, p.more)) in
            (
              q',
              rw apart e,
              record {
                queue = j.queue;
                joined = j.joined ∙ rw p.joined (append_assoc (contents size q) (v ∷ []) vs);
              },
            ),
        λ over. rw apart (more.1 (omega (arith, over, p.more))),
      )
]

pub install_push_item-Joins :
    (size : ℕ) (q : Queue) (p : PushItem)
    → IsQueue size q
    → size ≤ 2 ^ 32
    → 0 < q.head
    → count size q + length (own_values p) < size
    → (q' : Queue) × (install_push_item size q p ≡ some q') × Joins size q (own_values p) q'
unfolding install_push_item
install_push_item-Joins size q no_write w small pos fits =
    (q, refl, record { queue = w; joined = sym (append-nil (contents size q)) })
install_push_item-Joins size q (one v false) w small pos fits =
    let p = put-Puts size q v w (omega (arith, fits)) in
    (put size q v, refl, record { queue = p.queue; joined = p.joined })
install_push_item-Joins size q (one v true) w small pos fits =
    (q, refl, record { queue = w; joined = sym (append-nil (contents size q)) })
install_push_item-Joins size q (many vs) w small pos fits =
    (install_pushes_lem size (full_mark size q.head) q vs w pos
        (full_mark_lem size q.head pos w.head_in small)).0
      fits

-- A single pushed value is installed without a test: in a queue with `size - 1` elements it makes the
-- queue look empty, and all of them are lost.
pub install_one_full :
    (size : ℕ) (q : Queue) (v : ℕ)
    → IsQueue size q
    → count size q + 1 ≡ size
    → (q' : Queue) × (install_push_item size q (one v false) ≡ some q') × (contents size q' ≡ [])
unfolding install_push_item
install_one_full size q v w full =
    let empty : count size (put size q v) ≡ 0 =
      ground (arith, next-wrap size q.tail w.tail_in, w.head_in, w.tail_in, full) in
    (put size q v, refl, rw empty refl)
