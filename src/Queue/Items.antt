-- ===== src/Queue/Items.antt =====
-- The commit of a transaction installs its items in any order, and makes the queue what it saw.
use sto_layout.Base.{
  ℕ, zero, suc, ◌+◌, ◌-◌, ◌^◌, ◌≤◌, ◌<◌, ◌≡◌, refl, sym, ◌∙◌, ap, true, false, Option, none, some,
  List, [], ◌∷◌, ◌++◌, length, length-append, append-nil, ◌>>=◌, arith,
}
use sto_layout.Queue.{
  Queue, next, PushItem, many, Local, full_mark, QueueItem, head_item, index_item, push_item,
  install_push_item, install_item, install_items,
}
use sto_layout.Queue.View.{IsQueue, place, count, slots_from, contents, next-wrap, count-lt}
use sto_layout.Queue.Direct.{slots_from-head}
use sto_layout.Queue.Trans.{own_values, HasPopped, view}
use sto_layout.Queue.Install.{Joins, full_mark_lem, install_pushes_lem, install_push_item-Joins}

-- A list without its first elements.
unfoldable skip : ℕ → List ℕ → List ℕ
skip zero xs = xs
skip (suc n) [] = []
skip (suc n) (x ∷ xs) = skip n xs

skip-append : (n : ℕ) (xs ys : List ℕ) → n ≤ length xs → skip n (xs ++ ys) ≡ skip n xs ++ ys
unfolding skip
skip-append zero xs ys le = refl
skip-append (suc n) [] ys le = absurd (omega (arith, le))
skip-append (suc n) (x ∷ xs) ys le = skip-append n xs ys (omega (arith, le))

skip-nil : (n : ℕ) → skip n [] ≡ []
unfolding skip
skip-nil zero = refl
skip-nil (suc n) = refl

skip-skip : (a b : ℕ) (xs : List ℕ) → skip b (skip a xs) ≡ skip (a + b) xs
unfolding skip
skip-skip zero b xs = let n : 0 + b ≡ b = omega arith in rw n refl
skip-skip (suc a) b [] = skip-nil b ∙ sym (skip-nil (suc a + b))
skip-skip (suc a) b (x ∷ xs) =
    let n : suc a + b ≡ suc (a + b) = omega arith in skip-skip a b xs ∙ rw n refl

slots_from-skip :
    (size : ℕ) (q : Queue) (d n i : ℕ)
    → d ≤ n
    → skip d (slots_from size q n i) ≡ slots_from size q (n - d) (i + d)
unfolding skip
slots_from-skip size q zero n i le =
    let n' : n - 0 ≡ n = omega arith in let i' : i + 0 ≡ i = omega arith in rw (n', i') refl
slots_from-skip size q (suc d) zero i le = absurd (omega (arith, le))
slots_from-skip size q (suc d) (suc n) i le =
    let n' : suc n - suc d ≡ n - d = omega arith in
    let i' : i + 1 + d ≡ i + suc d = omega arith in
    slots_from-skip size q d n (i + 1) (omega (arith, le)) ∙ rw (n', i') refl

length-slots_from : (size : ℕ) (q : Queue) (n i : ℕ) → length (slots_from size q n i) ≡ n
length-slots_from size q zero i = refl
length-slots_from size q (suc n) i = ap suc (length-slots_from size q n (i + 1))

-- How many items take an element out of the queue.
unfoldable pub pops : List QueueItem → ℕ
pops [] = 0
pops (index_item true false ∷ items) = suc (pops items)
pops (index_item true true ∷ items) = pops items
pops (index_item false is_rw ∷ items) = pops items
pops (head_item ∷ items) = pops items
pops (push_item ∷ items) = pops items

abbrev pub NoPush : List QueueItem → Type 0
NoPush [] = Unit
NoPush (push_item ∷ items) = ⊥
NoPush (head_item ∷ items) = NoPush items
NoPush (index_item d w ∷ items) = NoPush items

-- The elements that the transaction has popped leave the queue.
record Drops (size d : ℕ) (q q' : Queue) : Type 0 where
  queue : IsQueue size q'
  fewer : count size q' + d ≡ count size q
  dropped : contents size q' ≡ skip d (contents size q)
  head_at : q'.head ≡ place size q.head d

nothing-Drops : (size : ℕ) (q : Queue) → IsQueue size q → Drops size 0 q q
unfolding skip
nothing-Drops size q w = record {
  queue = w;
  fewer = omega arith;
  dropped = refl;
  head_at = ground (arith, w.head_in);
}

more-Drops :
    (size d : ℕ) (q q' : Queue)
    → IsQueue size q
    → 0 < count size q
    → d ≤ count size (record q { head = next size q.head })
    → Drops size d (record q { head = next size q.head }) q'
    → Drops size (suc d) q q'
unfolding skip
more-Drops size d q q' w some_left le r =
    let q1 : Queue = record q { head = next size q.head } in
    let wrap = next-wrap size q.head w.head_in in
    let c : count size q ≡ suc (count size q1) =
      ground (arith, wrap, w.head_in, w.tail_in, some_left) in
    record {
      queue = r.queue;
      fewer = omega (arith, r.fewer, c);
      dropped =
          r.dropped
          ∙ ap (skip d) (
              slots_from-head size q q1 w refl (λ i. refl) (count size q1) 0
                (omega (arith, c, count-lt size q w)))
          ∙ ap (λ m. skip (suc d) (slots_from size q m 0)) (sym c);
      head_at = r.head_at ∙ ground (arith, wrap, w.head_in);
    }

-- Items without the push item only drop elements.
pops_run :
    (size : ℕ) (push : PushItem) (q : Queue) (xs rest : List QueueItem)
    → IsQueue size q
    → NoPush xs
    → pops xs ≤ count size q
    → (q' : Queue) × (install_items size push q (xs ++ rest) ≡ install_items size push q' rest)
      × Drops size (pops xs) q q'
unfolding install_items install_item pops
pops_run size push q [] rest w h le = (q, refl, nothing-Drops size q w)
pops_run size push q (push_item ∷ xs) rest w h le = absurd h
pops_run size push q (head_item ∷ xs) rest w h le = pops_run size push q xs rest w h le
pops_run size push q (index_item false is_rw ∷ xs) rest w h le = pops_run size push q xs rest w h le
pops_run size push q (index_item true true ∷ xs) rest w h le = pops_run size push q xs rest w h le
pops_run size push q (index_item true false ∷ xs) rest w h le =
    let q1 : Queue = record q { head = next size q.head } in
    let wrap = next-wrap size q.head w.head_in in
    let c : count size q ≡ suc (count size q1) = ground (arith, wrap, w.head_in, w.tail_in, le) in
    let w1 : IsQueue size q1 = record {
      head_in = ground (arith, wrap, w.head_in);
      tail_in = w.tail_in;
    } in
    let le1 : pops xs ≤ count size q1 = omega (arith, le, c) in
    let (q', e, r) = pops_run size push q1 xs rest w1 h le1 in
    (q', e, more-Drops size (pops xs) q q' w (omega (arith, c)) le1 r)

-- The items of one transaction, as the commit finds them: its push item is one of them, and those of
-- indices pop `d` elements.
pub record Commits (d : ℕ) (items before after : List QueueItem) : Type 0 where
  pub whole : items ≡ before ++ push_item ∷ after
  pub before_pops : NoPush before
  pub after_pops : NoPush after
  pub popped : pops before + pops after ≡ d

-- The view is the elements that are not popped, and the pushed values.
view-skip :
    (size : ℕ) (q : Queue) (l : Local) (d : ℕ)
    → HasPopped size q l d
    → view size q l d ≡ skip d (contents size q) ++ own_values l.push
view-skip size q l d h =
    let e = slots_from-skip size q d (count size q) 0 h.few in
    let n : 0 + d ≡ d = omega arith in
    ap (λ i. slots_from size q (count size q - d) i ++ own_values l.push) (sym n)
    ∙ ap (λ xs. xs ++ own_values l.push) (sym e)

-- After the items before the push item.
at_push_lem :
    (size : ℕ) (push : PushItem) (q q1 : Queue) (items after : List QueueItem) (r : Option Queue)
    → install_items size push q items ≡ install_items size push q1 (push_item ∷ after)
    → install_push_item size q1 push ≡ r
    → install_items size push q items ≡ (r >>= λ q2. install_items size push q2 after)
unfolding install_items install_item
at_push_lem size push q q1 items after r e f =
    e ∙ ap (λ o. o >>= λ q2. install_items size push q2 after) f

install_items_none :
    (size : ℕ) (push : PushItem) (q : Queue) → install_items size push q [] ≡ some q
unfolding install_items
install_items_none size push q = refl

list_over :
    (size : ℕ) (q : Queue) (vs : List ℕ)
    → IsQueue size q
    → size ≤ 2 ^ 32
    → 0 < q.head
    → size ≤ count size q + length vs
    → install_push_item size q (many vs) ≡ none
unfolding install_push_item
list_over size q vs w small pos over =
    (install_pushes_lem size (full_mark size q.head) q vs w pos
        (full_mark_lem size q.head pos w.head_in small)).1
      over

contents-Items :
    (size a b : ℕ) (q q1 q2 q3 : Queue) (vs : List ℕ)
    → Drops size a q q1
    → Joins size q1 vs q2
    → Drops size b q2 q3
    → b ≤ count size q1
    → contents size q3 ≡ skip (a + b) (contents size q) ++ vs
contents-Items size a b q q1 q2 q3 vs r1 j r3 le =
    r3.dropped
    ∙ ap (skip b) j.joined
    ∙ skip-append b (contents size q1) vs
        (omega (arith, le, length-slots_from size q1 (count size q1) 0))
    ∙ ap (λ xs. skip b xs ++ vs) r1.dropped
    ∙ ap (λ xs. xs ++ vs) (skip-skip a b (contents size q))

count-Joins :
    (size : ℕ) (q1 q2 : Queue) (vs : List ℕ)
    → Joins size q1 vs q2
    → count size q2 ≡ count size q1 + length vs
count-Joins size q1 q2 vs j =
    sym (length-slots_from size q2 (count size q2) 0)
    ∙ ap length j.joined
    ∙ omega
        (arith, length-append (contents size q1) vs, length-slots_from size q1 (count size q1) 0)

-- A commit makes the queue what the transaction saw. The transaction has popped the first `d` elements,
-- and its items are installed in some order, `before` the push item and `after` it. Let the
-- head be away from index 0 when it is the turn of the push item, and the buffer have at most 2 ^ 32
-- slots. If the pushed values fit beside the elements that are in the queue at that time, with one slot
-- left over, then no assertion fails and the queue holds what the transaction saw. If they are a list and do not fit, the
-- assertion fails, even where the items after the push item would make room.
pub install_items-view :
    (size : ℕ) (q : Queue) (l : Local) (d : ℕ) (items before after : List QueueItem)
    → IsQueue size q
    → HasPopped size q l d
    → Commits d items before after
    → size ≤ 2 ^ 32
    → 0 < place size q.head (pops before)
    → (count size q - pops before + length (own_values l.push) < size
        → (q' : Queue) × (install_items size l.push q items ≡ some q')
          × IsQueue size q'
          × (contents size q' ≡ view size q l d))
      × ((vs : List ℕ)
          → l.push ≡ many vs
          → size ≤ count size q - pops before + length vs
          → install_items size l.push q items ≡ none)
install_items-view size q l d items before after w h k small pos =
    let enough : pops before ≤ count size q = omega (arith, h.few, k.popped) in
    let (q1, e1, r1) = pops_run size l.push q before (push_item ∷ after) w k.before_pops enough in
    let start = ap (install_items size l.push q) k.whole ∙ e1 in
    let head_on : 0 < q1.head = omega (arith, pos, r1.head_at) in
    let left : pops after ≤ count size q1 = omega (arith, r1.fewer, h.few, k.popped) in
    (
      λ room.
          let (q2, e2, j) =
            install_push_item-Joins size q1 l.push r1.queue small head_on
              (omega (arith, room, r1.fewer)) in
          let more = count-Joins size q1 q2 (own_values l.push) j in
          let (q3, e3, r3) =
            pops_run size l.push q2 after [] j.queue k.after_pops (omega (arith, left, more)) in
          (
            q3,
            at_push_lem size l.push q q1 items after (some q2) start e2
                ∙ ap (install_items size l.push q2) (sym (append-nil after))
                ∙ e3
                ∙ install_items_none size l.push q3,
            r3.queue,
            contents-Items size (pops before) (pops after) q q1 q2 q3 (own_values l.push) r1 j r3
                  left
                ∙ ap (λ n. skip n (contents size q) ++ own_values l.push) k.popped
                ∙ sym (view-skip size q l d h),
          ),
      λ vs e over. at_push_lem size l.push q q1 items after none start (
          ap (install_push_item size q1) e
          ∙ list_over size q1 vs r1.queue small head_on (omega (arith, over, r1.fewer))),
    )
