-- ===== src/Common/ListNode/Fifo.antt =====
-- A queue (src/common/list.c) stands for the list of its items.
use fdu2024_os_honor_lab.Prelude.{
  ℕ, suc, ◌-◌, ◌≡◌, ◌≢◌, refl, sym, ap, true, false, ◌||◌, List, [], ◌∷◌, ◌++◌, ◌==◌, length, arith,
  length-append,
}
use fdu2024_os_honor_lab.Prelude.Exec.{done}
use fdu2024_os_honor_lab.Common.ListNode.{
  ListNodes, set_next, set_prev, init_list_node, splice, merge_list, detach_from_list, Queue,
  queue_push, queue_pop, queue_front,
}
use fdu2024_os_honor_lab.Common.ListNode.Ring.{
  is_in, AreApart, Chain, last, Chain-ends, Chain-retarget, Chain-append,
}

-- The items of a queue, the first one in front: different nodes in a circle
pub record Holds (q : Queue) (a : ℕ) (ys : List ℕ) : Type 0 where
  pub sz : q.sz ≡ suc (length ys)
  pub begin : q.begin ≡ a
  pub end : q.end ≡ last a ys
  pub apart : AreApart (a ∷ ys)
  pub real : (y : ℕ) → is_in y (a ∷ ys) ≡ true → y ≢ 0
  pub circle : Chain q.nodes a ys a

abbrev pub Represents : Queue → List ℕ → Type 0
Represents q [] = (q.sz ≡ 0) × (q.begin ≡ 0)
Represents q (a ∷ ys) = Holds q a ys

last_in : (a : ℕ) (ys : List ℕ) → is_in (last a ys) (a ∷ ys) ≡ true
last_in a [] = ground arith
last_in a (y ∷ ys) = ground (arith, last_in y ys)

is_in-append : (y : ℕ) (xs : List ℕ) (c : ℕ) → is_in y (xs ++ (c ∷ [])) ≡ (is_in y xs || y == c)
is_in-append y [] c = ground arith
is_in-append y (x ∷ xs) c = ground (arith, is_in-append y xs c)

last-append : (a : ℕ) (ys : List ℕ) (c : ℕ) → last a (ys ++ (c ∷ [])) ≡ c
last-append a [] c = refl
last-append a (y ∷ ys) c = last-append y ys c

AreApart-append :
    (xs : List ℕ) (c : ℕ) → AreApart xs → is_in c xs ≡ false → AreApart (xs ++ (c ∷ []))
AreApart-append [] c h out = (refl, tt)
AreApart-append (x ∷ xs) c h out =
    (ground (arith, is_in-append x xs c, h.0, out), AreApart-append xs c h.1 (ground (arith, out)))

-- A member is not a node that is outside.
apart_from : (x y : ℕ) (xs : List ℕ) → is_in x xs ≡ true → is_in y xs ≡ false → x ≢ y
apart_from x y xs i o p = ground (arith, i, o, ap (λ z. is_in z xs) p)

module _ (q : Queue) (a : ℕ) (ys : List ℕ) (h : Holds q a ys) (item : ℕ) (real : item ≢ 0)
    (fresh : is_in item (a ∷ ys) ≡ false) where
  abbrev pushed : ListNodes
  pushed = splice (last a ys) item a item (init_list_node item q.nodes)

  end_ne : last a ys ≢ item
  end_ne = apart_from (last a ys) item (a ∷ ys) (last_in a ys) fresh

  push-merges : (merge_list q.end item (init_list_node item q.nodes)).1 ≡ pushed
  unfolding merge_list
  push-merges =
      let some_end : (last a ys == 0) ≡ false =
        let z = h.real (last a ys) (last_in a ys) in ground (arith, z) in
      let some_item : (item == 0) ≡ false = ground (arith, real) in
      let other : (last a ys == item) ≡ false = ground (arith, end_ne) in
      let self : (item == item) ≡ true = ground arith in
      rw (h.end, some_end, some_item, other, self, (Chain-ends q.nodes a ys a h.circle).0) refl

  push-Holds : Holds (queue_push item q) a (ys ++ (item ∷ []))
  unfolding queue_push
  push-Holds =
      let some_sz : (q.sz == 0) ≡ false = let z = h.sz in ground (arith, z) in
      rw some_sz (record {
        sz = omega (arith, h.sz, length-append ys (item ∷ []));
        begin = h.begin;
        end = sym (last-append a ys item);
        apart = AreApart-append (a ∷ ys) item h.apart fresh;
        real = λ y i. let z = h.real y in ground (arith, i, z, is_in-append y ys item, real);
        circle = rw push-merges (
            Chain-append pushed a ys item a
              (Chain-retarget q.nodes pushed a ys a item h.circle h.apart same_next same_prev
                (ground (arith, end_ne)) (ground (arith, fresh)))
              (ground arith) (ground arith));
      })
    where
      same_next : (y : ℕ) → is_in y (a ∷ ys) ≡ true → y ≢ last a ys → pushed.next y ≡ q.nodes.next y
      same_next y i ne = let o = apart_from y item (a ∷ ys) i fresh in ground (arith, o, ne)

      same_prev : (y : ℕ) → is_in y ys ≡ true → pushed.prev y ≡ q.nodes.prev y
      same_prev y i =
          let o = apart_from y item ys i (ground (arith, fresh)) in
          let p = apart_from y a ys i h.apart.0 in ground (arith, o, p)

module _ (q : Queue) (a x : ℕ) (zs : List ℕ) (h : Holds q a (x ∷ zs)) where
  abbrev popped : ListNodes
  popped = init_list_node a (set_prev x (last x zs) (set_next (last x zs) x q.nodes))

  pop-detaches : (detach_from_list a q.nodes).1 ≡ popped
  unfolding detach_from_list
  pop-detaches =
      let back = (Chain-ends q.nodes a (x ∷ zs) a h.circle).1 in
      let other : (a == last x zs) ≡ false =
        let z = apart_from (last x zs) a (x ∷ zs) (last_in x zs) h.apart.0 in ground (arith, z) in
      rw (back, h.circle.0, other) refl

  pop-Holds : Holds (record { begin = x; end = q.end; sz = q.sz - 1; nodes = popped }) x zs
  pop-Holds = record {
    sz = omega (arith, h.sz);
    begin = refl;
    end = h.end;
    apart = h.apart.1;
    real = λ y i. h.real y (ground (arith, i));
    circle =
        Chain-retarget q.nodes popped x zs a x h.circle.2 h.apart.1 same_next same_prev
          (let z = apart_from (last x zs) a (x ∷ zs) (last_in x zs) h.apart.0 in ground (arith, z))
          (let z = h.apart.0 in ground (arith, z));
  }
    where
      same_next : (y : ℕ) → is_in y (x ∷ zs) ≡ true → y ≢ last x zs → popped.next y ≡ q.nodes.next y
      same_next y i ne = let o = apart_from y a (x ∷ zs) i h.apart.0 in ground (arith, o, ne)

      same_prev : (y : ℕ) → is_in y zs ≡ true → popped.prev y ≡ q.nodes.prev y
      same_prev y i =
          let o = apart_from y a zs i (let z = h.apart.0 in ground (arith, z)) in
          let p = apart_from y x zs i h.apart.1.0 in ground (arith, o, p)

push-first : (q : Queue) (item : ℕ) → q.sz ≡ 0 → item ≢ 0 → Holds (queue_push item q) item []
unfolding queue_push
push-first q item h real =
    let empty : (q.sz == 0) ≡ true = ground (arith, h) in
    rw empty (record {
      sz = omega (arith, h);
      begin = refl;
      end = refl;
      apart = (refl, tt);
      real = λ y i. ground (arith, i, real);
      circle = (ground arith, ground arith);
    })

-- A queue of other nodes takes an item at its end.
pub push-Represents :
    (q : Queue) (xs : List ℕ) (item : ℕ)
    → Represents q xs
    → item ≢ 0
    → is_in item xs ≡ false
    → Represents (queue_push item q) (xs ++ (item ∷ []))
push-Represents q (a ∷ ys) item h real fresh = push-Holds q a ys h item real fresh
push-Represents q [] item h real fresh = push-first q item h.0 real

pub pop-Represents :
    (q : Queue) (a : ℕ) (ys : List ℕ)
    → Represents q (a ∷ ys)
    → (r : Queue) × (queue_pop q ≡ done (tt, r)) × Represents r ys
unfolding queue_pop
pop-Represents q a [] h =
    let none_left : (q.sz == 0) ≡ false = let z = h.sz in ground (arith, z) in
    let one : (q.sz == 1) ≡ true = let z = h.sz in ground (arith, z) in
    (
      record { begin = 0; end = 0; sz = q.sz - 1; nodes = q.nodes },
      rw (none_left, one) refl,
      ((let z = h.sz in omega (arith, z)), refl),
    )
pop-Represents q a (x ∷ zs) h =
    let none_left : (q.sz == 0) ≡ false = let z = h.sz in ground (arith, z) in
    let one : (q.sz == 1) ≡ false = let z = h.sz in ground (arith, z) in
    (
      record { begin = x; end = q.end; sz = q.sz - 1; nodes = popped q a x zs h },
      rw (none_left, one, h.begin, h.circle.0, pop-detaches q a x zs h) refl,
      pop-Holds q a x zs h,
    )

pub front-Represents :
    (q : Queue) (a : ℕ) (ys : List ℕ) → Represents q (a ∷ ys) → queue_front q ≡ done (a, q)
unfolding queue_front
front-Represents q a ys h =
    let some_begin : (a == 0) ≡ false = let z = h.real a (ground arith) in ground (arith, z) in
    rw (h.begin, some_begin) refl
