-- ===== src/Common/ListNode.antt =====
-- Circular lists and the queues on them (src/common/list.c). A pointer is a number and NULL is 0; the fields of
-- all nodes are two maps.
pub mod Ring
pub mod Fifo
pub mod Run
mod Tests
use fdu2024_os_honor_lab.Prelude.{ℕ, ◌+◌, ◌-◌, Bool, ◌==◌, if◌then◌else◌}
use fdu2024_os_honor_lab.Prelude.Exec.{done, panic, M}

-- ListNode
pub record ListNodes : Type 0 where
  pub next : ℕ → ℕ
  pub prev : ℕ → ℕ

-- `p->next = x` and `p->prev = x`
abbrev pub set_next : ℕ → ℕ → ListNodes → ListNodes
set_next p x s = record s { next = λ y. if y == p then x else s.next y }

abbrev pub set_prev : ℕ → ℕ → ListNodes → ListNodes
set_prev p x s = record s { prev = λ y. if y == p then x else s.prev y }

abbrev pub init_list_node : ℕ → ListNodes → ListNodes
init_list_node node s = set_next node node (set_prev node node s)

-- _merge_list of two lists: its four stores
abbrev pub splice : ℕ → ℕ → ℕ → ℕ → ListNodes → ListNodes
splice node1 node2 node3 node4 s =
    set_prev node3 node4 (set_next node4 node3 (set_prev node2 node1 (set_next node1 node2 s)))

-- _merge_list
unfoldable pub merge_list : ℕ → ℕ → ListNodes → ℕ × ListNodes
merge_list node1 node2 s =
    if node1 == 0
    then (node2, s)
    else if node2 == 0
    then (node1, s)
    else (node1, splice node1 node2 (s.next node1) (s.prev node2) s)

-- The first store of _detach_from_list
abbrev pub bypass : ℕ → ListNodes → ListNodes
bypass node s = set_next (s.prev node) (s.next node) s

-- _detach_from_list
unfoldable pub detach_from_list : ℕ → ListNodes → ℕ × ListNodes
detach_from_list node s =
    let t = bypass node s in
    let u = set_prev (t.next node) (t.prev node) t in
    (if s.prev node == node then 0 else s.prev node, init_list_node node u)

-- `Queue`, and the nodes
pub record Queue : Type 0 where
  pub begin : ℕ
  pub end : ℕ
  pub sz : ℕ
  pub nodes : ListNodes

-- queue_init
abbrev pub queue_init : ListNodes → Queue
queue_init s = record { begin = 0; end = 0; sz = 0; nodes = s }

-- queue_push
unfoldable pub queue_push : ℕ → Queue → Queue
queue_push item q =
    let s = init_list_node item q.nodes in
    if q.sz == 0
    then record { begin = item; end = item; sz = q.sz + 1; nodes = s }
    else record { begin = q.begin; end = item; sz = q.sz + 1; nodes = (merge_list q.end item s).1 }

-- queue_pop
unfoldable pub queue_pop : M Queue (Unit {0})
queue_pop q =
    if q.sz == 0
    then panic
    else if q.sz == 1
    then done (tt, record { begin = 0; end = 0; sz = q.sz - 1; nodes = q.nodes })
    else done (
      tt,
      record {
        begin = q.nodes.next q.begin;
        end = q.end;
        sz = q.sz - 1;
        nodes = (detach_from_list q.begin q.nodes).1;
      },
    )

-- queue_front
unfoldable pub queue_front : M Queue ℕ
queue_front q = if q.begin == 0 then panic else done (q.begin, q)

-- queue_empty
unfoldable pub queue_empty : Queue → Bool
queue_empty q = q.sz == 0
