-- ===== src/ProcessManager/Linked/Finding.antt =====
-- Processes in place and processes in sequence: marking, searching and writing one of them.
use mathlib.Core.List.{map}
use clueless_task_manager.Base.{
  ◌⊎◌, inl, inr, listed, distinct, ℕ, zero, suc, ◌+◌, ◌==◌, ◌≡◌, ◌≢◌, refl, ◌∙◌, ap, true, false,
  Option, none, some, List, [], ◌∷◌, arith, update, Bool-cases, length, ◌<◌, if◌then◌else◌, done,
}
use clueless_task_manager.LinkedList.{Address}
use clueless_task_manager.LinkedList.Links.{Links, Links-first, all, first_of}
use clueless_task_manager.Process.{Process}
use clueless_task_manager.ProcessManager.{find_from, modify, process_at, mark_processes_inactive}
use clueless_task_manager.ProcessManager.Linked.{Store, mark_nodes, find_at}

pub map-update :
    (f : Address → Process) (a : Address) (p : Process) (xs : List Address)
    → listed a xs ≡ false
    → map (update f a p) xs ≡ map f xs
unfolding listed
map-update f a p [] out = refl
map-update f a p (x ∷ xs) out = ground (arith, map-update f a p xs)

mark_nodes-other :
    (f : Address → Process) (a : Address) (xs : List Address)
    → listed a xs ≡ false
    → mark_nodes xs f a ≡ f a
unfolding mark_nodes listed
mark_nodes-other f a [] out = refl
mark_nodes-other f a (x ∷ xs) out =
    let f' = update f x (record (f x) { is_active = false }) in
    mark_nodes-other f' a xs (ground arith) ∙ ground arith

-- Marking the nodes in place is marking the sequence.
pub map-mark_nodes :
    (f : Address → Process) (xs : List Address)
    → distinct xs ≡ true
    → map (mark_nodes xs f) xs ≡ mark_processes_inactive (map f xs)
unfolding mark_nodes mark_processes_inactive distinct
map-mark_nodes f [] d = refl
map-mark_nodes f (x ∷ xs) d =
    let f' = update f x (record (f x) { is_active = false }) in
    let first : mark_nodes xs f' x ≡ record (f x) { is_active = false } =
      mark_nodes-other f' x xs (ground arith) ∙ ground arith in
    let rest =
      map-mark_nodes f' xs (ground arith)
      ∙ ap mark_processes_inactive (map-update f x _ xs (ground arith)) in
    ap (λ p. p ∷ map (mark_nodes xs f') xs) first
    ∙ ap (λ ps. record (f x) { is_active = false } ∷ ps) rest

-- the first of these nodes whose process has the pid
unfoldable pub find_node : (Address → Process) → List Address → ℕ → Option Address
find_node process [] pid = none
find_node process (x ∷ xs) pid =
    let rest = find_node process xs pid in if (process x).pid == pid then some x else rest

-- The search follows the links to the first such node, and ends.
pub find_at-nodes :
    (s : Store) (pid : ℕ) (head a : Address) (xs : List Address) (f : ℕ)
    → Links s.links.next s.links.prev a xs head
    → all s.links.is_node xs ≡ true
    → listed head xs ≡ false
    → length xs < f
    → find_at f s head (first_of xs head) pid ≡ done (find_node s.process xs pid)
unfolding find_at find_node all listed
find_at-nodes s pid head a xs zero l n out le = absurd (omega arith)
find_at-nodes s pid head a [] (suc f) l n out le = ground arith
find_at-nodes s pid head a (x ∷ xs) (suc f) l n out le =
    let (step, back) = Links-first s.links.next s.links.prev x xs head l.1 in
    let rest = find_at-nodes s pid head x xs f l.1 (ground arith) (ground arith) (omega arith) in
    elim (Bool-cases ((s.process x).pid == pid)) [
      | inl hit ↦ ground (arith, hit)
      | inr miss ↦ ground (arith, miss, rest, step)
    ]

listed-apart :
    (x y : Address) (xs : List Address) → listed x xs ≡ false → listed y xs ≡ true → x ≢ y
listed-apart x y xs out inside e = ground (arith, ap (λ z. listed z xs) e)

-- the node that is found stands at the position that is found
pub record Found (f : Address → Process) (xs : List Address) (pid k : ℕ) (x : Address)
    : Type 0 where
  pub position : ℕ
  pub node : find_node f xs pid ≡ some x
  pub at : find_from (map f xs) pid k ≡ some (position + k)
  pub inside : listed x xs ≡ true
  pub written :
      (g : Process → Process) → map (update f x (g (f x))) xs ≡ modify position g (map f xs)
  pub shown :
      (g : Process → Process) → process_at position (modify position g (map f xs)) ≡ g (f x) ∷ []

pub find-cases :
    (f : Address → Process) (xs : List Address) (pid k : ℕ)
    → distinct xs ≡ true
    → ((find_node f xs pid ≡ none) × (find_from (map f xs) pid k ≡ none))
      ⊎ ((x : Address) × Found f xs pid k x)
unfolding find_node find_from distinct listed modify process_at
find-cases f [] pid k d = inl (refl, refl)
find-cases f (x ∷ xs) pid k d = elim (Bool-cases ((f x).pid == pid)) [
  | inl hit ↦ inr (
    x,
    record {
      position = 0;
      node = ground arith;
      at = ground arith;
      inside = ground arith;
      written = λ g. ground (arith, map-update f x (g (f x)) xs);
      shown = λ g. refl;
    },
  )
  | inr miss ↦ elim (find-cases f xs pid (suc k) (ground arith)) [
    | inl (gone, nowhere) ↦ inl (ground arith, ground arith)
    | inr (y, found) ↦ inr (
      y,
      record {
        position = suc found.position;
        node = ground (arith, found.node);
        at = ground (arith, found.at);
        inside = ground (arith, found.inside);
        written = λ g.
            let ne = listed-apart x y xs (ground arith) found.inside in
            ground (arith, found.written g);
        shown = found.shown;
      },
    )
  ]
]
