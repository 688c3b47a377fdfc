-- ===== src/ProcessManager/Linked/Looping.antt =====
-- The whole `readdir` loop in place and in sequence.
use mathlib.Core.List.{map}
use clueless_task_manager.Base.{
  Outcome, ℕ, ◌+◌, ◌<◌, ◌≤◌, ◌^◌, ◌≡◌, refl, sym, ap, subst, false, Option, none, some, List, [],
  ◌∷◌, ◌++◌, length, arith, done, Returns, inl, inr, Option-cases,
}
use clueless_task_manager.LinkedList.{Address, Heap}
use clueless_task_manager.LinkedList.Owned.{Owns, Owns-same, Owns-trans}
use clueless_task_manager.LinkedList.Links.{IsList, all}
use clueless_task_manager.Process.{Process, ProcessResult, success_read, err_internal}
use clueless_task_manager.ProcessManager.{Event, Callbacks, Dirent, visit, readdir_loop}
use clueless_task_manager.ProcessManager.Loop.{readdir_loop-stops, readdir_loop-turns}
use clueless_task_manager.ProcessManager.Linked.{Store, visit_linked, readdir_linked}
use clueless_task_manager.ProcessManager.Linked.Cells.{Holds}
use clueless_task_manager.ProcessManager.Linked.Adding.{Turned}
use clueless_task_manager.ProcessManager.Linked.Visiting.{visit_linked-Turned}

abbrev pub entries_in : List (Dirent × Address) → List Dirent
entries_in [] = []
entries_in ((entry, a) ∷ dir) = entry ∷ entries_in dir

-- what holds of the result, if there is one
abbrev pub After : {A : Type 0} → Outcome A → (A → Type 0) → Type 0
After (done a) P = P a
After _ P = Unit {0}

-- At each turn of the loop, what `calloc` gives if it is called holds no node at that time.
unfoldable pub IsSupplied : Callbacks → Address → List (Dirent × Address) → Store → Type 0
IsSupplied to head [] s = Unit {0}
IsSupplied to head ((entry, a) ∷ dir) s =
    (s.links.is_node a ≡ false)
    × After (visit_linked to head entry a s) (λ r. IsSupplied to head dir r.1)

-- the outcome `r` in place of a run with the outcome `q` in sequence
pub record Ran (head c : Address) (h : Heap) (xs : List Address) (n : ℕ)
    (r : ProcessResult × List Event × Store) (q : ProcessResult × List Event × List Process)
    : Type 0 where
  pub result : r.0 ≡ q.0
  pub events : r.1 ≡ q.1
  pub now : Holds head c r.2 q.2
  pub size : length now.nodes ≤ n
  pub owns : Owns h xs r.2.links now.nodes

module _ (to : Callbacks) (head : Address) (entry : Dirent) (a : Address)
    (dir : List (Dirent × Address)) (s : Store) (r : Option (List Event) × Store)
    (ran : visit_linked to head entry a s ≡ done r) where
  readdir_linked-stops :
      r.0 ≡ none → readdir_linked to head ((entry, a) ∷ dir) s ≡ done (err_internal, [], r.1)
  unfolding readdir_linked
  readdir_linked-stops stops = rw (readdir_linked, ran, stops) refl

  readdir_linked-turns :
      {events : List Event} {t : ProcessResult × List Event × Store}
      → r.0 ≡ some events
      → readdir_linked to head dir r.1 ≡ done t
      → readdir_linked to head ((entry, a) ∷ dir) s ≡ done (t.0, events ++ t.1, t.2)
  unfolding readdir_linked
  readdir_linked-turns turns rest = rw (readdir_linked, ran, turns, rest) refl

nothing-Ran :
    (to : Callbacks) {head c : Address} (s : Store) (xs : List Address)
    → IsList s.links head c xs
    → Ran head c s.links xs
        (length xs + 0)
        (success_read, [], s)
        (readdir_loop to [] (map s.process xs))
unfolding readdir_loop all
nothing-Ran to s xs l = record {
  result = refl;
  events = refl;
  now = record { nodes = xs; list = l; held = refl };
  size = omega arith;
  owns = Owns-same s.links s.links xs (ground (arith, l.nodes)) (λ q. refl);
}

-- The loop runs in place as it runs in sequence, however it ends.
pub readdir_linked-Ran :
    (to : Callbacks) {head c : Address} (dir : List (Dirent × Address)) (s : Store)
    (xs : List Address)
    → IsList s.links head c xs
    → IsSupplied to head dir s
    → length xs + length dir < 2 ^ 64
    → Returns (readdir_linked to head dir s) (λ r.
      Ran head c s.links xs
        (length xs + length dir)
        r
        (readdir_loop to (entries_in dir) (map s.process xs)))
unfolding readdir_linked IsSupplied
readdir_linked-Ran to [] s xs l free fits = (_, refl, nothing-Ran to s xs l)
readdir_linked-Ran to {head} {c} ((entry, a) ∷ dir) s xs l free fits =
    let ps = map s.process xs in
    let unused : s.links.is_node a ≡ false = free.0 in
    let (r, ran, turn) = visit_linked-Turned to s xs l entry a unused (omega arith) in
    elim (Option-cases (visit to entry ps)) [
      | inl stops ↦
          let turned = subst (λ o. Turned head c s xs ps o r) stops turn in
          (
            _,
            readdir_linked-stops to head entry a dir s r ran turned.result,
            subst (Ran head c _ _ _ _) (sym (readdir_loop-stops to entry (entries_in dir) ps stops))
                (record {
                  result = refl;
                  events = refl;
                  now = turned.now;
                  size = omega (arith, turned.size);
                  owns = turned.owns;
                }),
          )
      | inr ((events, ps'), goes) ↦
          let turned = subst (λ o. Turned head c s xs ps o r) goes turn in
          let nodes = turned.now.nodes in
          let (t, rest, q) =
            readdir_linked-Ran to dir r.1 nodes turned.now.list (rw ran at free.1)
              (omega (arith, turned.size)) in
          let q' =
            subst
              (λ qs.
                Ran head c r.1.links nodes (length nodes + length dir) t
                  (readdir_loop to (entries_in dir) qs))
              turned.now.held q in
          (
            _,
            readdir_linked-turns to head entry a dir s r ran turned.result rest,
            subst (Ran head c _ _ _ _)
                (sym (readdir_loop-turns to entry (entries_in dir) ps events ps' goes))
                (record {
                  result = q'.result;
                  events = ap (λ e. events ++ e) q'.events;
                  now = q'.now;
                  size = omega (arith, q'.size, turned.size);
                  owns = Owns-trans turned.owns q'.owns;
                }),
          )
    ]
