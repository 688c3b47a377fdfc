-- ===== src/ProcessManager/Linked/Adding.antt =====
-- A turn of the `readdir` loop that adds a process, in place and in sequence.
use mathlib.Core.List.{map}
use clueless_task_manager.Base.{
  ℕ, ◌+◌, ◌<◌, ◌≤◌, ◌^◌, ◌≡◌, refl, sym, true, false, Option, none, some, List, [], ◌∷◌, length,
  listed, update, arith, Returns, inl, inr, Bool-cases,
}
use clueless_task_manager.LinkedList.{Address}
use clueless_task_manager.LinkedList.Links.{IsList, all}
use clueless_task_manager.LinkedList.Owned.{Owns, Owns-same, Owns-added}
use clueless_task_manager.LinkedList.Add.{added as heap_added, list_add_node-added}
use clueless_task_manager.LinkedList.Traverse.{freed, freed-IsList}
use clueless_task_manager.Process.{Process, process_read, blank, is_success}
use clueless_task_manager.ProcessManager.{Event, added, Callbacks, Dirent, add_process, notify}
use clueless_task_manager.ProcessManager.Linked.{Store, calloc_node, add_linked}
use clueless_task_manager.ProcessManager.Linked.Finding.{map-update}
use clueless_task_manager.ProcessManager.Linked.Cells.{free-unlisted, calloc_node-IsList, Holds}

abbrev pub told_of : Option (List Event × List Process) → Option (List Event)
told_of none = none
told_of (some r) = some r.0

abbrev pub left_of : List Process → Option (List Event × List Process) → List Process
left_of ps none = ps
left_of ps (some r) = r.1

-- The outcome `r` in place of a turn with the outcome `o` in sequence.
pub record Turned (head c : Address) (s : Store) (xs : List Address) (ps : List Process)
    (o : Option (List Event × List Process)) (r : Option (List Event) × Store) : Type 0 where
  pub result : r.0 ≡ told_of o
  pub now : Holds head c r.1 (left_of ps o)
  pub size : length now.nodes ≤ length xs + 1
  pub owns : Owns s.links xs r.1.links now.nodes

module _ (to : Callbacks) {head c : Address} (s : Store) (xs : List Address)
    (l : IsList s.links head c xs) where
  pub xs_nodes : all s.links.is_node xs ≡ true
  unfolding all
  xs_nodes = ground (arith, l.nodes)

  pub same-Turned :
      (o : Option (List Event × List Process))
      → left_of (map s.process xs) o ≡ map s.process xs
      → Turned head c s xs (map s.process xs) o (told_of o, s)
  same-Turned o e = record {
    result = refl;
    now = record { nodes = xs; list = l; held = sym e };
    size = omega arith;
    owns = Owns-same s.links s.links xs xs_nodes (λ q. refl);
  }

  module _ (entry : Dirent) (a : Address) (free : s.links.is_node a ≡ false)
      (fits : length xs + 1 < 2 ^ 64) where
    out : listed a (head ∷ xs) ≡ false
    out = free-unlisted s.links a (head ∷ xs) l.nodes free

    released-Turned :
        (o : Option (List Event × List Process))
        → left_of (map s.process xs) o ≡ map s.process xs
        → Turned head c s xs
            (map s.process xs)
            o
            (told_of o, record s { links = freed a (calloc_node a s.links) })
    released-Turned o e = record {
      result = refl;
      now = record {
        nodes = xs;
        list =
            freed-IsList (calloc_node a s.links) head c a xs
              (calloc_node-IsList s.links head c a xs l out) out;
        held = sym e;
      };
      size = omega arith;
      owns = Owns-same s.links _ xs xs_nodes (λ q. ground (arith, free));
    }

    entered-Turned :
        (events : List Event) (p : Process)
        → Turned head c s xs (map s.process xs) (some (events, p ∷ map s.process xs)) (
          some events,
          record {
            links = heap_added head a (calloc_node a s.links);
            process = update s.process a p;
          },
        )
    unfolding listed
    entered-Turned events p =
        let (ran, list) =
          list_add_node-added head c a xs (calloc_node a s.links)
            (calloc_node-IsList s.links head c a xs l out) (ground arith) out fits in
        record {
          result = refl;
          now = record {
            nodes = a ∷ xs;
            list = list;
            held = ground (arith, map-update s.process a p xs (ground (arith, out)));
          };
          size = omega arith;
          owns = Owns-added s.links _ a xs xs_nodes free (λ q. ground arith);
        }

    pub add_linked-Turned :
        (pid : ℕ)
        → Returns
            (add_linked to head entry a pid s)
            (Turned head c s xs (map s.process xs) (add_process to entry pid (map s.process xs)))
    unfolding add_linked add_process
    add_linked-Turned pid =
        let read = process_read entry.snapshot blank in
        let p' : Process = record read.1 { pid = pid; is_active = true } in
        elim (Bool-cases entry.calloc_ok) [
          | inr full ↦ rw full (_, refl, same-Turned none refl)
          | inl room ↦ elim (Bool-cases (is_success read.0)) [
            | inl ok ↦
                let (ran, list) =
                  list_add_node-added head c a xs (calloc_node a s.links)
                    (calloc_node-IsList s.links head c a xs l out) (ground arith) out fits in
                rw (room, ok, ran) (_, refl, entered-Turned (notify to.on_added (added p')) p')
            | inr failed ↦ elim (Bool-cases entry.missing) [
              | inl gone ↦
                  rw (room, failed, gone)
                    (_, refl, released-Turned (some ([], map s.process xs)) refl)
              | inr other ↦ rw (room, failed, other) (_, refl, released-Turned none refl)
            ]
          ]
        ]
