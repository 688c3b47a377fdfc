-- ===== src/ProcessManager/Linked/Visiting.antt =====
-- One turn of the `readdir` loop in place and in sequence.
use mathlib.Core.List.{map}
use clueless_task_manager.Base.{
  ◌==◌, ℕ, ◌+◌, ◌<◌, ◌^◌, ◌≡◌, ◌≢◌, refl, ◌∙◌, ap, false, none, some, List, [], length, listed,
  distinct, arith, done, Returns, inl, inr, ℕ_discrete,
}
use clueless_task_manager.LinkedList.{Address, get_next}
use clueless_task_manager.LinkedList.Links.{IsList, all, Links-first, first_of}
use clueless_task_manager.LinkedList.Owned.{Owns-same}
use clueless_task_manager.ProcessManager.{
  Callbacks, Dirent, skipped, out_of_range, named, parse_pid, visit, update_process, find_from,
  reread, updates,
}
use clueless_task_manager.ProcessManager.Visit.{
  PidName-cases, visit-skipped, visit-out_of_range, visit-found, visit-new, visit-zero,
}
use clueless_task_manager.ProcessManager.Linked.{
  Store, find_linked, update_linked, add_linked, visit_linked,
}
use clueless_task_manager.ProcessManager.Linked.Finding.{
  find_node, find_at-nodes, Found, find-cases,
}
use clueless_task_manager.ProcessManager.Linked.Adding.{
  Turned, xs_nodes, same-Turned, add_linked-Turned,
}
use clueless_task_manager.ProcessManager.Linked.Cells.{fuel-size}

module _ (to : Callbacks) {head c : Address} (s : Store) (xs : List Address)
    (l : IsList s.links head c xs) where
  module _ (entry : Dirent) (a : Address) (free : s.links.is_node a ≡ false)
      (fits : length xs + 1 < 2 ^ 64) where
    visit_linked-skipped :
        parse_pid entry.d_name ≡ skipped → visit_linked to head entry a s ≡ done (some [], s)
    unfolding visit_linked
    visit_linked-skipped parsed = rw (visit_linked, parsed) refl

    visit_linked-out_of_range :
        parse_pid entry.d_name ≡ out_of_range → visit_linked to head entry a s ≡ done (none, s)
    unfolding visit_linked
    visit_linked-out_of_range parsed = rw (visit_linked, parsed) refl

    visit_linked-add :
        (pid : ℕ)
        → parse_pid entry.d_name ≡ named pid
        → find_linked head pid s ≡ done none
        → visit_linked to head entry a s ≡ add_linked to head entry a pid s
    unfolding visit_linked
    visit_linked-add pid parsed found = rw (visit_linked, parsed, found) refl

    visit_linked-update :
        (pid : ℕ) (x : Address)
        → parse_pid entry.d_name ≡ named pid
        → find_linked head pid s ≡ done (some x)
        → visit_linked to head entry a s
          ≡ (let r = update_linked to entry x s in done (some r.0, r.1))
    unfolding visit_linked
    visit_linked-update pid x parsed found = rw (visit_linked, parsed, found) refl

    find_linked-zero : (pid : ℕ) → pid ≡ 0 → find_linked head pid s ≡ done none
    unfolding find_linked
    find_linked-zero pid is_zero = rw is_zero refl

    find_linked-nodes :
        (pid : ℕ) → pid ≢ 0 → find_linked head pid s ≡ done (find_node s.process xs pid)
    unfolding find_linked all distinct listed
    find_linked-nodes pid nonzero =
        let test : (pid == 0) ≡ false = ground arith in
        let size = fuel-size {s = s} (record { nodes = xs; list = l; held = refl }) in
        let (step, back) = Links-first s.links.next s.links.prev head xs head l.links in
        let walk =
          find_at-nodes s pid head head xs (length xs + 1) l.links (ground (arith, l.nodes))
            (ground (arith, l.apart)) (omega arith) in
        let first : get_next head s.links ≡ done (first_of xs head, s.links) =
          ground (arith, l.nodes, step) in
        rw (find_linked, test, first, size, walk) refl

    -- an update in place
    update_linked-Turned :
        (pid k : ℕ) {x : Address}
        → (found : Found s.process xs pid 0 x)
        → Turned head c s xs
            (map s.process xs)
            (some (update_process to entry.snapshot found.position (map s.process xs)))
            (let r = update_linked to entry x s in (some r.0, r.1))
    unfolding update_linked update_process updates
    update_linked-Turned pid k {x} found = record {
      result = rw (found.shown (reread entry.snapshot)) refl;
      now = record { nodes = xs; list = l; held = found.written (reread entry.snapshot) };
      size = omega arith;
      owns = Owns-same s.links s.links xs (xs_nodes to s xs l) (λ q. refl);
    }

    pub visit_linked-Turned :
        Returns
          (visit_linked to head entry a s)
          (Turned head c s xs (map s.process xs) (visit to entry (map s.process xs)))
    unfolding distinct
    visit_linked-Turned =
        let ps = map s.process xs in
        elim (PidName-cases (parse_pid entry.d_name)) [
          | inl (inl parsed) ↦
              rw (visit-skipped to entry ps parsed, visit_linked-skipped parsed)
                (_, refl, same-Turned to s xs l (some ([], ps)) refl)
          | inl (inr parsed) ↦
              rw (visit-out_of_range to entry ps parsed, visit_linked-out_of_range parsed)
                (_, refl, same-Turned to s xs l none refl)
          | inr (pid, parsed) ↦ elim (ℕ_discrete pid 0) [
            | yes is_zero ↦
                let none_found : find_linked head pid s ≡ done none =
                  find_linked-zero pid is_zero in
                rw
                  (
                    visit-zero to entry ps pid parsed is_zero,
                    visit_linked-add pid parsed none_found,
                  )
                  (add_linked-Turned to s xs l entry a free fits pid)
            | no nonzero ↦ elim (find-cases s.process xs pid 0 (ground (arith, l.apart))) [
              | inl (gone, nowhere) ↦
                  let found = find_linked-nodes pid nonzero ∙ ap done gone in
                  rw (visit-new to entry ps pid parsed nowhere, visit_linked-add pid parsed found)
                    (add_linked-Turned to s xs l entry a free fits pid)
              | inr (x, at) ↦
                  let found = find_linked-nodes pid nonzero ∙ ap done at.node in
                  let position : find_from ps pid 0 ≡ some at.position = ground (arith, at.at) in
                  rw
                    (
                      visit-found to entry ps pid at.position parsed nonzero position,
                      visit_linked-update pid x parsed found,
                    )
                    (_, refl, update_linked-Turned pid 0 at)
            ]
          ]
        ]
