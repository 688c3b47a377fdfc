-- ===== src/GtkProcessTab/Steps.antt =====
-- What one callback of src/ui/gtk/process_tab.c does to the rows and to the map of pids.
use clueless_task_manager.Base.{
  ◌⊎◌, ℕ, ◌<◌, ◌^◌, ◌≡◌, ◌≢◌, refl, sym, ◌∙◌, ap, subst, Bool, true, false, not, ◌&&◌, ◌||◌, ◌==◌,
  Option, none, some, if◌then◌else◌, ℤ, arith, Bool-cases, Option-cases, inl, inr, ℕ_discrete,
  Returns,
}
use clueless_task_manager.HashMap.Keys.{Key, same, same_iff}
use clueless_task_manager.HashMap.Probe.{IsValid, view}
use clueless_task_manager.HashMap.Find.{get-view}
use clueless_task_manager.HashMap.Put.{granted, put-Puts}
use clueless_task_manager.HashMap.Remove.{is_some, remove-Removes}
use clueless_task_manager.Process.{Process}
use clueless_task_manager.GtkProcessTab.{
  Toolkit, IsToolkit, as_int, ProcessTab, on_ui_process_added, on_ui_process_updated,
  on_ui_process_removed,
}

pub as_int_injective : (p q : ℕ) → p < 2 ^ 32 → q < 2 ^ 32 → as_int p ≡ as_int q → p ≡ q
as_int_injective p q hp hq e = ground arith

module _ ⦃key : Key ℤ⦄ where
  same-as_int : (p q : ℕ) → p < 2 ^ 32 → q < 2 ^ 32 → same (as_int q) (as_int p) ≡ (p == q)
  same-as_int p q hp hq =
      let (to, from) = same_iff (as_int q) (as_int p) in
      elim (Bool-cases (same (as_int q) (as_int p))) [
        | inl e ↦ let pq = as_int_injective q p hq hp (to e) in ground arith
        | inr e ↦ elim (ℕ_discrete p q) [
          | yes pq ↦ let yes_same = from (ap as_int (sym pq)) in ground arith
          | no ne ↦ ground arith
        ]
      ]

some_injective : {A : Type 0} {a b : A} → some a ≡ some b → a ≡ b
some_injective {a = a} e = ap (λ o. elim o [ none ↦ a | some x ↦ x ]) e

-- where a binding comes from that a write, or a removal, leaves
written_from :
    {A : Type 0} (b : Bool) (n r : A) (o : Option A)
    → (if b then some n else o) ≡ some r
    → ((b ≡ true) × (n ≡ r)) ⊎ ((b ≡ false) × (o ≡ some r))
written_from true n r o e = inl (refl, some_injective e)
written_from false n r o e = inr (refl, e)

left_from :
    {A : Type 0} (b : Bool) (r : A) (o : Option A)
    → (if b then none else o) ≡ some r
    → (b ≡ false) × (o ≡ some r)
left_from true r o e = ground arith
left_from false r o e = (refl, e)

module _ {T : Toolkit} ⦃key : Key ℤ⦄ where
  -- The tab shows the pids of a set: each of them has a row of its own, which is valid, and no other has.
  pub record Shows (self : ProcessTab T) (set : ℕ → Bool) : Type 0 where
    pub map : IsValid self.pid_to_iter
    pub rows : (k : ℤ) (r : T.Ref) → view self.pid_to_iter k ≡ some r → T.valid self.store r ≡ true
    pub apart :
        (j k : ℤ) (r : T.Ref)
        → view self.pid_to_iter j ≡ some r
        → view self.pid_to_iter k ≡ some r
        → j ≡ k
    pub domain : (pid : ℕ) → pid < 2 ^ 32 → is_some (view self.pid_to_iter (as_int pid)) ≡ set pid

  module _ (law : IsToolkit T) {self : ProcessTab T} {set : ℕ → Bool} (shown : Shows self set)
      (p : Process) (small : p.pid < 2 ^ 32) where
    pub added-Shows :
        (as_int p.pid ≢ key.placeholder)
        → Returns
            (on_ui_process_added granted p self)
            (λ self'. Shows self' (λ q. (p.pid == q) || set q))
    unfolding on_ui_process_added
    added-Shows real =
        let m = self.pid_to_iter in
        let k = as_int p.pid in
        let (store, row) = T.append self.store p.pid (T.get_name p) (T.get_state p) in
        let old_row : T.valid self.store row ≡ false =
          law.append_new self.store p.pid (T.get_name p) (T.get_state p) in
        let new_row : T.valid store row ≡ true =
          law.append_valid self.store p.pid (T.get_name p) (T.get_state p) in
        let (r, run, puts) = put-Puts {m = m} k row shown.map real in
        let from : (j : ℤ) (r' : T.Ref)
            → view r.1 j ≡ some r'
            → ((same j k ≡ true) × (row ≡ r')) ⊎ ((same j k ≡ false) × (view m j ≡ some r')) =
          λ j r' e. written_from (same j k) row r' (view m j) (sym (puts.reads j) ∙ e) in
        (
          record { store = store; pid_to_iter = r.1 },
          rw (law.pid p, run) refl,
          record {
            map = puts.valid;
            rows = λ j r' e. elim (from j r' e) [
              | inl (hit, is_row) ↦ rw (← is_row) new_row
              | inr (miss, old) ↦
                  law.append_keeps self.store p.pid (T.get_name p) (T.get_state p) r'
                    (shown.rows j r' old)
            ];
            apart = λ i j r' e e'. elim (from i r' e) [
              | inl (hit, is_row) ↦ elim (from j r' e') [
                | inl (hit', _) ↦ (same_iff i k).0 hit ∙ sym ((same_iff j k).0 hit')
                | inr (_, old) ↦ ground (arith, is_row, old_row, shown.rows j r' old)
              ]
              | inr (_, old) ↦ elim (from j r' e') [
                | inl (_, is_row) ↦ ground (arith, is_row, old_row, shown.rows i r' old)
                | inr (_, old') ↦ shown.apart i j r' old old'
              ]
            ];
            domain = λ q small'. ground (
              arith,
              puts.reads (as_int q),
              same-as_int p.pid q small small',
              shown.domain q small',
            );
          },
        )

    pub updated-Shows : Returns (on_ui_process_updated p self) (λ self'. Shows self' set)
    unfolding on_ui_process_updated
    updated-Shows =
        let m = self.pid_to_iter in
        let k = as_int p.pid in
        let found = get-view shown.map k in
        elim (Option-cases (view m k)) [
          | inl absent ↦ (self, rw (law.pid p, found, absent) refl, shown)
          | inr (row, at) ↦
              let here = shown.rows k row at in
              (
                record self { store = T.set self.store row (T.get_name p) (T.get_state p) },
                rw (law.pid p, found, at, here, law.iter self.store row here) refl,
                record {
                  map = shown.map;
                  rows = λ j r e.
                      law.set_keeps self.store row (T.get_name p) (T.get_state p) r
                      ∙ shown.rows j r e;
                  apart = shown.apart;
                  domain = shown.domain;
                },
              )
        ]

    pub removed-Shows :
        (calloc_ok : Bool)
        → Returns
            (on_ui_process_removed calloc_ok p self)
            (λ self'. Shows self' (λ q. not (p.pid == q) && set q))
    unfolding on_ui_process_removed
    removed-Shows calloc_ok =
        let m = self.pid_to_iter in
        let k = as_int p.pid in
        let found = get-view shown.map k in
        elim (Option-cases (view m k)) [
          | inl absent ↦ (
            self,
            rw (law.pid p, found, absent) refl,
            record {
              map = shown.map;
              rows = shown.rows;
              apart = shown.apart;
              domain = λ q small'. elim (ℕ_discrete p.pid q) [
                | yes is_q ↦ ground (arith, absent, is_q, shown.domain q small')
                | no ne ↦ ground (arith, shown.domain q small')
              ];
            },
          )
          | inr (row, at) ↦
              let here = shown.rows k row at in
              let (r, run, gone) = remove-Removes calloc_ok {m = m} k shown.map in
              let from : (j : ℤ) (r' : T.Ref)
                  → view r.1 j ≡ some r'
                  → (same j k ≡ false) × (view m j ≡ some r') =
                λ j r' e. left_from (same j k) r' (view m j) (sym (gone.reads j) ∙ e) in
              (
                record { store = T.delete self.store row; pid_to_iter = r.1 },
                rw (law.pid p, found, at, here, law.iter self.store row here, law.pid p, run) refl,
                record {
                  map = gone.valid;
                  rows = λ j r' e.
                      let (miss, old) = from j r' e in
                      law.delete_keeps self.store row r'
                        (λ is_row. ground (
                          arith,
                          miss,
                          (same_iff j k).1
                              (shown.apart j k row (subst (λ x. view m j ≡ some x) is_row old) at),
                        ))
                        (shown.rows j r' old);
                  apart = λ i j r' e e'. shown.apart i j r' (from i r' e).1 (from j r' e').1;
                  domain = λ q small'. ground (
                    arith,
                    gone.reads (as_int q),
                    same-as_int p.pid q small small',
                    shown.domain q small',
                  );
                },
              )
        ]
