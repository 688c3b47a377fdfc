-- ===== src/Sampler/System/Alone.antt =====
-- src/metrics/sampler.c with one controller: no thread is left behind.
use mathlib.Core.List.{append_assoc, append-nil}
use clueless_task_manager.Base.{
  ◌∙◌, ◌⊎◌, ap, subst, sym, ℕ, ◌≤◌, ◌≡◌, ◌≢◌, refl, Bool, true, false, ◌==◌, if◌then◌else◌, none,
  some, Bool-cases, inl, inr, List, [], ◌++◌, arith, update,
}
use clueless_task_manager.Sampler.{Sampler, sampler_turn}
use clueless_task_manager.Sampler.Samples.{fixed}
use clueless_task_manager.Sampler.System.{
  Phase, unborn, looping, ended, joined, Pc, free, stopping, joining, System, initial, started,
  stopped, Step, start, stop, read_thread, join, capture, leave, Reach, here, later,
}

-- the thread was made, and was not joined
abbrev pub is_live : Phase → Bool
is_live unborn = false
is_live looping = true
is_live ended = true
is_live joined = false

-- the controller is in `sampler_stop`, and waits for this thread or is about to
abbrev WaitsFor : ℕ → Pc → Type 0
WaitsFor thread free = Unit {0}
WaitsFor thread stopping = Unit {0}
WaitsFor thread (joining t) = t ≡ thread

abbrev is_free : Pc → Bool
is_free free = true
is_free stopping = false
is_free (joining t) = false

-- Only the thread of the field can be live. It loops while the sampler runs, is joined where the controller
-- is outside and the sampler does not run, and is live while the controller waits for it.
pub record IsAlone (s : System) : Type 0 where
  pub unmade : (t : ℕ) → s.made ≤ t → s.phase t ≡ unborn
  pub only : (t : ℕ) → is_live (s.phase t) ≡ true → t ≡ s.thread
  pub runs : s.sampler.is_running ≡ true → (s.phase s.thread ≡ looping) × (s.pc 0 ≡ free)
  pub rests :
      s.sampler.is_running ≡ false
      → is_live (s.phase s.thread) ≡ (if is_free (s.pc 0) then false else true)
  pub waits : WaitsFor s.thread (s.pc 0)

initial-IsAlone : (s : Sampler) → s.is_running ≡ false → IsAlone (initial s)
initial-IsAlone s off = record {
  unmade = λ t h. refl;
  only = λ t h. ground arith;
  runs = λ h. ground arith;
  rests = λ h. refl;
  waits = tt;
}

turn-running :
    (result : Bool × List ℕ) (s : Sampler) {s' : Sampler} {notify : Bool}
    → sampler_turn (fixed result) s ≡ some (s', notify)
    → (s.is_running ≡ true) × (s'.is_running ≡ true)
unfolding sampler_turn
turn-running result s ran = ground arith

turn-stopped :
    (result : Bool × List ℕ) (s : Sampler)
    → sampler_turn (fixed result) s ≡ none
    → s.is_running ≡ false
unfolding sampler_turn
turn-stopped result s ran = ground arith

called-waits : (t : ℕ) (running : Bool) → WaitsFor t (if running then stopping else free)
called-waits t true = tt
called-waits t false = tt

started-IsAlone :
    (created : ℕ) (s : System) → s.pc 0 ≡ free → IsAlone s → IsAlone (started created s)
unfolding started
started-IsAlone created s at a = elim (Bool-cases s.sampler.is_running) [
  | inl on ↦ let same : started created s ≡ s = ground (arith, on) in subst IsAlone (sym same) a
  | inr off ↦ elim (Bool-cases (created == 0)) [
    | inr failed ↦
        rw (off, failed)
          (record {
            unmade = a.unmade;
            only = a.only;
            runs = λ h. ground arith;
            rests = λ h. a.rests off;
            waits = a.waits;
          })
    | inl made ↦
        rw (off, made)
          (record {
            unmade = λ t h. ground (arith, a.unmade t);
            only = λ t h. ground (arith, a.only t, a.rests off);
            runs = λ h. ground arith;
            rests = λ h. ground arith;
            waits = rw at tt;
          })
  ]
]

Step-IsAlone :
    {s s' : System} {new : List (Bool × List ℕ)} → Step 1 s new s' → IsAlone s → IsAlone s'
unfolding started stopped
Step-IsAlone {s} (start i created lt at) a = started-IsAlone created s (ground (arith)) a
Step-IsAlone {s} (stop i lt at) a =
    let here : i ≡ 0 = omega arith in
    rw here (record {
      unmade = a.unmade;
      only = a.only;
      runs = λ h. ground arith;
      rests = λ h. ground (arith, a.runs, a.rests);
      waits = called-waits s.thread s.sampler.is_running;
    })
Step-IsAlone {s} (read_thread i lt at) a =
    let first : i ≡ 0 = omega arith in
    rw first (record {
      unmade = a.unmade;
      only = a.only;
      runs = λ h. ground (arith, a.runs h);
      rests = λ h. ground (arith, a.rests h);
      waits = refl;
    })
Step-IsAlone {s} (join i t lt at over) a =
    let first : i ≡ 0 = omega arith in
    let same = a.only t (ground arith) in
    rw first (record {
      unmade = λ u h. ground (arith, a.unmade u h);
      only = λ u h. ground (arith, a.only u);
      runs = λ h. ground (arith, a.runs h);
      rests = λ h. ground (arith, a.rests h, same);
      waits = tt;
    })
Step-IsAlone {s} (leave t result at over) a =
    let off = turn-stopped result s.sampler over in
    let same = a.only t (ground arith) in
    record {
      unmade = λ u h. ground (arith, a.unmade u h);
      only = λ u h. ground (arith, a.only u);
      runs = λ h. ground (arith);
      rests = λ h. ground (arith, a.rests h, same);
      waits = a.waits;
    }
Step-IsAlone {s} (capture t result {sampler} at ran) a =
    let (was, is) = turn-running result s.sampler ran in
    record {
      unmade = a.unmade;
      only = a.only;
      runs = λ h. a.runs was;
      rests = λ h. ground arith;
      waits = a.waits;
    }

pub Reach-IsAlone :
    {sampler : Sampler} {s : System} {results : List (Bool × List ℕ)}
    → sampler.is_running ≡ false
    → Reach 1 (initial sampler) results s
    → IsAlone s
Reach-IsAlone {sampler} off here = initial-IsAlone sampler off
Reach-IsAlone off (later past st) = Step-IsAlone st (Reach-IsAlone off past)

-- With one controller, whatever it calls and however its threads run, two threads are never there at
-- once. The sampler was not running at the start.
pub one_thread :
    {sampler : Sampler} {s : System} {results : List (Bool × List ℕ)} (t u : ℕ)
    → sampler.is_running ≡ false
    → Reach 1 (initial sampler) results s
    → is_live (s.phase t) ≡ true
    → is_live (s.phase u) ≡ true
    → t ≡ u
one_thread t u off past ht hu = let a = Reach-IsAlone off past in a.only t ht ∙ sym (a.only u hu)

-- With one controller, whatever it calls and however its threads run: when it is outside `sampler_stop`
-- and the sampler does not run, no thread is left that could still touch the sampler, which
-- `sampler_destroy` frees then. The sampler was not running at the start.
pub sampler_stop-leaves_none :
    {sampler : Sampler} {s : System} {results : List (Bool × List ℕ)} (t : ℕ)
    → sampler.is_running ≡ false
    → Reach 1 (initial sampler) results s
    → s.pc 0 ≡ free
    → s.sampler.is_running ≡ false
    → is_live (s.phase t) ≡ false
sampler_stop-leaves_none {s = s} t off past outside idle =
    let a = Reach-IsAlone off past in
    elim (Bool-cases (is_live (s.phase t))) [
      | inr dead ↦ dead
      | inl live ↦ ground (arith, a.only t live, a.rests idle)
    ]

live-cases : (p : Phase) → is_live p ≡ true → (p ≡ looping) ⊎ (p ≡ ended)
live-cases unborn h = ground arith
live-cases looping h = inl refl
live-cases ended h = inr refl
live-cases joined h = ground arith

not_free : (p : Pc) → p ≢ free → is_free p ≡ false
not_free free h = absurd (h refl)
not_free stopping h = refl
not_free (joining t) h = refl

Pc-cases : (p : Pc) (t : ℕ) → is_free p ≡ false → WaitsFor t p → (p ≡ stopping) ⊎ (p ≡ joining t)
Pc-cases free t h w = ground arith
Pc-cases stopping t h w = inl refl
Pc-cases (joining u) t h w = inr (ap joining w)

first_step :
    {s t u : System} (made : List (Bool × List ℕ)) {results : List (Bool × List ℕ)}
    → Step 1 s made t
    → Reach 1 t results u
    → Reach 1 s (results ++ made) u
first_step {s} {t} made st here = subst (λ l. Reach 1 s l t) (append-nil made) (later here st)
first_step {s} {u = u} made st (later {results} {new} past st') =
    subst (λ l. Reach 1 s l u) (sym (append_assoc new results made))
      (later (first_step made st past) st')

turn-none : (s : Sampler) → s.is_running ≡ false → sampler_turn (fixed (true, [])) s ≡ none
unfolding sampler_turn
turn-none s off = ground arith

-- what the controller can come to with no call of its own
abbrev pub ReturnsToFree : System → Type 0
ReturnsToFree s = (s' : System) × Reach 1 s [] s' × (s'.pc 0 ≡ free) × (s'.sampler ≡ s.sampler)

after : {s t : System} → Step 1 s [] t → t.sampler ≡ s.sampler → ReturnsToFree t → ReturnsToFree s
after st same (u, past, outside, same') = (u, first_step [] st past, outside, same' ∙ same)

join-returns : (s : System) (t : ℕ) → s.pc 0 ≡ joining t → s.phase t ≡ ended → ReturnsToFree s
join-returns s t at over = (_, later here (join 0 t (omega arith) at over), refl, refl)

-- the thread of a stopped sampler ends, and is joined
wait-returns :
    (s : System) (t : ℕ)
    → s.pc 0 ≡ joining t
    → s.sampler.is_running ≡ false
    → is_live (s.phase t) ≡ true
    → ReturnsToFree s
wait-returns s t at off live = elim (live-cases (s.phase t) live) [
  | inr over ↦ join-returns s t at over
  | inl loops ↦
      after (leave t (true, []) loops (turn-none s.sampler off)) refl
        (join-returns (record s { phase = update s.phase t ended }) t at (ground arith))
]

-- A `sampler_stop` of a lone controller is never stuck: from every state inside it, its thread has only to
-- come to its end, and it returns, with the sampler as it is. The sampler was not running at the start.
pub sampler_stop-returns :
    {sampler : Sampler} {s : System} {results : List (Bool × List ℕ)}
    → sampler.is_running ≡ false
    → Reach 1 (initial sampler) results s
    → s.pc 0 ≢ free
    → ReturnsToFree s
sampler_stop-returns {s = s} off past inside =
    let a = Reach-IsAlone off past in
    let busy : is_free (s.pc 0) ≡ false = not_free (s.pc 0) inside in
    let idle : s.sampler.is_running ≡ false = ground (arith, a.runs, busy) in
    let live : is_live (s.phase s.thread) ≡ true = ground (arith, a.rests idle, busy) in
    elim (Pc-cases (s.pc 0) s.thread busy a.waits) [
      | inr at ↦ wait-returns s s.thread at idle live
      | inl at ↦ after (read_thread 0 (omega arith) at) refl (
          wait-returns (record s { pc = update s.pc 0 (joining s.thread) }) s.thread refl idle live)
    ]
