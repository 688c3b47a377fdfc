-- ===== src/Sampler/System/Captures.antt =====
-- What the samples of src/metrics/sampler.c are in any interleaving of its threads and controllers.
use clueless_task_manager.Base.{
  ℕ, ◌*◌, ◌≡◌, ◌<◌, ◌^◌, refl, sym, ◌∙◌, ap, subst, true, Bool, some, List, [], ◌∷◌, ◌++◌, arith,
  take, get_elem?, length,
}
use clueless_task_manager.RingBuffer.{advance, push, peek_item}
use clueless_task_manager.RingBuffer.Slots.{push_fields}
use clueless_task_manager.RingBuffer.History.{
  Models, Sized, record_sample, push-Models, fresh-Models, take-cons_take,
}
use clueless_task_manager.Sampler.{
  Sampler, ProcessFn, unset, sampler_turn, Allocs, sampler_create, sampler_get_value,
}
use clueless_task_manager.Sampler.Samples.{
  fixed, bytes_of, value_of, get_value-value_of, created-ring,
}
use clueless_task_manager.Sampler.System.{
  System, initial, started, stopped, Step, start, stop, read_thread, join, capture, leave, Reach,
  here, later,
}

-- the ring of a sampler of 100 slots after these captures, newest first
pub record Holds (item_size : ℕ) (s : System) (results : List (Bool × List ℕ)) : Type 0 where
  pub models : Models s.sampler.ring (take 100 (bytes_of results))
  pub slots : s.sampler.ring.capacity ≡ 100
  pub size : s.sampler.ring.item_size ≡ item_size

turn-push :
    (result : Bool × List ℕ) (s : Sampler) {s' : Sampler} {notify : Bool}
    → sampler_turn (fixed result) s ≡ some (s', notify)
    → s'.ring ≡ push s.ring result.1
unfolding sampler_turn push advance
turn-push result s ran = ground arith

ring-Holds :
    {item_size : ℕ} {s s' : System} {results : List (Bool × List ℕ)}
    → s'.sampler.ring ≡ s.sampler.ring
    → Holds item_size s results
    → Holds item_size s' results
ring-Holds {results = results} e h = record {
  models = subst (λ r. Models r (take 100 (bytes_of results))) (sym e) h.models;
  slots = ap (λ r. r.capacity) e ∙ h.slots;
  size = ap (λ r. r.item_size) e ∙ h.size;
}

push-Holds :
    {item_size : ℕ} {s s' : System} {results : List (Bool × List ℕ)} (result : Bool × List ℕ)
    → s'.sampler.ring ≡ push s.sampler.ring result.1
    → length result.1 ≡ item_size
    → Holds item_size s results
    → Holds item_size s' (result ∷ results)
unfolding bytes_of
push-Holds {item_size} {s} {results = results} result e sized h =
    let bytes = bytes_of results in
    let (c, z, _, _, _) = push_fields result.1 h.models.valid in
    let kept : record_sample s.sampler.ring.capacity result.1 (take 100 bytes)
        ≡ take 100 (result.1 ∷ bytes) =
      rw h.slots (take-cons_take 100 result.1 bytes) in
    let next = push-Models (take 100 bytes) result.1 h.models (sized ∙ sym h.size) in
    record {
      models = rw (e, ← kept) next;
      slots = ap (λ r. r.capacity) e ∙ c ∙ h.slots;
      size = ap (λ r. r.item_size) e ∙ z ∙ h.size;
    }

started-ring : (created : ℕ) (s : System) → (started created s).sampler.ring ≡ s.sampler.ring
unfolding started
started-ring created s = ground arith

Step-Holds :
    {n item_size : ℕ} {s s' : System} {new results : List (Bool × List ℕ)}
    → Step n s new s'
    → Sized item_size (bytes_of (new ++ results))
    → Holds item_size s results
    → Holds item_size s' (new ++ results)
unfolding stopped bytes_of
Step-Holds {s} (start i created lt at) sized h = ring-Holds (started-ring created s) h
Step-Holds (stop i lt at) sized h = ring-Holds refl h
Step-Holds (read_thread i lt at) sized h = ring-Holds refl h
Step-Holds (join i t lt at over) sized h = ring-Holds refl h
Step-Holds (leave t result at over) sized h = ring-Holds refl h
Step-Holds {s} (capture t result at ran) sized h =
    push-Holds result (turn-push result s.sampler ran) sized.0 h

Sized-after :
    (item_size : ℕ) (new results : List (Bool × List ℕ))
    → Sized item_size (bytes_of (new ++ results))
    → Sized item_size (bytes_of results)
unfolding bytes_of
Sized-after z [] results sized = sized
Sized-after z (r ∷ new) results sized = Sized-after z new results sized.1

Reach-Holds :
    {n item_size : ℕ} {s s' : System} {results : List (Bool × List ℕ)}
    → Reach n s results s'
    → Sized item_size (bytes_of results)
    → Holds item_size s []
    → Holds item_size s' results
Reach-Holds here sized h = h
Reach-Holds (later {results} {new} past st) sized h =
    Step-Holds st sized (Reach-Holds past (Sized-after _ new results sized) h)

-- Whatever threads and controllers do, in any order, a reader gets the value of the newest sample and of
-- the one `window` captures before it, among the 100 newest in the order in which the captures took
-- the lock. Where there are not that many it gets -1 with EAGAIN. The sampler was created with
-- an item size whose 100-fold fits a machine word, and each capture fills the slot.
pub sampler_get_value-interleaved :
    (sys : Allocs) (interval item_size n : ℕ) {s : Sampler} {s' : System}
    {results : List (Bool × List ℕ)}
    → (window : ℕ) (f : ProcessFn) → 100 * item_size < 2 ^ 64
    → 0 < window
    → sampler_create sys interval item_size true ≡ (unset, some s)
    → Reach n (initial s) results s'
    → Sized item_size (bytes_of results)
    → let history = take 100 (bytes_of results) in
      sampler_get_value (some s'.sampler) window (some f)
      ≡ value_of f (get_elem? history 0) (get_elem? history window)
unfolding bytes_of
sampler_get_value-interleaved sys interval item_size n {s} {s'} {results} window f fits h made past
      sized =
    let (fresh, c, z) =
      fresh-Models 100 item_size (omega arith) (omega arith) fits
        (created-ring sys interval item_size made) in
    let held = Reach-Holds past sized (record { models = fresh; slots = c; size = z }) in
    get_value-value_of s'.sampler window f h
    ∙ ap (λ o. value_of f o (peek_item s'.sampler.ring window)) (held.models.reads 0)
    ∙ ap (λ o. value_of f (get_elem? (take 100 (bytes_of results)) 0) o) (held.models.reads window)
