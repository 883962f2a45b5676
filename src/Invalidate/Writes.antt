-- ===== src/Invalidate/Writes.antt =====
-- When phases 2 to 4 of invalidateAffectedQueryCaches in cache.go delete a key.
use thing.Prelude.{
  ℤ, Str, str_eq, str_eq_iff, str_eq_refl, Bool, true, false, not, ◌&&◌, ◌||◌, ◌≡◌, ◌≢◌, refl, ◌∙◌,
  List, [], ◌∷◌, arith, Bool-cases, inl, inr,
}
use thing.Prelude.Dict.{mem_str, mem_str-append}
use thing.Value.{Runtime}
use thing.Index.State.{is_list_key, is_count_key}
use thing.Index.Lookup.{InvalidationContext}
use thing.Invalidate.Tasks.{Change, CacheTask, Gathered, skip, drop, stop, task, gather}
use thing.Invalidate.Run.{
  IdsRead, not_found, ids, Client, contains_id, list_write, write_needed, delete_calls, Phase,
  add_gathered, gather_all, write_all, Deleted, done,
}

mem_str-delete_calls : (k : Str) (o : Deleted) → mem_str k (delete_calls k o) ≡ true
unfolding mem_str delete_calls
mem_str-delete_calls k done = ground (arith, str_eq_refl k)
mem_str-delete_calls k _ = ground (arith, str_eq_refl k)

write_all-here :
    (client : Client) (id : ℤ) (t : CacheTask) (tasks : List CacheTask)
    → write_needed client id t ≡ true
    → mem_str t.cache_key (write_all client id (t ∷ tasks)) ≡ true
unfolding write_all
write_all-here client id t tasks w = rw w (
    mem_str-append t.cache_key (delete_calls t.cache_key (client.delete t.cache_key))
      (write_all client id tasks)
    ∙ rw (mem_str-delete_calls t.cache_key (client.delete t.cache_key)) refl)

write_all-there :
    (client : Client) (id : ℤ) (k : Str) (t : CacheTask) (tasks : List CacheTask)
    → mem_str k (write_all client id tasks) ≡ true
    → mem_str k (write_all client id (t ∷ tasks)) ≡ true
unfolding write_all
write_all-there client id k t tasks h = elim (Bool-cases (write_needed client id t)) [
  | inl w ↦ rw w (
      mem_str-append k (delete_calls t.cache_key (client.delete t.cache_key))
        (write_all client id tasks)
      ∙ ground (arith, h))
  | inr w ↦ rw w h
]

add_gathered-there :
    (client : Client) (id : ℤ) (k key : Str) (g : Gathered) (s : Phase)
    → g ≢ stop
    → mem_str k (write_all client id s.tasks) ≡ true
    → mem_str k (write_all client id (add_gathered key g s).tasks) ≡ true
unfolding add_gathered
add_gathered-there client id k key skip s n h = h
add_gathered-there client id k key drop s n h = h
add_gathered-there client id k key stop s n h = absurd (n refl)
add_gathered-there client id k key (task t) s n h = write_all-there client id k t s.tasks h

add_gathered_panics :
    (key : Str) (g : Gathered) (s : Phase) → g ≢ stop → (add_gathered key g s).panics ≡ s.panics
unfolding add_gathered
add_gathered_panics key skip s n = refl
add_gathered_panics key drop s n = refl
add_gathered_panics key stop s n = absurd (n refl)
add_gathered_panics key (task t) s n = refl

-- Phase 1 does not panic if none of its rounds does.
pub gather_all_panics :
    (f : Runtime) (c : Change) (ctx : InvalidationContext) (ks : List Str)
    → ((k : Str) → mem_str k ks ≡ true → gather f c ctx k ≢ stop)
    → (gather_all f c ctx ks).panics ≡ false
unfolding gather_all mem_str
gather_all_panics f c ctx [] calm = refl
gather_all_panics f c ctx (k ∷ ks) calm =
    add_gathered_panics k (gather f c ctx k) (gather_all f c ctx ks)
      (calm k (ground (arith, str_eq_refl k)))
    ∙ gather_all_panics f c ctx ks (λ j m. calm j (ground (arith, m)))

-- A listed key whose task needs a write is written, if no round panics.
pub write_all-gathered :
    (f : Runtime) (client : Client) (id : ℤ) (c : Change) (ctx : InvalidationContext)
    (ks : List Str) (key : Str) (t : CacheTask)
    → mem_str key ks ≡ true
    → gather f c ctx key ≡ task t
    → write_needed client id t ≡ true
    → ((k : Str) → mem_str k ks ≡ true → gather f c ctx k ≢ stop)
    → mem_str t.cache_key (write_all client id (gather_all f c ctx ks).tasks) ≡ true
unfolding gather_all add_gathered mem_str
write_all-gathered f client id c ctx [] key t m g w calm = absurd (ground arith)
write_all-gathered f client id c ctx (k ∷ ks) key t m g w calm = elim (Bool-cases (str_eq k key)) [
  | inl here ↦
      let same : k ≡ key = (str_eq_iff k key).0 here in
      rw (same, g) (write_all-here client id t (gather_all f c ctx ks).tasks w)
  | inr there ↦
      add_gathered-there client id t.cache_key k (gather f c ctx k) (gather_all f c ctx ks)
        (calm k (ground (arith, str_eq_refl k)))
        (write_all-gathered f client id c ctx ks key t (ground arith) g w
          (λ j m. calm j (ground (arith, m))))
]

-- The list that the cache holds for a key, where reading it does not fail: none, or one that
-- agrees on whether the identifier is in it.
pub data ListRead (id : ℤ) (b : Bool) : IdsRead → Type 0 where
  absent : ListRead id b not_found
  present : (xs : List ℤ) → contains_id xs id ≡ b → ListRead id b (ids xs)

-- The task of a key for which the row's match changes to `a`.
abbrev pub task_for : Change → Str → Bool → CacheTask
task_for c key a = record {
  cache_key = key;
  is_list = is_list_key key;
  is_count = is_count_key key;
  needs_add = a;
  needs_remove = not a || (c.keep_item_changed && a);
}

list_write_lem :
    (id : ℤ) (a : Bool) (c : Change) (key : Str) (r : IdsRead)
    → ListRead id (not a) r
    → list_write (task_for c key a) id r ≡ true
unfolding list_write
list_write_lem id true c key _ absent = refl
list_write_lem id false c key _ absent = refl
list_write_lem id true c key _ (present xs h) = rw h refl
list_write_lem id false c key _ (present xs h) = refl

pub write_needed_lem :
    (client : Client) (id : ℤ) (a : Bool) (c : Change) (key : Str)
    → (is_list_key key || is_count_key key) ≡ true
    → (is_list_key key ≡ true → ListRead id (not a) (client.get_query_ids key))
    → write_needed client id (task_for c key a) ≡ true
unfolding write_needed
write_needed_lem client id a c key kind read = elim (Bool-cases (is_list_key key)) [
  | inl l ↦ ground (arith, l, list_write_lem id a c key (client.get_query_ids key) (read l))
  | inr n ↦ ground (arith, kind)
]
