-- ===== src/Invalidate/Skipped.antt =====
-- invalidateAffectedQueryCaches of cache.go for a key for which phase 1 gathers nothing.
use thing.Prelude.{
  ℤ, Str, str_eq, str_eq_iff, Bool, true, false, not, ◌&&◌, ◌≡◌, refl, ◌∙◌, Option, none, some,
  List, [], ◌∷◌, any, arith, Bool-cases, inl, inr, if◌then◌else◌,
}
use thing.Prelude.Dict.{get, get_or, mem_str, mem_str-append}
use thing.Query.{QueryParams, Error, panicked, Result, ok, err}
use thing.Value.{Runtime}
use thing.Predicate.Node.{Predicate}
use thing.Index.State.{CacheIndex, QueryDependencies, is_list_key, is_count_key}
use thing.Index.Lookup.{InvalidationContext}
use thing.Invalidate.Tasks.{
  Change, CacheTask, Gathered, skip, drop, stop, task, task_if, after_error, gather, gather_found,
  gather_delete, gather_save, check_row, check_original, no_dependencies,
}
use thing.Invalidate.Run.{
  Client, Phase, write_needed, delete_calls, add_gathered, gather_all, write_all, Deleted, done,
  context_of, run_change,
}

-- What is gathered for a key is about that key.
abbrev Keyed : Str → Gathered → Type 0
Keyed key (task t) = t.cache_key ≡ key
Keyed key _ = Unit

Keyed-task_if : (key : Str) (b : Bool) (t : CacheTask) → t.cache_key ≡ key → Keyed key (task_if b t)
unfolding task_if
Keyed-task_if key true t h = h
Keyed-task_if key false t h = tt

Keyed-after_error : (key : Str) (e : Error) → Keyed key (after_error e)
unfolding after_error
Keyed-after_error key panicked = tt
Keyed-after_error key _ = tt

Keyed-gather_save :
    (c : Change) (key : Str) (deps : QueryDependencies) (now before : Result Bool)
    → Keyed key (gather_save c key deps now before)
unfolding gather_save
Keyed-gather_save c key deps (err e) before = Keyed-after_error key e
Keyed-gather_save c key deps (ok a) (err e) = Keyed-after_error key e
Keyed-gather_save c key deps (ok a) (ok b) = Keyed-task_if key _ _ refl

Keyed-gather_delete : (key : Str) (r : Result Bool) → Keyed key (gather_delete key r)
unfolding gather_delete
Keyed-gather_delete key (err e) = Keyed-after_error key e
Keyed-gather_delete key (ok b) = Keyed-task_if key b _ refl

Keyed-if :
    (key : Str) (b : Bool) (g h : Gathered)
    → Keyed key g
    → Keyed key h
    → Keyed key (if b then g else h)
Keyed-if key true g h p q = p
Keyed-if key false g h p q = q

Keyed-gather_found :
    (f : Runtime) (c : Change) (key : Str) (params : QueryParams) (deps : QueryDependencies)
    (pred : Option Predicate)
    → Keyed key (gather_found f c key params deps pred)
unfolding gather_found
Keyed-gather_found f c key params deps pred =
    Keyed-if key c.is_delete _ _ (Keyed-gather_delete key (check_row f c params pred c.row)) (
      Keyed-gather_save c key deps (check_row f c params pred c.row)
        (check_original f c params pred))

Keyed-gather :
    (f : Runtime) (c : Change) (ctx : InvalidationContext) (key : Str)
    → Keyed key (gather f c ctx key)
unfolding gather
Keyed-gather f c ctx key =
    Keyed-if key (not (is_list_key key) && not (is_count_key key)) _ _ tt
      (by_params (get key ctx.key_to_params))
  where
    by_params :
        (o : Option QueryParams)
        → Keyed key (elim o [
          | none ↦ skip
          | some params ↦
              gather_found f c key params
                (get_or key ctx.key_to_deps no_dependencies)
                (get_or key ctx.key_to_predicate none)
        ])
    by_params none = tt
    by_params (some params) = Keyed-gather_found f c key params _ _

-- A task for a key.
abbrev has_key : Str → CacheTask → Bool
has_key k t = str_eq t.cache_key k

-- Nothing that is gathered so far is about the key.
abbrev Avoids : Str → Phase → Type 0
Avoids k s = (mem_str k s.dropped ≡ false) × (any (has_key k) s.tasks ≡ false)

Avoids-add_gathered :
    (k key : Str) (g : Gathered) (s : Phase)
    → (str_eq key k ≡ false)
    → Keyed key g
    → Avoids k s
    → Avoids k (add_gathered key g s)
unfolding add_gathered mem_str
Avoids-add_gathered k key skip s n h a = a
Avoids-add_gathered k key drop s n h a = (ground (arith, n, a.0), a.1)
Avoids-add_gathered k key stop s n h a = (refl, refl)
Avoids-add_gathered k key (task t) s n h a = (a.0, rw (h, n) a.1)

Avoids-gather_all :
    (f : Runtime) (c : Change) (ctx : InvalidationContext) (k : Str) (ks : List Str)
    → (mem_str k ks ≡ true → gather f c ctx k ≡ skip)
    → Avoids k (gather_all f c ctx ks)
unfolding gather_all mem_str add_gathered
Avoids-gather_all f c ctx k [] h = (refl, refl)
Avoids-gather_all f c ctx k (key ∷ ks) h = elim (Bool-cases (str_eq key k)) [
  | inl here ↦
      let same : key ≡ k = (str_eq_iff key k).0 here in
      rw (same, h (ground (arith, here)))
        (Avoids-gather_all f c ctx k ks (λ m. h (ground (arith, here))))
  | inr there ↦
      Avoids-add_gathered k key (gather f c ctx key) (gather_all f c ctx ks) there
        (Keyed-gather f c ctx key) (Avoids-gather_all f c ctx k ks (λ m. h (ground (arith, m))))
]

mem_str-delete_calls_other :
    (k key : Str) (o : Deleted) → str_eq key k ≡ false → mem_str k (delete_calls key o) ≡ false
unfolding mem_str delete_calls
mem_str-delete_calls_other k key done h = ground (arith, h)
mem_str-delete_calls_other k key _ h = ground (arith, h)

mem_str-write_all :
    (client : Client) (id : ℤ) (k : Str) (tasks : List CacheTask)
    → any (has_key k) tasks ≡ false
    → mem_str k (write_all client id tasks) ≡ false
unfolding write_all mem_str
mem_str-write_all client id k [] h = refl
mem_str-write_all client id k (t ∷ tasks) h = elim (Bool-cases (write_needed client id t)) [
  | inl w ↦ rw w (
      mem_str-append k (delete_calls t.cache_key (client.delete t.cache_key))
        (write_all client id tasks)
      ∙ ground (
        arith,
        h,
        mem_str-write_all client id k tasks,
        mem_str-delete_calls_other k t.cache_key (client.delete t.cache_key),
      ))
  | inr w ↦ rw w (mem_str-write_all client id k tasks (ground (arith, h)))
]

-- A key for which nothing is gathered is not deleted.
pub run_change_skips :
    (f : Runtime) (client : Client) (id : ℤ) (c : Change) (idx : CacheIndex) (k : Str)
    → (mem_str k (context_of f c idx).cache_keys ≡ true → gather f c (context_of f c idx) k ≡ skip)
    → mem_str k (run_change f client id c idx).deletions ≡ false
unfolding run_change mem_str
run_change_skips f client id c idx k h =
    let ctx = context_of f c idx in
    let a = Avoids-gather_all f c ctx k ctx.cache_keys h in
    mem_str-append k (gather_all f c ctx ctx.cache_keys).dropped _
    ∙ elim (Bool-cases (gather_all f c ctx ctx.cache_keys).panics) [
      | inl panics ↦ rw (a.0, panics) refl
      | inr goes_on ↦
          rw (a.0, goes_on)
            (mem_str-write_all client id k (gather_all f c ctx ctx.cache_keys).tasks a.1)
    ]
