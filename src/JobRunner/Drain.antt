-- ===== src/JobRunner/Drain.antt =====
-- internal/compile/runner.go: the compiles in flight and the goroutines agree, so a drain abandons exactly what still runs.
use sparks_effect_api.Prelude.{
  suc, ◌+◌, ◌<◌, length, refl, arith, nat_Eq, In-contains, Bool, Option, none, some, List, [], ◌∷◌,
  Str, true, false, ◌==◌, str_Eq, str_eq_iff, contains, insert, ◌≡◌, subst, sym, ◌∙◌, ◌⊎◌, inl, inr,
  In, Bool-cases, NoRepeat, Within, contains-In,
}
use sparks_effect_api.JobRunner.{
  Runner, new_runner, enqueue, delete, leave, finish, done, start_drain, drain_answer,
}

-- The steps of a runner. A job is enqueued under an id of its own, a goroutine that finishes was
-- started, and one that tells the wait group has finished.
pub data Runs : Runner → Type 0 where
  starts : Runs new_runner
  enqueues : {r : Runner} (id : Str) → Runs r → ¬ (In id r.compiling) → Runs (enqueue id r)
  finishes : {r : Runner} (id : Str) → Runs r → In id r.compiling → Runs (finish id r)
  tells : {r : Runner} (id : Str) → Runs r → In id r.leaving → Runs (done id r)
  drains : {r : Runner} → Runs r → Runs (start_drain r)

pub record Agree (r : Runner) : Type 0 where
  pub distinct : NoRepeat r.compiling
  pub once : NoRepeat r.in_flight
  pub running : Within r.in_flight r.compiling
  pub tracked : Within r.compiling r.in_flight
  pub counted : r.wait_group ≡ length r.compiling + length r.leaving

In-insert : (x y : Str) (xs : List Str) → In x (insert y xs) → (x ≡ y) ⊎ In x xs
unfolding insert
In-insert x y xs m = elim (Bool-cases (contains xs y)) [
  | inl old ↦ inr (rw (old, insert) at m)
  | inr new ↦ rw (new, insert) at m
]

insert-In : (x y : Str) (xs : List Str) → (x ≡ y) ⊎ In x xs → In x (insert y xs)
unfolding insert
insert-In x y xs m = elim (Bool-cases (contains xs y)) [
  | inl old ↦ rw old (elim m [ inl p ↦ rw p (contains-In xs y old) | inr k ↦ k ])
  | inr new ↦ rw new m
]

not_same : (k id : Str) → (k == id) ≡ false → ¬ (k ≡ id)
not_same k id n e = let y = (str_eq_iff k id).1 e in cc

same_id : (k id : Str) → (k == id) ≡ true → k ≡ id
same_id k id e = (str_eq_iff k id).0 e

delete-In : (x id : Str) (xs : List Str) → In x (delete id xs) → In x xs × (¬ (x ≡ id))
unfolding delete
delete-In x id [] m = absurd m
delete-In x id (k ∷ ks) m = elim (Bool-cases (k == id)) [
  | inl hit ↦ let (l, n) = delete-In x id ks (rw (hit, delete) at m) in (inr l, n)
  | inr miss ↦ go (rw (miss, delete) at m) (not_same k id miss) (λ l. delete-In x id ks l)
]
  where
    go :
        In x (k ∷ delete id ks)
        → ¬ (k ≡ id)
        → (In x (delete id ks) → In x ks × (¬ (x ≡ id)))
        → In x (k ∷ ks) × (¬ (x ≡ id))
    go (inl p) n ih = (inl p, λ e. n (sym p ∙ e))
    go (inr l) n ih = (inr (ih l).0, (ih l).1)

In-delete : (x id : Str) (xs : List Str) → In x xs → ¬ (x ≡ id) → In x (delete id xs)
unfolding delete
In-delete x id [] m n = absurd m
In-delete x id (k ∷ ks) m n = elim (Bool-cases (k == id)) [
  | inl hit ↦
      rw hit (elim m [ inl p ↦ absurd (n (p ∙ same_id k id hit)) | inr l ↦ In-delete x id ks l n ])
  | inr miss ↦ rw miss (elim m [ inl p ↦ inl p | inr l ↦ inr (In-delete x id ks l n) ])
]

leave-In : (x id : Str) (xs : List Str) → In x (leave id xs) → In x xs
unfolding leave
leave-In x id [] m = absurd m
leave-In x id (k ∷ ks) m = elim (Bool-cases (k == id)) [
  | inl hit ↦ inr (rw (hit, leave) at m)
  | inr miss ↦ elim (kept (rw (miss, leave) at m)) [
    | inl p ↦ inl p
    | inr l ↦ inr (leave-In x id ks l)
  ]
]
  where
    kept : In x (k ∷ leave id ks) → (x ≡ k) ⊎ In x (leave id ks)
    kept l = l

In-leave : (x id : Str) (xs : List Str) → In x xs → ¬ (x ≡ id) → In x (leave id xs)
unfolding leave
In-leave x id [] m n = absurd m
In-leave x id (k ∷ ks) m n = elim (Bool-cases (k == id)) [
  | inl hit ↦ rw hit (elim m [ inl p ↦ absurd (n (p ∙ same_id k id hit)) | inr l ↦ l ])
  | inr miss ↦ rw miss (elim m [ inl p ↦ inl p | inr l ↦ inr (In-leave x id ks l n) ])
]

-- Without repetition the one occurrence is gone, and what is left has none either.
leave-NoRepeat :
    (id : Str) (xs : List Str) → NoRepeat xs → NoRepeat (leave id xs) × (¬ (In id (leave id xs)))
unfolding leave
leave-NoRepeat id [] d = (tt, λ m. m)
leave-NoRepeat id (k ∷ ks) d = elim (Bool-cases (k == id)) [
  | inl hit ↦ rw hit (d.1, λ m. d.0 (subst (λ z. In z ks) (sym (same_id k id hit)) m))
  | inr miss ↦
      let (e, out) = leave-NoRepeat id ks d.1 in
      rw miss (
        ((λ m. d.0 (leave-In k id ks m)), e),
        λ m. elim m [ inl p ↦ not_same k id miss (sym p) | inr l ↦ out l ],
      )
]

insert-NoRepeat : (id : Str) (xs : List Str) → NoRepeat xs → NoRepeat (insert id xs)
unfolding insert
insert-NoRepeat id xs d = elim (Bool-cases (contains xs id)) [
  | inl old ↦ rw old d
  | inr new ↦ rw new ((λ m. let h = In-contains xs id m in cc), d)
]

delete-NoRepeat : (id : Str) (xs : List Str) → NoRepeat xs → NoRepeat (delete id xs)
unfolding delete
delete-NoRepeat id [] d = tt
delete-NoRepeat id (k ∷ ks) d = elim (Bool-cases (k == id)) [
  | inl here ↦ rw here (delete-NoRepeat id ks d.1)
  | inr miss ↦ rw miss ((λ m. d.0 (delete-In k id ks m).0), delete-NoRepeat id ks d.1)
]

leave-length : (id : Str) (xs : List Str) → In id xs → suc (length (leave id xs)) ≡ length xs
unfolding leave
leave-length id [] m = absurd m
leave-length id (k ∷ ks) m = elim (Bool-cases (k == id)) [
  | inl here ↦ rw here refl
  | inr miss ↦ elim m [
    | inl e ↦ absurd (not_same k id miss (sym e))
    | inr l ↦ rw miss (omega (arith, leave-length id ks l))
  ]
]

enqueue-Agree : (id : Str) (r : Runner) → ¬ (In id r.compiling) → Agree r → Agree (enqueue id r)
unfolding enqueue
enqueue-Agree id r new a = elim (Bool-cases r.draining) [
  | inl shut ↦ rw shut (record {
    distinct = a.distinct;
    once = a.once;
    running = a.running;
    tracked = a.tracked;
    counted = a.counted;
  })
  | inr open_still ↦ rw open_still (record {
    distinct = (new, a.distinct);
    once = insert-NoRepeat id r.in_flight a.once;
    running =
        λ z m. elim (In-insert z id r.in_flight m) [ inl p ↦ inl p | inr l ↦ inr (a.running z l) ];
    tracked = λ z m. elim m [
      | inl p ↦ insert-In z id r.in_flight (inl p)
      | inr l ↦ insert-In z id r.in_flight (inr (a.tracked z l))
    ];
    counted = omega (arith, a.counted);
  })
]

finish-Agree : (id : Str) (r : Runner) → In id r.compiling → Agree r → Agree (finish id r)
unfolding finish
finish-Agree id r here a =
    let (d, out) = leave-NoRepeat id r.compiling a.distinct in
    record {
      distinct = d;
      once = delete-NoRepeat id r.in_flight a.once;
      running = λ z m.
          let (l, n) = delete-In z id r.in_flight m in In-leave z id r.compiling (a.running z l) n;
      tracked = λ z m.
          In-delete z id r.in_flight (a.tracked z (leave-In z id r.compiling m))
            (λ e. out (subst (λ k. In k (leave id r.compiling)) e m));
      counted = omega (arith, a.counted, leave-length id r.compiling here);
    }

done-Agree : (id : Str) (r : Runner) → In id r.leaving → Agree r → Agree (done id r)
unfolding done
done-Agree id r here a = record {
  distinct = a.distinct;
  once = a.once;
  running = a.running;
  tracked = a.tracked;
  counted = omega (arith, a.counted, leave-length id r.leaving here);
}

-- In every state that a runner reaches, the ids in flight are those of its goroutines.
Runs-Agree : {r : Runner} → Runs r → Agree r
Runs-Agree starts = record {
  distinct = tt;
  once = tt;
  running = λ z m. m;
  tracked = λ z m. m;
  counted = refl;
}
Runs-Agree (enqueues id s new) = enqueue-Agree id _ new (Runs-Agree s)
Runs-Agree (finishes id s m) = finish-Agree id _ m (Runs-Agree s)
Runs-Agree (tells id s m) = done-Agree id _ m (Runs-Agree s)
Runs-Agree (drains s) =
    let a = Runs-Agree s in
    record {
      distinct = a.distinct;
      once = a.once;
      running = a.running;
      tracked = a.tracked;
      counted = a.counted;
    }

-- What a drain says of the compiles: it waits for one before the deadline, or reports each of them
-- once.
abbrev pub Reported : Bool → Runner → Option (List Str) → Type 0
Reported expired r none = (expired ≡ false) × (0 < length r.compiling + length r.leaving)
Reported expired r (some ids) = NoRepeat ids × Within ids r.compiling × Within r.compiling ids

none_left : (xs : List Str) → length xs ≡ 0 → Within xs []
none_left [] h = λ z m. m
none_left (x ∷ xs) h = absurd (omega (arith, h))

-- In every state that a runner reaches, a drain waits only before its deadline, for a goroutine that
-- has not ended. When it answers, it reports exactly the jobs that still compile, each of them once,
-- also while a goroutine has left the set of compiles and not yet told the wait group.
pub drain_answer-Runs :
    (r : Runner) (expired : Bool) → Runs r → Reported expired r (drain_answer expired r)
unfolding drain_answer
drain_answer-Runs r true s = let a = Runs-Agree s in (a.once, a.running, a.tracked)
drain_answer-Runs r false s =
    let a = Runs-Agree s in
    elim (Bool-cases (r.wait_group == 0)) [
      | inl zero_left ↦
          let empty : length r.compiling ≡ 0 = ground (arith, a.counted) in
          rw (drain_answer, zero_left) (tt, (λ z m. absurd m), none_left r.compiling empty)
      | inr waits ↦ rw (drain_answer, waits) (refl, ground (arith, a.counted))
    ]
