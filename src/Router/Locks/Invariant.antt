-- ===== src/Router/Locks/Invariant.antt =====
-- What holds of tasks and locks at any time.
use wyndpy.Base.{
  ℕ, String, Option, none, some, ℕ_eq, string_eq, ◌≡◌, ◌≢◌, ◌⊎◌, sym, ap, ◌∙◌, subst, inl, inr,
  arith,
}
use wyndpy.Base.Dict.{lookup}
use wyndpy.Router.Action.{setdefault_lock}
use wyndpy.Router.Locks.{
  Pc, outside, waiting, inside, Tasks, update, new_tasks, Step, ask, enter, leave, cancel, Reach,
  start, next,
}
use wyndpy.Router.Locks.Table.{
  IsTable, setdefault_lock-IsTable, setdefault_lock-lookup, setdefault_lock-kept,
}

-- A task waits for, or is inside, the lock that the table has for the id. The owner of a lock is
-- inside it, and a task that is inside owns it.
pub record Inv (s : Tasks) : Type 0 where
  pub table : IsTable s.locks
  pub waits : (i : ℕ) (id : String) (l : ℕ) → s.pc i ≡ waiting id l → lookup id s.locks ≡ some l
  pub works :
      (i : ℕ) (id : String) (l : ℕ)
      → s.pc i ≡ inside id l
      → (lookup id s.locks ≡ some l) × (s.owner l ≡ some i)
  pub owned : (i l : ℕ) → s.owner l ≡ some i → (id : String) × (s.pc i ≡ inside id l)

new_tasks-Inv : Inv new_tasks
unfolding lookup
new_tasks-Inv = record {
  table = record { bounded = λ id l h. cc; distinct = λ a b l h k. cc };
  waits = λ i id l h. cc;
  works = λ i id l h. cc;
  owned = λ i l h. cc;
}

module _ {A : Type 0} (i : ℕ) (a : A) (f : ℕ → A) where
  update-cases : (j : ℕ) (x : A) → update i a f j ≡ x → ((j ≡ i) × (a ≡ x)) ⊎ ((j ≢ i) × (f j ≡ x))
  update-cases j x h = ground (arith, h)

  pub update-same : update i a f i ≡ a
  update-same = ground arith

  pub update-other : (j : ℕ) → j ≢ i → update i a f j ≡ f j
  update-other j h = ground (arith, h)

waiting_injective :
    {a b : String} {l m : ℕ} → ◌≡◌ {A = Pc} (waiting a l) (waiting b m) → (a ≡ b) × (l ≡ m)
waiting_injective h = ground (arith, h)

inside_injective :
    {a b : String} {l m : ℕ} → ◌≡◌ {A = Pc} (inside a l) (inside b m) → (a ≡ b) × (l ≡ m)
inside_injective h = ground (arith, h)

ask-Inv :
    (s : Tasks) (i : ℕ) (id : String)
    → s.pc i ≡ outside
    → Inv s
    → Inv (record s {
      locks = (setdefault_lock id s.locks).1;
      pc = update i (waiting id (setdefault_lock id s.locks).0) s.pc;
    })
ask-Inv s i id out h =
    let (l0, locks) = setdefault_lock id s.locks in
    let got = setdefault_lock-lookup id s.locks in
    record {
      table = setdefault_lock-IsTable id s.locks h.table;
      waits = λ j a l e. elim (update-cases i (waiting id l0) s.pc j (waiting a l) e) [
        | inl (same, asks) ↦ let (ids, ls) = waiting_injective asks in rw (← ids, ← ls) got
        | inr (differs, before) ↦ setdefault_lock-kept a id l s.locks (h.waits j a l before)
      ];
      works = λ j a l e. elim (update-cases i (waiting id l0) s.pc j (inside a l) e) [
        | inl (same, asks) ↦ absurd (no_entry asks)
        | inr (differs, before) ↦
            let (has, owns) = h.works j a l before in
            (setdefault_lock-kept a id l s.locks has, owns)
      ];
      owned = λ j l e.
          let (a, there) = h.owned j l e in
          (a, update-other i (waiting id l0) s.pc j (moved j a l there) ∙ there);
    }
  where
    no_entry : {a b : String} {l m : ℕ} → ◌≡◌ {A = Pc} (waiting a l) (inside b m) → ⊥
    no_entry h = cc

    moved : (j : ℕ) (a : String) (l : ℕ) → s.pc j ≡ inside a l → j ≢ i
    moved j a l there same = ground (arith, there, out, ap s.pc same)

enter-Inv :
    (s : Tasks) (i : ℕ) (id : String) (m : ℕ)
    → s.pc i ≡ waiting id m
    → s.owner m ≡ none
    → Inv s
    → Inv (record s { owner = update m (some i) s.owner; pc = update i (inside id m) s.pc })
enter-Inv s i id m waits free h = record {
  table = h.table;
  waits = λ j a l e. ground (arith, e, h.waits j a l);
  works = λ j a l e. elim (update-cases i (inside id m) s.pc j (inside a l) e) [
    | inl (same, goes) ↦
        let (ids, ls) = inside_injective goes in
        rw (← ids, ← ls) (h.waits i id m waits, update-same m (some i) s.owner ∙ ap some (sym same))
    | inr (differs, before) ↦
        let (has, owns) = h.works j a l before in
        (
          has,
          update-other m (some i) s.owner l (λ same. ground (arith, owns, free, ap s.owner same))
              ∙ owns,
        )
  ];
  owned = λ j l e. elim (update-cases m (some i) s.owner l (some j) e) [
    | inl (same, gets) ↦
        let same_task : i ≡ j = ground (arith, gets) in
        (
          id,
          subst (λ k. update i (inside id m) s.pc k ≡ inside id l) same_task
              (update-same i (inside id m) s.pc ∙ ap (inside id) (sym same)),
        )
    | inr (differs, before) ↦
        let (a, there) = h.owned j l before in
        (
          a,
          update-other i (inside id m) s.pc j (λ same. ground (arith, there, waits, ap s.pc same))
              ∙ there,
        )
  ];
}

leave-Inv :
    (s : Tasks) (i : ℕ) (id : String) (m : ℕ)
    → s.pc i ≡ inside id m
    → Inv s
    → Inv (record s { owner = update m none s.owner; pc = update i outside s.pc })
leave-Inv s i id m works h = record {
  table = h.table;
  waits = λ j a l e. ground (arith, e, h.waits j a l);
  works = λ j a l e. elim (update-cases i outside s.pc j (inside a l) e) [
    | inl (same, goes) ↦ absurd (outside_inside goes)
    | inr (differs, before) ↦
        let (has, owns) = h.works j a l before in
        (
          has,
          update-other m none s.owner l
                (λ same. differs (ground (arith, owns, (h.works i id m works).1, ap s.owner same)))
              ∙ owns,
        )
  ];
  owned = λ j l e. elim (update-cases m none s.owner l (some j) e) [
    | inl (same, gone) ↦ absurd (none_some gone)
    | inr (differs, before) ↦
        let (a, there) = h.owned j l before in
        (
          a,
          update-other i outside s.pc j (λ same.
                differs (sym (inside_injective (sym works ∙ sym (ap s.pc same) ∙ there)).1))
              ∙ there,
        )
  ];
}
  where
    outside_inside : {b : String} {l : ℕ} → ◌≡◌ {A = Pc} outside (inside b l) → ⊥
    outside_inside h = cc

    none_some : {j : ℕ} → ◌≡◌ {A = Option ℕ} none (some j) → ⊥
    none_some h = cc

cancel-Inv :
    (s : Tasks) (i : ℕ) (id : String) (m : ℕ)
    → s.pc i ≡ waiting id m
    → Inv s
    → Inv (record s { pc = update i outside s.pc })
cancel-Inv s i id m waits h = record {
  table = h.table;
  waits = λ j a l e. ground (arith, e, h.waits j a l);
  works = λ j a l e. ground (arith, e, h.works j a l);
  owned = λ j l e.
      let (a, there) = h.owned j l e in
      (
        a,
        update-other i outside s.pc j (λ same. ground (arith, there, waits, ap s.pc same)) ∙ there,
      );
}

pub Step-Inv : {s t : Tasks} → Step s t → Inv s → Inv t
Step-Inv {s} (ask i id out) h = ask-Inv s i id out h
Step-Inv {s} (enter i id l waits free) h = enter-Inv s i id l waits free h
Step-Inv {s} (leave i id l works) h = leave-Inv s i id l works h
Step-Inv {s} (cancel i id l waits) h = cancel-Inv s i id l waits h

pub Reach-Inv : {s : Tasks} → Reach s → Inv s
Reach-Inv start = new_tasks-Inv
Reach-Inv (next r step) = Step-Inv step (Reach-Inv r)
