-- ===== src/Polymarket/Locks/Exclusion.antt =====
-- Two runs never overlap while the lock of the first lasts
-- (backend/app/integrations/polymarket/tasks.py).
use mathlib.Core.Path.{subst}
use xpredict.Prelude.{
  ℕ, ◌≤◌, ◌<◌, ◌≡◌, refl, sym, ◌∙◌, Bool, not, Option, none, some, [], ◌==◌, if◌then◌else◌,
  where_rows, All, All-map, All-where, arith, Bool-cases, Option-cases, inl, inr,
}
use xpredict.Polymarket.Locks.{
  Redis, release_if, Run, Workers, begin_run, start, finish, Step, passes, starts, finishes, Reach,
  here, next,
}

module _ (redis : Redis) (ttl : ℕ) where
  -- While the lock of a run lasts, the key holds its token.
  abbrev Holds : ℕ → redis.Store → Run redis ttl → Type 0
  Holds clock s r = (t : ℕ) → clock ≤ t → t < r.deadline → redis.get t s ≡ some r.token

  abbrev IsSafe : Workers redis ttl → Type 0
  IsSafe w = All (Holds w.clock w.store) w.running

  start-IsSafe : (token : ℕ) (w : Workers redis ttl) → IsSafe w → IsSafe (start redis ttl token w)
  unfolding start
  start-IsSafe token w safe = elim (Option-cases (redis.get w.clock w.store)) [
    | inl free ↦
        let (won, holds) = redis.set-free w.clock token ttl w.store free in
        let s' = (redis.set_nx_ex w.clock token ttl w.store).1 in
        let expired =
          All-map w.running
            (λ r h t later alive.
              absurd (cc (sym free ∙ h w.clock (omega arith) (omega (arith, later, alive)))))
            safe in
        subst (λ b. IsSafe (begin_run redis ttl w token ((if b then some token else none), s')))
          (sym won) (holds, expired)
    | inr (v, held) ↦
        subst
          (λ (p : Bool × redis.Store).
            IsSafe (begin_run redis ttl w token ((if p.0 then some token else none), p.1)))
          (sym (redis.set-held w.clock token ttl w.store v held)) safe
  ]

  release-IsSafe :
      (token : ℕ) (w : Workers redis ttl) (got : Option ℕ)
      → redis.get w.clock w.store ≡ got
      → IsSafe w
      → All
          (Holds w.clock (release_if redis ttl got token w.store))
          (where_rows (λ (r : Run redis ttl). not (r.token == token)) w.running)
  release-IsSafe token w none h safe = All-where _ w.running (λ r e k. k) safe
  release-IsSafe token w (some v) h safe = elim (Bool-cases (v == token)) [
    | inl e ↦ rw e (
        All-where (λ (r : Run redis ttl). not (r.token == token)) w.running
          (λ r other k t later alive.
            let mine : v ≡ r.token =
              cc (sym h ∙ k w.clock (omega arith) (omega (arith, later, alive))) in
            absurd (ground (arith, mine, e, other)))
          safe)
    | inr ne ↦
        rw ne
          (All-where (λ (r : Run redis ttl). not (r.token == token)) w.running (λ r o k. k) safe)
  ]

  Step-IsSafe : {w u : Workers redis ttl} → Step redis ttl w u → IsSafe w → IsSafe u
  unfolding finish
  Step-IsSafe {w} (passes d) safe =
      All-map w.running (λ r k t later alive. k t (omega (arith, later)) alive) safe
  Step-IsSafe {w} (starts token) safe = start-IsSafe token w safe
  Step-IsSafe {w} (finishes token) safe =
      release-IsSafe token w (redis.get w.clock w.store) refl safe

  Reach-IsSafe : {w u : Workers redis ttl} → Reach redis ttl w u → IsSafe w → IsSafe u
  Reach-IsSafe here safe = safe
  Reach-IsSafe (next r st) safe = Step-IsSafe st (Reach-IsSafe r safe)

-- From a state in which nothing runs, whatever the workers start and end and however much time
-- passes: of the runs whose lock has not expired, all have one token.
pub poll_lock_excludes :
    (redis : Redis) (ttl : ℕ) (w u : Workers redis ttl)
    → w.running ≡ []
    → Reach redis ttl w u
    → All
        (λ (a : Run redis ttl).
          All
            (λ (b : Run redis ttl). u.clock < a.deadline → u.clock < b.deadline → a.token ≡ b.token)
            u.running)
        u.running
poll_lock_excludes redis ttl w u idle reach =
    let safe =
      Reach-IsSafe redis ttl reach (subst (All (Holds redis ttl w.clock w.store)) (sym idle) tt) in
    All-map u.running
      (λ a p.
        All-map u.running
          (λ b q alive alive'.
            cc (sym (p u.clock (omega arith) alive) ∙ q u.clock (omega arith) alive'))
          safe)
      safe
