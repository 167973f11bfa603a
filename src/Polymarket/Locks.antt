-- ===== src/Polymarket/Locks.antt =====
-- The locks of backend/app/integrations/polymarket/tasks.py: `acquire_poll_lock` and
-- `release_poll_lock`, of which the locks of the events poll and of the detection are copies under
-- other keys. Redis is an interface, with what its documentation says of the commands that are used;
-- `ttl` and the clock are in one unit.
pub mod Exclusion
use xpredict.Prelude.{
  ℕ, ◌+◌, ◌≤◌, ◌<◌, ◌≡◌, Bool, true, false, not, Option, none, some, List, [], ◌∷◌, ◌==◌, ltb,
  if◌then◌else◌, where_rows,
}

-- One key of a Redis server. `get` reads it at a time; `set_nx_ex` is SET … NX EX, and says whether
-- it wrote.
pub record Redis : Type 1 where
  pub Store : Type 0
  pub get : ℕ → Store → Option ℕ
  pub set_nx_ex : ℕ → ℕ → ℕ → Store → Bool × Store
  pub del : Store → Store
  -- A key that is there is not written.
  pub set-held :
      (now token ttl : ℕ) (s : Store) (v : ℕ)
      → get now s ≡ some v
      → set_nx_ex now token ttl s ≡ (false, s)
  -- A key that is not there is written, and holds the value until the time to live has passed.
  pub set-free :
      (now token ttl : ℕ) (s : Store)
      → get now s ≡ none
      → ((set_nx_ex now token ttl s).0 ≡ true)
        × ((t : ℕ) → now ≤ t → t < now + ttl → get t (set_nx_ex now token ttl s).1 ≡ some token)

module _ (redis : Redis) (ttl : ℕ) where
  -- `acquire_poll_lock`: the token, or `none` if the lock is held. `token` is `uuid4().hex`.
  abbrev pub acquire_poll_lock : ℕ → ℕ → redis.Store → Option ℕ × redis.Store
  acquire_poll_lock now token s =
      let (acquired, s') = redis.set_nx_ex now token ttl s in
      ((if acquired then some token else none), s')

  abbrev release_if : Option ℕ → ℕ → redis.Store → redis.Store
  release_if none token s = s
  release_if (some v) token s = if v == token then redis.del s else s

  -- `release_poll_lock`, the Lua script: compare and delete
  abbrev pub release_poll_lock : ℕ → ℕ → redis.Store → redis.Store
  release_poll_lock now token s = release_if (redis.get now s) token s

  -- A run of the task between its lock and its release; `deadline` is when its lock expires.
  pub record Run : Type 0 where
    pub token : ℕ
    pub deadline : ℕ

  -- Several workers, and the server.
  pub record Workers : Type 0 where
    pub clock : ℕ
    pub store : redis.Store
    pub running : List Run

  abbrev begin_run : Workers → ℕ → Option ℕ × redis.Store → Workers
  begin_run w token (some t, s) = record w {
    store = s;
    running = record { token = t; deadline = w.clock + ttl } ∷ w.running;
  }
  begin_run w token (none, s) = record w { store = s }

  -- A worker starts the task: it runs only with the lock.
  unfoldable pub start : ℕ → Workers → Workers
  start token w = begin_run w token (acquire_poll_lock w.clock token w.store)

  -- A worker ends its run, in the `finally` of the task.
  unfoldable pub finish : ℕ → Workers → Workers
  finish token w = record w {
    store = release_poll_lock w.clock token w.store;
    running = where_rows (λ (r : Run). not (r.token == token)) w.running;
  }

  pub data Step (w : Workers) : Workers → Type 0 where
    passes : (d : ℕ) → Step w (record w { clock = w.clock + d })
    starts : (token : ℕ) → Step w (start token w)
    finishes : (token : ℕ) → Step w (finish token w)

  pub data Reach (w : Workers) : Workers → Type 0 where
    here : Reach w w
    next : {v u : Workers} → Reach w v → Step v u → Reach w u
