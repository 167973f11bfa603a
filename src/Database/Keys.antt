-- ===== src/Database/Keys.antt =====
-- `transfers.idempotency_key`. The code builds the texts `bonus:{user}`, `settle:{bet}:{leg}`,
-- `reverse:{bet}:{leg}`, `close:{bet}:{leg}` and `livebets:{bet}:…` from UUIDs, which contain no
-- colon; a text of any other shape is a number of `other`. A client's own key may be any of these.
use xpredict.Prelude.{ℕ, ◌≡◌, refl, Bool, true, false, ◌&&◌, arith, ◌==◌}

-- SETTLE_LEG_* and CLOSE_LEG_*, and the four suffixes of the live-bets keys.
pub data Leg : Type 0 where
  stake win loss : Leg

pub data LiveStage : Type 0 where
  placed settled settled_stake settled_winnings : LiveStage

pub data Key : Type 0 where
  bonus : ℕ → Key
  settle reverse close : ℕ → Leg → Key
  livebets : ℕ → LiveStage → Key
  other : ℕ → Key

abbrev pub leg_eq : Leg → Leg → Bool
leg_eq stake stake = true
leg_eq win win = true
leg_eq loss loss = true
leg_eq _ _ = false

abbrev pub stage_eq : LiveStage → LiveStage → Bool
stage_eq placed placed = true
stage_eq settled settled = true
stage_eq settled_stake settled_stake = true
stage_eq settled_winnings settled_winnings = true
stage_eq _ _ = false

unfoldable pub key_eq : Key → Key → Bool
key_eq (bonus u) (bonus v) = u == v
key_eq (settle b l) (settle c m) = b == c && leg_eq l m
key_eq (reverse b l) (reverse c m) = b == c && leg_eq l m
key_eq (close b l) (close c m) = b == c && leg_eq l m
key_eq (livebets b l) (livebets c m) = b == c && stage_eq l m
key_eq (other n) (other m) = n == m
key_eq _ _ = false

leg_eq_self : (l : Leg) → leg_eq l l ≡ true
leg_eq_self stake = refl
leg_eq_self win = refl
leg_eq_self loss = refl

stage_eq_self : (l : LiveStage) → stage_eq l l ≡ true
stage_eq_self placed = refl
stage_eq_self settled = refl
stage_eq_self settled_stake = refl
stage_eq_self settled_winnings = refl

pub key_eq_self : (k : Key) → key_eq k k ≡ true
unfolding key_eq
key_eq_self (bonus u) = ground arith
key_eq_self (settle b l) = ground (arith, leg_eq_self l)
key_eq_self (reverse b l) = ground (arith, leg_eq_self l)
key_eq_self (close b l) = ground (arith, leg_eq_self l)
key_eq_self (livebets b l) = ground (arith, stage_eq_self l)
key_eq_self (other n) = ground arith
